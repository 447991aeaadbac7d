-- ===== src/Stream/Transport.antt =====
-- StreamingServer.cpp, `SendNalUnit`, and NetworkReceiver.cpp, `ReassembleFrame`: what the decoder
-- is given of a frame that is sent as UDP packets.
use open_xr_osx.Base.{
  ℕ, suc, ◌+◌, ◌*◌, ◌/◌, ◌^◌, ◌≤◌, ◌<◌, ◌≡◌, inr, refl, sym, ap, ◌∙◌, some, List, [], ◌∷◌, ◌++◌,
  arith, length, subst, ℕ_discrete, replicate,
}
use open_xr_osx.Protocol.{fec_group_size, max_packet_payload}
use open_xr_osx.Sender.{FrameInfo, data_packet, parity_packet}
use open_xr_osx.Receiver.{Receiver, receive_all, deliver, store_data, store_after}
use open_xr_osx.Stream.Pieces.{piece, pieces, wire}
use open_xr_osx.Stream.State.{Holds, store_data-Holds}
use open_xr_osx.Stream.Steps.{step_data, step_last}
use open_xr_osx.Stream.Parity.{with_parity, with_parity-Holds}
use open_xr_osx.Stream.Recovered.{with_recovered, step_parity_last, step_parity_late}
use open_xr_osx.Stream.Delivery.{deliver_whole, deliver_recovered, padding}
use open_xr_osx.Stream.Loss.{lose, Delivers, receive_quiet, receive_complete}
use open_xr_osx.Stream.Loop.{
  after_data, ends_here, lose-after_data_parity, lose-wire, skip_lost, lose-wire_here, through_all,
  ComesThrough,
}

receive-nothing : (r : Receiver) (now : ℕ) → receive_all r now [] ≡ some (r, [])
unfolding receive_all
receive-nothing r now = refl

late_parity :
    (info : FrameInfo) (i : ℕ) (payloads : List (List ℕ)) (r : Receiver) (now : ℕ)
    → r.pending.total_packets ≡ 0
    → receive_all r now (parity_packet info i payloads ∷ []) ≡ some (r, [])
unfolding receive_all store_after
late_parity info i payloads r now idle =
    rw (step_parity_late info i payloads r now idle, receive_all) refl

deliver_idle : (r : Receiver) (now : ℕ) → (deliver r now).0.pending.total_packets ≡ 0
unfolding deliver
deliver_idle r now = refl

lose-nothing : (lost : ℕ) → lose lost [] ≡ []
unfolding lose
lose-nothing lost = refl

wire-nothing : (info : FrameInfo) (bytes : List ℕ) (i : ℕ) → wire 0 info bytes i ≡ []
unfolding wire
wire-nothing info bytes i = refl

module _ (info : FrameInfo) (bytes : List ℕ) (lost i : ℕ) (last : i + 1 ≡ info.total_packets) where
  last_parity :
      lose lost (after_data 0 info bytes i) ≡ parity_packet info i (pieces bytes 0 (i + 1)) ∷ []
  last_parity =
      lose-after_data_parity 0 info bytes lost i (ends_here info i (inr last))
      ∙ ap (λ ps. parity_packet info i (pieces bytes 0 (i + 1)) ∷ ps)
          (ap (lose lost) (wire-nothing info bytes (i + 1)) ∙ lose-nothing lost)

module _ (info : FrameInfo) (bytes : List ℕ) (now : ℕ) (small : info.total_packets < 2 ^ 16)
    (fits : length bytes ≤ info.total_packets * max_packet_payload)
    (full : info.total_packets * max_packet_payload < length bytes + max_packet_payload) where
  last_kept :
      (lost i : ℕ)
      → info.total_packets ≤ lost
      → i + 1 ≡ info.total_packets
      → ComesThrough info bytes lost now bytes small 1 i
  last_kept lost i none_lost last r h =
      subst (λ ps. Delivers r now ps bytes info.timestamp_ns)
        (sym (
          lose-wire 0 info bytes lost i (λ e. omega arith)
          ∙ ap (λ ps. data_packet info i (piece bytes i) ∷ ps)
              (last_parity info bytes lost i last)))
        (receive_complete r stored now (data_packet info i (piece bytes i)) _
          (step_last r now small last (omega arith) h)
          (deliver_whole info bytes lost (i / fec_group_size) stored now (omega arith) fits
            none_lost
            (subst (λ n. Holds info bytes lost n (i / fec_group_size) stored.pending) last
              (store_data-Holds small (omega arith) (λ e. omega arith) h)))
          (late_parity info i (pieces bytes 0 (i + 1)) (deliver stored now).0 now
            (deliver_idle stored now)))
    where
      stored : Receiver
      stored = record r { pending = store_data r.pending i (piece bytes i) }

  -- The bytes with the zeros that may stand behind a recovered packet.
  abbrev pub padded : ℕ → List ℕ
  padded lost = bytes ++ replicate (padding lost info.total_packets bytes) 0

  recover_last :
      (lost i : ℕ)
      → lost < info.total_packets
      → 1 < info.total_packets
      → i + 1 ≡ info.total_packets
      → (r : Receiver) → Holds info bytes lost (i + 1) (i / fec_group_size) r.pending
      → Delivers r now
          (parity_packet info i (pieces bytes 0 (i + 1)) ∷ [])
          (padded lost)
          info.timestamp_ns
  recover_last lost i below several last r h =
      receive_complete r (with_recovered bytes lost (with_parity info bytes i r)) now _ []
        (step_parity_last info bytes lost i r now small last below h)
        (deliver_recovered info bytes lost (i / fec_group_size + 1) (with_parity info bytes i r) now
          below several fits full
          (subst
            (λ n.
              Holds info bytes lost n (i / fec_group_size + 1) (with_parity info bytes i r).pending)
            last (with_parity-Holds r now small (omega arith) (inr last) h)))
        (receive-nothing _ now)

  last_recovered :
      (lost i : ℕ)
      → lost < info.total_packets
      → 1 < info.total_packets
      → i + 1 ≡ info.total_packets
      → ComesThrough info bytes lost now (padded lost) small 1 i
  last_recovered lost i below several last r h = elim (ℕ_discrete i lost) [
    | yes e ↦
        subst (λ ps. Delivers r now ps (padded lost) info.timestamp_ns)
          (sym (lose-wire_here 0 info bytes lost i e ∙ last_parity info bytes lost i last))
          (recover_last lost i below several last r (skip_lost e h))
    | no ne ↦
        subst (λ ps. Delivers r now ps (padded lost) info.timestamp_ns)
          (sym (
            lose-wire 0 info bytes lost i ne
            ∙ ap (λ ps. data_packet info i (piece bytes i) ∷ ps)
                (last_parity info bytes lost i last)))
          (receive_quiet r _ now (data_packet info i (piece bytes i)) _
            (step_data r now small (omega arith) ne (inr (omega arith)) h)
            (recover_last lost i below several last _ (store_data-Holds small (omega arith) ne h)))
  ]

  -- A whole frame, from its state after the first packet has come.
  pub whole_frame :
      (lost rounds : ℕ)
      → suc rounds ≡ info.total_packets
      → info.total_packets ≤ lost
      → ComesThrough info bytes lost now bytes small (suc rounds) 0
  whole_frame lost rounds e none_lost =
      through_all info bytes lost now bytes small (λ i. last_kept lost i none_lost) rounds 0
        (omega arith)

  pub recovered_frame :
      (lost rounds : ℕ)
      → suc rounds ≡ info.total_packets
      → lost < info.total_packets
      → 1 < info.total_packets
      → ComesThrough info bytes lost now (padded lost) small (suc rounds) 0
  recovered_frame lost rounds e below several =
      through_all info bytes lost now (padded lost) small (λ i. last_recovered lost i below several)
        rounds 0 (omega arith)
