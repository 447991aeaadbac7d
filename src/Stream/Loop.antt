-- ===== src/Stream/Loop.antt =====
-- NetworkReceiver.cpp, `ReassembleFrame`, over the packets of one frame in the order in which
-- `SendNalUnit` sends them.
use open_xr_osx.Base.{
  ℕ, zero, suc, ◌+◌, ◌/◌, ◌%◌, ◌^◌, ◌<◌, ◌≡◌, ◌≢◌, ◌⊎◌, inl, refl, sym, true, false, List, ◌∷◌,
  arith, subst, if◌then◌else◌, ℕ_discrete,
}
use open_xr_osx.Protocol.{fec_group_size, Packet}
use open_xr_osx.Sender.{FrameInfo, data_packet, parity_packet, ends_group}
use open_xr_osx.Receiver.{PendingFrame, Receiver}
use open_xr_osx.Stream.Pieces.{piece, pieces, wire}
use open_xr_osx.Stream.State.{Holds, store_data-Holds, lost-Holds}
use open_xr_osx.Stream.Steps.{step_data}
use open_xr_osx.Stream.Parity.{with_parity, with_parity-Holds}
use open_xr_osx.Stream.Recovered.{step_parity}
use open_xr_osx.Stream.Loss.{
  lose, lose-data_packet, lose-data_packet_here, lose-parity_packet, Delivers, receive_quiet,
}

-- What is left of the packets from `i` on once data packet `i` is dealt with.
abbrev pub after_data : ℕ → FrameInfo → List ℕ → ℕ → List Packet
after_data rounds info bytes i =
    if ends_group info i
    then parity_packet info i (pieces bytes 0 (i + 1)) ∷ wire rounds info bytes (i + 1)
    else wire rounds info bytes (i + 1)

pub ends_here :
    (info : FrameInfo) (i : ℕ)
    → ((i + 1) % fec_group_size ≡ 0) ⊎ (i + 1 ≡ info.total_packets)
    → ends_group info i ≡ true
unfolding ends_group
ends_here info i ends = ground arith

pub goes_on :
    (info : FrameInfo) (i : ℕ)
    → (i + 1) % fec_group_size ≢ 0
    → i + 1 ≢ info.total_packets
    → ends_group info i ≡ false
unfolding ends_group
goes_on info i ne ne' = ground arith

module _ (rounds : ℕ) (info : FrameInfo) (bytes : List ℕ) (lost i : ℕ) where
  pub lose-after_data_parity :
      ends_group info i ≡ true
      → lose lost (after_data rounds info bytes i)
        ≡ parity_packet info i (pieces bytes 0 (i + 1)) ∷ lose lost (wire rounds info bytes (i + 1))
  lose-after_data_parity e = rw e (lose-parity_packet lost info i _ _)

  pub lose-after_data_open :
      ends_group info i ≡ false
      → lose lost (after_data rounds info bytes i) ≡ lose lost (wire rounds info bytes (i + 1))
  lose-after_data_open e = rw e refl

  pub lose-wire :
      i ≢ lost
      → lose lost (wire (suc rounds) info bytes i)
        ≡ data_packet info i (piece bytes i) ∷ lose lost (after_data rounds info bytes i)
  unfolding wire
  lose-wire ne = lose-data_packet lost info i _ _ ne

  pub lose-wire_here :
      i ≡ lost
      → lose lost (wire (suc rounds) info bytes i) ≡ lose lost (after_data rounds info bytes i)
  unfolding wire
  lose-wire_here e = lose-data_packet_here lost info i _ _ e

pub skip_lost :
    {info : FrameInfo} {bytes : List ℕ} {lost i p : ℕ} {f : PendingFrame}
    → i ≡ lost
    → Holds info bytes lost i p f
    → Holds info bytes lost (i + 1) p f
skip_lost {info} {bytes} {lost} {i} {p} {f} e h =
    subst (λ l. Holds info bytes l (i + 1) p f) e
      (lost-Holds (subst (λ l. Holds info bytes l i p f) (sym e) h))

module _ (info : FrameInfo) (bytes : List ℕ) (lost now : ℕ) (out : List ℕ)
    (small : info.total_packets < 2 ^ 16) where
  abbrev Comes : Receiver → List Packet → Type 0
  Comes r ps = Delivers r now ps out info.timestamp_ns

  -- From `i` on the frame comes through.
  abbrev pub ComesThrough : ℕ → ℕ → Type 0
  ComesThrough rounds i =
      (r : Receiver)
      → Holds info bytes lost i (i / fec_group_size) r.pending
      → Comes r (lose lost (wire rounds info bytes i))

  through_parity_packet :
      (rounds i : ℕ)
      → i + 1 < info.total_packets
      → ComesThrough rounds (i + 1)
      → (r : Receiver) → Holds info bytes lost (i + 1) (i / fec_group_size) r.pending
      → Comes r (lose lost (after_data rounds info bytes i))
  through_parity_packet rounds i inner next r h = elim (ℕ_discrete ((i + 1) % fec_group_size) 0) [
    | yes ends ↦
        subst (Comes r)
          (sym (lose-after_data_parity rounds info bytes lost i (ends_here info i (inl ends))))
          (receive_quiet r (with_parity info bytes i r) now
            (parity_packet info i (pieces bytes 0 (i + 1))) _
            (step_parity info bytes lost i r now small inner ends h)
            (next (with_parity info bytes i r) (
              subst (λ p. Holds info bytes lost (i + 1) p (with_parity info bytes i r).pending)
                (next_group ends) (with_parity-Holds r now small (omega arith) (inl ends) h))))
    | no open_group ↦
        subst (Comes r)
          (sym (
            lose-after_data_open rounds info bytes lost i
              (goes_on info i open_group (λ e. omega arith))))
          (next r
            (subst (λ p. Holds info bytes lost (i + 1) p r.pending) (same_group open_group) h))
  ]
    where
      next_group : (i + 1) % fec_group_size ≡ 0 → i / fec_group_size + 1 ≡ (i + 1) / fec_group_size
      next_group ends = omega arith

      same_group : (i + 1) % fec_group_size ≢ 0 → i / fec_group_size ≡ (i + 1) / fec_group_size
      same_group ne = omega arith

  through_data :
      (rounds i : ℕ)
      → i + 1 < info.total_packets
      → ComesThrough rounds (i + 1)
      → ComesThrough (suc rounds) i
  through_data rounds i inner next r h = elim (ℕ_discrete i lost) [
    | yes e ↦
        subst (Comes r) (sym (lose-wire_here rounds info bytes lost i e))
          (through_parity_packet rounds i inner next r (skip_lost e h))
    | no ne ↦ subst (Comes r) (sym (lose-wire rounds info bytes lost i ne)) (
        receive_quiet r _ now (data_packet info i (piece bytes i)) _
          (step_data r now small (omega arith) ne (inl inner) h)
          (through_parity_packet rounds i inner next _ (store_data-Holds small (omega arith) ne h)))
  ]

  -- What the last packet does decides what becomes of the frame.
  pub through_all :
      ((i : ℕ) → i + 1 ≡ info.total_packets → ComesThrough 1 i)
      → (rounds i : ℕ) → i + suc rounds ≡ info.total_packets
      → ComesThrough (suc rounds) i
  through_all last zero i e = last i (omega arith)
  through_all last (suc rounds) i e =
      through_data (suc rounds) i (omega arith) (through_all last rounds (i + 1) (omega arith))
