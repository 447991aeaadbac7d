-- ===== src/Stream/Sequence.antt =====
-- StreamingServer.cpp, `SendNalUnit`, and NetworkReceiver.cpp, `ReassembleFrame`: one frame after
-- the other, over a network that keeps their order and may lose one packet of each.
use open_xr_osx.Base.{
  ℕ, ◌<◌, ◌≡◌, refl, sym, ap, ◌∙◌, Bool, Option, none, some, List, [], ◌∷◌, ◌++◌, arith, All,
  append_assoc, replicate, subst, inl, inr, Option-cases,
}
use open_xr_osx.Protocol.{Packet}
use open_xr_osx.Sender.{PacketDispatchState, packet_count, send_nal_udp, send_nal_unit, cannot_send}
use open_xr_osx.Receiver.{Receiver, Event, nal, reassemble_frame, receive_all, store_after}
use open_xr_osx.Stream.Delivery.{padding}
use open_xr_osx.Stream.Loss.{lose, Delivers}
use open_xr_osx.Stream.Frames.{
  packets_of, Streams, IsFrame, send_nal_unit-Delivers, send_nal_unit-Delivers_recovered,
}

-- What the encoder hands to `SendNalUnit`, and which of its data packets the network loses.
pub record Frame : Type 0 where
  pub frame_index : ℕ
  pub bytes : List ℕ
  pub is_keyframe : Bool
  pub timestamp_ns : ℕ
  pub lost : Option ℕ

unfoldable pub network : Option ℕ → List Packet → List Packet
network none ps = ps
network (some lost) ps = lose lost ps

-- The bytes that the decoder is given of a frame.
unfoldable pub expected : Option ℕ → List ℕ → List ℕ
expected none bytes = bytes
expected (some lost) bytes = bytes ++ replicate (padding lost (packet_count bytes) bytes) 0

-- All that comes out of the network while the frames are sent.
unfoldable pub transmit : PacketDispatchState → List Frame → List Packet
transmit s [] = []
transmit s (f ∷ fs) =
    let (s', sent) = send_nal_unit s f.frame_index f.bytes f.is_keyframe f.timestamp_ns in
    network f.lost (packets_of sent) ++ transmit s' fs

unfoldable pub played : ℕ → List Frame → List Event
played now [] = []
played now (f ∷ fs) = nal (expected f.lost f.bytes) f.timestamp_ns now ∷ played now fs

-- A lost packet is one of several.
unfoldable pub IsLoss : Option ℕ → List ℕ → Type 0
IsLoss none bytes = Unit
IsLoss (some lost) bytes = (1 < packet_count bytes) × (lost < packet_count bytes)

abbrev pub Sendable : Frame → Type 0
Sendable f = IsFrame f.bytes × IsLoss f.lost f.bytes

store_after-after :
    (xs ys : List Event) (o : Option (Receiver × List Event))
    → store_after xs (store_after ys o) ≡ store_after (xs ++ ys) o
unfolding store_after
store_after-after xs ys none = refl
store_after-after xs ys (some (r, later)) = ap (λ es. some (r, es)) (sym (append_assoc xs ys later))

and_then : Option (Receiver × List Event) → ℕ → List Packet → Option (Receiver × List Event)
and_then none now qs = none
and_then (some (r, events)) now qs = store_after events (receive_all r now qs)

and_then-store_after :
    (events : List Event) (o : Option (Receiver × List Event)) (now : ℕ) (qs : List Packet)
    → store_after events (and_then o now qs) ≡ and_then (store_after events o) now qs
unfolding store_after and_then
and_then-store_after events none now qs = refl
and_then-store_after events (some (r, later)) now qs =
    store_after-after events later (receive_all r now qs)

store_after-nothing : (o : Option (Receiver × List Event)) → store_after [] o ≡ o
unfolding store_after
store_after-nothing none = refl
store_after-nothing (some (r, events)) = refl

receive_all-append :
    (r : Receiver) (now : ℕ) (ps qs : List Packet)
    → receive_all r now (ps ++ qs) ≡ and_then (receive_all r now ps) now qs
unfolding receive_all and_then
receive_all-append r now [] qs = sym (store_after-nothing (receive_all r now qs))
receive_all-append r now (p ∷ ps) qs = elim (Option-cases (reassemble_frame r now p)) [
  | inl e ↦ rw (e, receive_all) refl
  | inr ((r', events), e) ↦
      rw (e, receive_all)
        (ap (store_after events) (receive_all-append r' now ps qs)
          ∙ and_then-store_after events (receive_all r' now ps) now qs)
]

-- The state after a frame still streams.
sent_udp_state :
    (s : PacketDispatchState) (f : Frame)
    → Streams s
    → Streams (send_nal_udp s f.frame_index f.bytes f.is_keyframe f.timestamp_ns).0
unfolding send_nal_udp cannot_send
sent_udp_state s f ready = record {
  accepting = ready.accepting;
  reachable = ready.reachable;
  udp = ready.udp;
}

module _ (s : PacketDispatchState) (f : Frame) where
  sent_by_udp :
      Streams s
      → send_nal_unit s f.frame_index f.bytes f.is_keyframe f.timestamp_ns
        ≡ send_nal_udp s f.frame_index f.bytes f.is_keyframe f.timestamp_ns
  unfolding send_nal_unit
  sent_by_udp ready = ground (arith, ready.accepting, ready.reachable, ready.udp)

  sent_state :
      Streams s → Streams (send_nal_unit s f.frame_index f.bytes f.is_keyframe f.timestamp_ns).0
  sent_state ready = subst (λ x. Streams x.0) (sym (sent_by_udp ready)) (sent_udp_state s f ready)

  frame_comes :
      (r : Receiver) (now : ℕ) (lost : Option ℕ)
      → Streams s
      → IsFrame f.bytes
      → IsLoss lost f.bytes
      → r.pending.total_packets ≡ 0
      → Delivers r now
          (network lost
            (packets_of (send_nal_unit s f.frame_index f.bytes f.is_keyframe f.timestamp_ns).1))
          (expected lost f.bytes)
          f.timestamp_ns
  unfolding network expected IsLoss
  frame_comes r now none ready ok loss idle =
      send_nal_unit-Delivers s f.frame_index f.bytes f.is_keyframe f.timestamp_ns r now ready ok
        idle
  frame_comes r now (some lost) ready ok (several, below) idle =
      send_nal_unit-Delivers_recovered s f.frame_index f.bytes f.is_keyframe f.timestamp_ns r now
        lost ready ok several below idle

-- Frames that `SendNalUnit` sends over UDP to a known client, none of them empty or of more than
-- 65535 packets, come out at the decoder of a receiver that waits for a frame at the start, each
-- once, in their order and with its time, if the network keeps the order of the packets and loses
-- nothing but at most one data packet of each frame that has several packets, and none of a frame of
-- one packet. The bytes are those of the frame, with the zeros of `padding` behind them where its
-- last packet was lost. The receiver never faults, and waits for a frame again at the end.
pub transmit-played :
    (fs : List Frame) (s : PacketDispatchState) (r : Receiver) (now : ℕ)
    → Streams s
    → All Sendable fs
    → r.pending.total_packets ≡ 0
    → (r' : Receiver) × (receive_all r now (transmit s fs) ≡ some (r', played now fs))
      × (r'.pending.total_packets ≡ 0)
unfolding transmit played receive_all and_then store_after
transmit-played [] s r now ready ok idle = (r, refl, idle)
transmit-played (f ∷ fs) s r now ready ((ok, loss), oks) idle =
    let (r1, eq1, idle1) = frame_comes s f r now f.lost ready ok loss idle in
    let (r2, eq2, idle2) = transmit-played fs _ r1 now (sent_state s f ready) oks idle1 in
    (
      r2,
      receive_all-append r now _ _
          ∙ ap
              (λ o. and_then o now (
                transmit (send_nal_unit s f.frame_index f.bytes f.is_keyframe f.timestamp_ns).0 fs))
              eq1
          ∙ ap (store_after (nal (expected f.lost f.bytes) f.timestamp_ns now ∷ [])) eq2,
      idle2,
    )
