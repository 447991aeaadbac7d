-- ===== src/Stream/Frames.antt =====
-- StreamingServer.cpp, `SendNalUnit`, and NetworkReceiver.cpp, `ReassembleFrame`: frames that are
-- sent as UDP packets over a network that keeps their order and may lose a packet.
use open_xr_osx.Base.{
  ℕ, zero, suc, ◌+◌, ◌-◌, ◌*◌, ◌^◌, ◌≤◌, ◌<◌, ◌≡◌, ◌≢◌, ◌⊎◌, inl, inr, refl, sym, ap, ◌∙◌, Bool,
  true, false, List, [], ◌∷◌, ◌++◌, arith, length, subst, Bool-cases, ℕ_discrete, replicate, map,
  String,
}
use open_xr_osx.Protocol.{max_packet_payload, Packet}
use open_xr_osx.Sender.{
  FrameInfo, PacketDispatchState, Sent, datagram, video_nal, data_packet, parity_packet, ends_group,
  packet_count, frame_info, send_nal_udp, send_nal_unit, cannot_send,
}
use open_xr_osx.Receiver.{Receiver, receive_all, reset_pending}
use open_xr_osx.Stream.Pieces.{piece, pieces, wire, send_loop-wire, packet_count_bounds}
use open_xr_osx.Stream.State.{reset_pending-Holds}
use open_xr_osx.Stream.Steps.{step_first}
use open_xr_osx.Stream.Delivery.{padding}
use open_xr_osx.Stream.Loss.{lose, Delivers}
use open_xr_osx.Stream.Loop.{
  goes_on, lose-after_data_parity, lose-after_data_open, lose-wire, lose-wire_here, ComesThrough,
}
use open_xr_osx.Stream.Transport.{whole_frame, recovered_frame}

-- The first packet resets the pending frame.
receive_reset :
    (info : FrameInfo) (r : Receiver) (now j : ℕ) (payload : List ℕ) (ps : List Packet)
    → r.pending.total_packets ≡ 0
    → 0 < info.total_packets
    → receive_all
        (record r { pending = reset_pending (data_packet info j payload) })
        now
        (data_packet info j payload ∷ ps)
      ≡ receive_all r now (data_packet info j payload ∷ ps)
unfolding receive_all
receive_reset info r now j payload ps idle some_packets =
    rw (step_first info r now j payload idle some_packets, receive_all) refl

module _ (info : FrameInfo) (bytes : List ℕ) (lost now : ℕ) (out : List ℕ)
    (small : info.total_packets < 2 ^ 16) (r : Receiver) (idle : r.pending.total_packets ≡ 0) where
  from_first :
      (j : ℕ) (payload : List ℕ) (ps qs : List Packet)
      → 0 < info.total_packets
      → qs ≡ data_packet info j payload ∷ ps
      → Delivers
          (record r { pending = reset_pending (data_packet info j payload) })
          now
          qs
          out
          info.timestamp_ns
      → Delivers r now qs out info.timestamp_ns
  from_first j payload ps qs some_packets e (r', eq, idle') = (
    r',
    ap (receive_all r now) e
        ∙ sym (receive_reset info r now j payload ps idle some_packets)
        ∙ ap (receive_all (record r { pending = reset_pending (data_packet info j payload) }) now)
            (sym e)
        ∙ eq,
    idle',
  )

  -- Where the first packet is lost, the second one comes first.
  from_second :
      (rounds : ℕ)
      → suc rounds ≡ info.total_packets
      → 1 < info.total_packets
      → 0 ≡ lost
      → ComesThrough info bytes lost now out small (suc rounds) 0
      → Delivers r now (lose lost (wire (suc rounds) info bytes 0)) out info.timestamp_ns
  from_second zero total several e through = absurd (omega arith)
  from_second (suc rounds) total several e through =
      from_first 1 (piece bytes 1) _ _ (omega arith)
        (lose-wire_here (suc rounds) info bytes lost 0 e
          ∙ lose-after_data_open (suc rounds) info bytes lost 0
              (goes_on info 0 (λ e'. omega arith) (λ e'. omega arith))
          ∙ lose-wire rounds info bytes lost 1 (λ e'. omega arith))
        (through _ (reset_pending-Holds info bytes lost 1 (piece bytes 1)))

  -- The frame comes through from an idle receiver, if it does from a reset one.
  from_idle :
      (rounds : ℕ)
      → suc rounds ≡ info.total_packets
      → (0 ≢ lost) ⊎ (1 < info.total_packets)
      → ComesThrough info bytes lost now out small (suc rounds) 0
      → Delivers r now (lose lost (wire (suc rounds) info bytes 0)) out info.timestamp_ns
  from_idle rounds total which through = elim (ℕ_discrete 0 lost) [
    | no ne ↦
        from_first 0 (piece bytes 0) _ _ (omega arith) (lose-wire rounds info bytes lost 0 ne)
          (through _ (reset_pending-Holds info bytes lost 0 (piece bytes 0)))
    | yes e ↦
        from_second rounds total (elim which [ inl ne ↦ absurd (ne e) | inr several ↦ several ]) e
          through
  ]

-- What is on its way to the receiver.
unfoldable pub packets_of : List Sent → List Packet
packets_of [] = []
packets_of (datagram ip p ∷ sent) = p ∷ packets_of sent
packets_of (video_nal header bytes ∷ sent) = packets_of sent

packets_of-datagrams : (ip : String) (ps : List Packet) → packets_of (map (datagram ip) ps) ≡ ps
unfolding packets_of
packets_of-datagrams ip [] = refl
packets_of-datagrams ip (p ∷ ps) = ap (λ qs. p ∷ qs) (packets_of-datagrams ip ps)

-- A runtime that streams over UDP to a known client.
pub record Streams (s : PacketDispatchState) : Type 0 where
  pub accepting : s.accepting_packets ≡ true
  pub reachable : cannot_send s ≡ false
  pub udp : s.video_uses_tcp ≡ false

-- The frame is not empty, and its packets can be numbered with 16 bits.
abbrev pub IsFrame : List ℕ → Type 0
IsFrame bytes = (0 < length bytes) × (length bytes ≤ (2 ^ 16 - 1) * max_packet_payload)

module _ (s : PacketDispatchState) (frame_index : ℕ) (bytes : List ℕ) (is_keyframe : Bool)
    (timestamp_ns : ℕ) where
  abbrev the_info : FrameInfo
  the_info = frame_info frame_index bytes is_keyframe timestamp_ns

  count_pos :
      0 < length bytes → length bytes ≤ (2 ^ 16 - 1) * max_packet_payload → 0 < packet_count bytes
  unfolding packet_count
  count_pos some_bytes short = omega arith

  sent_wire :
      Streams s
      → IsFrame bytes
      → packets_of (send_nal_unit s frame_index bytes is_keyframe timestamp_ns).1
        ≡ wire (packet_count bytes) the_info bytes 0
  unfolding send_nal_unit send_nal_udp frame_info pieces
  sent_wire ready (some_bytes, short) =
      rw (ready.accepting, ready.reachable, ready.udp)
        (packets_of-datagrams s.client_ip _
          ∙ send_loop-wire (packet_count bytes) the_info bytes 0 0 []
              (omega (arith, (packet_count_bounds bytes short).1)) refl refl)

module _ (info : FrameInfo) (bytes : List ℕ) (lost : ℕ) where
  lose-wire_none :
      (rounds i : ℕ)
      → i + rounds ≤ lost
      → lose lost (wire rounds info bytes i) ≡ wire rounds info bytes i
  unfolding wire lose
  lose-wire_none zero i out = refl
  lose-wire_none (suc rounds) i out =
      lose-wire rounds info bytes lost i (λ e. omega arith)
      ∙ ap (λ ps. data_packet info i (piece bytes i) ∷ ps)
          (elim (Bool-cases (ends_group info i)) [
            | inl e ↦
                lose-after_data_parity rounds info bytes lost i e
                ∙ rw e (
                    ap (λ ps. parity_packet info i (pieces bytes 0 (i + 1)) ∷ ps)
                      (lose-wire_none rounds (i + 1) (omega arith)))
            | inr e ↦
                lose-after_data_open rounds info bytes lost i e
                ∙ rw e (lose-wire_none rounds (i + 1) (omega arith))
          ])

module _ (s : PacketDispatchState) (frame_index : ℕ) (bytes : List ℕ) (is_keyframe : Bool)
    (timestamp_ns : ℕ) (r : Receiver) (now : ℕ) where
  -- A frame of at least one byte and at most 65535 packets that is sent over UDP to a known client
  -- and arrives whole and in order makes a receiver that waits for a frame hand over exactly its
  -- bytes, once, with its time, and wait for a frame again.
  pub send_nal_unit-Delivers :
      Streams s
      → IsFrame bytes
      → r.pending.total_packets ≡ 0
      → Delivers r now
          (packets_of (send_nal_unit s frame_index bytes is_keyframe timestamp_ns).1)
          bytes
          timestamp_ns
  unfolding frame_info
  send_nal_unit-Delivers ready (some_bytes, short) idle =
      subst (λ ps. Delivers r now ps bytes timestamp_ns)
        (lose-wire_none info bytes n n 0 (omega arith)
          ∙ sym (sent_wire s frame_index bytes is_keyframe timestamp_ns ready (some_bytes, short)))
        (subst (λ k. Delivers r now (lose n (wire k info bytes 0)) bytes timestamp_ns) whole
          (from_idle info bytes n now bytes (packet_count_bounds bytes short).2 r idle (n - 1) whole
            (inl (λ e.
              omega
                (arith, count_pos s frame_index bytes is_keyframe timestamp_ns some_bytes short)))
            (whole_frame info bytes now (packet_count_bounds bytes short).2
              (packet_count_bounds bytes short).0 (packet_count_bounds bytes short).1 n (n - 1)
              whole (omega arith))))
    where
      n : ℕ
      n = packet_count bytes

      info : FrameInfo
      info = frame_info frame_index bytes is_keyframe timestamp_ns

      whole : suc (n - 1) ≡ n
      whole = omega (arith, count_pos s frame_index bytes is_keyframe timestamp_ns some_bytes short)

  -- If such a frame has 2 to 65535 packets and any one data packet of it is lost, while the rest
  -- arrives in order, a receiver that waits for a frame hands over the frame's bytes once all the
  -- same, with the zeros of `padding` behind them, and waits for a frame again.
  pub send_nal_unit-Delivers_recovered :
      (lost : ℕ)
      → Streams s
      → IsFrame bytes
      → 1 < packet_count bytes
      → lost < packet_count bytes
      → r.pending.total_packets ≡ 0
      → Delivers r now
          (lose lost (packets_of (send_nal_unit s frame_index bytes is_keyframe timestamp_ns).1))
          (bytes ++ replicate (padding lost (packet_count bytes) bytes) 0)
          timestamp_ns
  unfolding frame_info
  send_nal_unit-Delivers_recovered lost ready (some_bytes, short) several below idle =
      subst (λ ps. Delivers r now (lose lost ps) out timestamp_ns)
        (sym (sent_wire s frame_index bytes is_keyframe timestamp_ns ready (some_bytes, short)))
        (subst (λ k. Delivers r now (lose lost (wire k info bytes 0)) out timestamp_ns) whole
          (from_idle info bytes lost now out (packet_count_bounds bytes short).2 r idle (n - 1)
            whole (inr several)
            (recovered_frame info bytes now (packet_count_bounds bytes short).2
              (packet_count_bounds bytes short).0 (packet_count_bounds bytes short).1 lost (n - 1)
              whole below several)))
    where
      n : ℕ
      n = packet_count bytes

      info : FrameInfo
      info = frame_info frame_index bytes is_keyframe timestamp_ns

      out : List ℕ
      out = bytes ++ replicate (padding lost (packet_count bytes) bytes) 0

      whole : suc (n - 1) ≡ n
      whole = omega arith
