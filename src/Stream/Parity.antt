-- ===== src/Stream/Parity.antt =====
-- NetworkReceiver.cpp, `ReassembleFrame`: a parity packet of a frame of which at most one packet is
-- missing.
use open_xr_osx.Base.{
  some, ℕ, ◌+◌, ◌*◌, ◌/◌, ◌%◌, ◌^◌, ◌≤◌, ◌<◌, ◌≡◌, ◌⊎◌, inl, inr, ap, ◌∙◌, false, List, [], arith,
  lt→ltb, leb, ◌==◌, if◌then◌else◌, dec_lt, Bool-cases,
}
use open_xr_osx.Protocol.{u16, fec_group_size}
use open_xr_osx.Fec.{group_count, encode}
use open_xr_osx.Fec.Groups.{group_count_below}
use open_xr_osx.Sender.{FrameInfo, parity_packet}
use open_xr_osx.Receiver.{
  Receiver, recover_group, try_fec_recovery, store_parity, receive_parity, deliver,
}
use open_xr_osx.Stream.Pieces.{pieces, pieces_group}
use open_xr_osx.Stream.State.{Holds, group_size, store_parity-Holds}
use open_xr_osx.Stream.Scan.{recover_group_idle, recover_groups_idle}

-- The parity of the group that ends with packet `j`.
pub parity_payload :
    (info : FrameInfo) (bytes : List ℕ) (j : ℕ)
    → j < info.total_packets
    → ((j + 1) % fec_group_size ≡ 0) ⊎ (j + 1 ≡ info.total_packets)
    → (parity_packet info j (pieces bytes 0 (j + 1))).payload
      ≡ encode (
          pieces bytes
            (j / fec_group_size * fec_group_size)
            (group_size info.total_packets (j / fec_group_size)))
unfolding parity_packet group_size
parity_payload info bytes j below ends = ap encode (
    pieces_group bytes (j / fec_group_size * fec_group_size) (j + 1) (omega arith)
    ∙ ap (pieces bytes (j / fec_group_size * fec_group_size)) (omega arith))

-- The state after that parity packet.
abbrev pub with_parity : FrameInfo → List ℕ → ℕ → Receiver → Receiver
with_parity info bytes j r = record r {
  pending =
      store_parity r.pending (j / fec_group_size)
        (parity_packet info j (pieces bytes 0 (j + 1))).payload;
}

module _ {info : FrameInfo} {bytes : List ℕ} {lost j : ℕ} (r : Receiver) (now : ℕ) where
  pub with_parity-Holds :
      info.total_packets < 2 ^ 16
      → j < info.total_packets
      → ((j + 1) % fec_group_size ≡ 0) ⊎ (j + 1 ≡ info.total_packets)
      → Holds info bytes lost (j + 1) (j / fec_group_size) r.pending
      → Holds info bytes lost (j + 1) (j / fec_group_size + 1) (with_parity info bytes j r).pending
  with_parity-Holds small below ends h =
      store_parity-Holds _ (group_count_below info.total_packets j small below)
        (parity_payload info bytes j below ends) h

  -- Before the end of the frame, with nothing missing so far, there is nothing to recover.
  pub nothing_yet :
      info.total_packets < 2 ^ 16
      → (j + 1) % fec_group_size ≡ 0
      → j < lost
      → Holds info bytes lost (j + 1) (j / fec_group_size + 1) r.pending
      → try_fec_recovery r ≡ (r, false)
  unfolding try_fec_recovery
  nothing_yet small ends later h = elim (Bool-cases (r.pending.total_packets == 0)) [
    | inl e ↦ rw e
    | inr e ↦ rw (e, recover_groups_idle (group_count r.pending.total_packets) 0 r false idle)
  ]
    where
      idle :
          (g : ℕ)
          → 0 ≤ g
          → g < 0 + group_count r.pending.total_packets
          → recover_group r g ≡ (r, false)
      idle g le lt =
          recover_group_idle r g (omega (arith, h.total)) (omega arith)
            (elim (dec_lt g (j / fec_group_size + 1)) [
              | yes below ↦ inr (λ k le' lt'. h.present k (omega arith) (λ e. omega arith))
              | no above ↦ inl (h.without_parity g (omega arith))
            ])

  pub parity_found :
      info.total_packets < 2 ^ 16
      → j < info.total_packets
      → Holds info bytes lost (j + 1) (j / fec_group_size) r.pending
      → receive_parity r now (parity_packet info j (pieces bytes 0 (j + 1)))
        ≡ some (
            if leb info.total_packets (r.pending.received_packets + 1)
            then (if (try_fec_recovery (with_parity info bytes j r)).1
                then deliver (try_fec_recovery (with_parity info bytes j r)).0 now
                else ((try_fec_recovery (with_parity info bytes j r)).0, []))
            else (with_parity info bytes j r, []))
  unfolding receive_parity parity_packet
  parity_found small below h =
      rw
        (
          index,
          h.frame,
          h.total,
          h.groups,
          h.without_parity (j / fec_group_size) (omega arith),
          h.parity_mark_count,
          h.parity_slot_count,
        )
        (rw
          (lt→ltb (j / fec_group_size) (group_count info.total_packets)
            (group_count_below info.total_packets j small below))
          (ground arith))
    where
      index : u16 (j / fec_group_size) ≡ j / fec_group_size
      index = omega arith
