-- ===== src/Stream/Hit.antt =====
-- NetworkReceiver.cpp, `TryFecRecovery`: the group in which one packet is recovered.
use open_xr_osx.Base.{
  ℕ, zero, suc, ◌+◌, ◌-◌, ◌*◌, ◌/◌, ◌^◌, ◌≤◌, ◌<◌, ◌≡◌, ◌≢◌, inl, inr, refl, ap, ap₂, ◌∙◌, true,
  List, [], ◌∷◌, ◌++◌, min, arith, get_or, take, ◌==◌, Bool-cases,
}
use open_xr_osx.Protocol.{u32, fec_group_size, max_packet_payload}
use open_xr_osx.Fec.{group_range, decode, encode}
use open_xr_osx.Fec.Groups.{group_count_below}
use open_xr_osx.Fec.Recovery.{decode-encode, pad}
use open_xr_osx.Sender.{FrameInfo}
use open_xr_osx.Receiver.{
  PendingFrame, Receiver, scan_missing, recover_group, gather_present, store_recovered,
}
use open_xr_osx.Stream.Pieces.{piece, pieces, pieces_around, length-piece-le}
use open_xr_osx.Stream.State.{Holds, group_size}
use open_xr_osx.Stream.Scan.{scan_one, group_range_eq}

-- The slots from `i` on hold the payloads, but for `lost`.
abbrev Filled : List ℕ → PendingFrame → ℕ → ℕ → ℕ → Type 0
Filled bytes f lost i count =
    (j : ℕ)
    → i ≤ j
    → j < i + count
    → j ≢ lost
    → take (get_or f.packet_sizes j 0) (get_or f.slots j []) ≡ piece bytes j

gather_rest :
    (bytes : List ℕ) (f : PendingFrame) (lost rounds i : ℕ)
    → lost < i
    → Filled bytes f lost i rounds
    → gather_present rounds i lost f ≡ pieces bytes i rounds
unfolding gather_present pieces
gather_rest bytes f lost zero i out filled = refl
gather_rest bytes f lost (suc rounds) i out filled = elim (Bool-cases (i == lost)) [
  | inl e ↦ absurd (ground arith)
  | inr e ↦ rw e (
      ap₂ ◌∷◌ (filled i (omega arith) (omega arith) (λ e'. omega arith)) (
        gather_rest bytes f lost rounds (i + 1) (omega arith)
          (λ j le lt. filled j (omega arith) (omega arith))))
]

pieces_here :
    (bytes : List ℕ) (i a b c n m : ℕ)
    → a ≡ 0
    → b ≡ c
    → n ≡ m
    → pieces bytes c m ≡ pieces bytes i a ++ pieces bytes b n
unfolding pieces
pieces_here bytes i a b c n m h k l = rw (h, k, l)

pieces_next :
    (bytes : List ℕ) (i a a' b n m : ℕ)
    → a ≡ suc a'
    → n ≡ m
    → piece bytes i ∷ (pieces bytes (i + 1) a' ++ pieces bytes b n)
      ≡ pieces bytes i a ++ pieces bytes b m
unfolding pieces
pieces_next bytes i a a' b n m h k = rw (h, k)

gather_around :
    (bytes : List ℕ) (f : PendingFrame) (lost rounds i : ℕ)
    → i ≤ lost
    → lost < i + rounds
    → Filled bytes f lost i rounds
    → gather_present rounds i lost f
      ≡ pieces bytes i (lost - i) ++ pieces bytes (lost + 1) (i + rounds - lost - 1)
unfolding gather_present pieces
gather_around bytes f lost zero i le lt filled = absurd (omega arith)
gather_around bytes f lost (suc rounds) i le lt filled = elim (Bool-cases (i == lost)) [
  | inl e ↦ rw e (
      gather_rest bytes f lost rounds (i + 1) (ground arith)
        (λ j le' lt'. filled j (omega arith) (omega arith))
      ∙ pieces_here bytes i (lost - i) (lost + 1) (i + 1) _ rounds (ground arith) (ground arith)
          (ground arith))
  | inr e ↦ rw e (
      ap₂ ◌∷◌ (filled i (omega arith) (omega arith) (λ e'. ground arith)) (
        gather_around bytes f lost rounds (i + 1) (ground arith) (omega arith)
          (λ j le' lt'. filled j (omega arith) (omega arith)))
      ∙ pieces_next bytes i (lost - i) (lost - (i + 1)) (lost + 1) _ _ (ground arith) (omega arith))
]

module _ (info : FrameInfo) (bytes : List ℕ) (lost p : ℕ) (r : Receiver) where
  -- In the group of the lost packet, with its parity there, exactly that packet comes back, with
  -- zeros behind it where it was short.
  pub recover_group_hit :
      info.total_packets < 2 ^ 16
      → lost < info.total_packets
      → lost / fec_group_size < p
      → Holds info bytes lost info.total_packets p r.pending
      → recover_group r (lost / fec_group_size) ≡ (
        record r {
          pending = store_recovered r.pending lost (pad max_packet_payload (piece bytes lost));
          fec_recoveries = u32 (r.fec_recoveries + 1);
        },
        true,
      )
  unfolding recover_group group_size
  recover_group_hit small below parity h =
      rw (range, recover_group)
        (rw (scan, h.with_parity g parity)
          (ap
            (λ b. (
              record r {
                pending = store_recovered r.pending lost b;
                fec_recoveries = u32 (r.fec_recoveries + 1);
              },
              true,
            ))
            decoded))
    where
      g : ℕ
      g = lost / fec_group_size

      start : ℕ
      start = g * fec_group_size

      end : ℕ
      end = min (start + fec_group_size) r.pending.total_packets

      range : group_range g r.pending.total_packets ≡ (start, end)
      range = group_range_eq r.pending.total_packets g (omega (arith, h.total)) (
          group_count_below r.pending.total_packets lost (omega (arith, h.total))
            (omega (arith, h.total)))

      scan :
          scan_missing (end - start) start r.pending.packet_received (2 ^ 32 - 1, 0) ≡ (lost, 0 + 1)
      scan =
          scan_one (end - start) start lost r.pending.packet_received _ 0 (omega arith)
            (omega (arith, h.total)) (h.absent lost (inr refl))
            (λ j le lt ne. h.present j (omega (arith, h.total)) ne)

      count_eq : group_size info.total_packets g ≡ end - start
      count_eq = omega (arith, h.total)

      decoded :
          decode
            (gather_present (end - start) start lost r.pending)
            (get_or r.pending.fec_slots g [])
          ≡ pad max_packet_payload (piece bytes lost)
      decoded =
          ap₂ decode
            (gather_around bytes r.pending lost (end - start) start (omega arith)
              (omega (arith, h.total))
              (λ j le lt ne.
                ap (λ k. take k (get_or r.pending.slots j []))
                  (h.size j (omega (arith, h.total)) ne)
                ∙ h.slot j (omega (arith, h.total)) ne))
            (h.parity g parity
              ∙ ap encode (
                  ap (pieces bytes start) count_eq
                  ∙ pieces_around bytes start (end - start) lost (omega arith)
                      (omega (arith, h.total))))
          ∙ decode-encode _ _ (piece bytes lost) (length-piece-le bytes lost)
