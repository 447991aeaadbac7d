-- ===== src/Stream/Scan.antt =====
-- NetworkReceiver.cpp, `TryFecRecovery`: the groups in which nothing is to be recovered.
use open_xr_osx.Base.{
  ℕ, zero, suc, ◌+◌, ◌-◌, ◌*◌, ◌^◌, ◌≤◌, ◌<◌, ◌≡◌, ◌≢◌, ◌⊎◌, inl, inr, refl, ap, ◌∙◌, Bool, true,
  false, ◌||◌, List, min, arith, get_or, ℕ_discrete,
}
use open_xr_osx.Protocol.{fec_group_size}
use open_xr_osx.Fec.{group_count, group_range}
use open_xr_osx.Receiver.{Receiver, scan_missing, recover_group, recover_groups}

pub scan_none :
    (rounds i : ℕ) (received : List Bool) (found : ℕ × ℕ)
    → ((j : ℕ) → i ≤ j → j < i + rounds → get_or received j false ≡ true)
    → scan_missing rounds i received found ≡ found
unfolding scan_missing
scan_none zero i received found all = refl
scan_none (suc rounds) i received (idx, count) all =
    rw (all i (omega arith) (omega arith)) (
      scan_none rounds (i + 1) received (idx, count) (λ j le lt. all j (omega arith) (omega arith)))

pub scan_one :
    (rounds i lost : ℕ) (received : List Bool) (idx count : ℕ)
    → i ≤ lost
    → lost < i + rounds
    → get_or received lost false ≡ false
    → ((j : ℕ) → i ≤ j → j < i + rounds → j ≢ lost → get_or received j false ≡ true)
    → scan_missing rounds i received (idx, count) ≡ (lost, count + 1)
unfolding scan_missing
scan_one zero i lost received idx count le lt out all = absurd (omega arith)
scan_one (suc rounds) i lost received idx count le lt out all = elim (ℕ_discrete i lost) [
  | yes e ↦ rw (ap (λ k. get_or received k false) e ∙ out) (
      scan_none rounds (i + 1) received (i, count + 1)
        (λ j le' lt'. all j (omega arith) (omega arith) (λ e'. omega arith))
      ∙ ap (λ k. (k, count + 1)) e)
  | no ne ↦ rw (all i (omega arith) (omega arith) ne) (
      scan_one rounds (i + 1) lost received idx count (omega arith) (omega arith) out
        (λ j le' lt'. all j (omega arith) (omega arith)))
]

pub group_range_eq :
    (total g : ℕ)
    → total < 2 ^ 16
    → g < group_count total
    → group_range g total ≡ (g * fec_group_size, min (g * fec_group_size + fec_group_size) total)
unfolding group_range group_count
group_range_eq total g small below = ground arith

-- No parity, or nothing missing.
pub recover_group_idle :
    (r : Receiver) (g : ℕ)
    → r.pending.total_packets < 2 ^ 16
    → g < group_count r.pending.total_packets
    → (get_or r.pending.fec_received g false ≡ false)
      ⊎ ((j : ℕ)
          → g * fec_group_size ≤ j
          → j < min (g * fec_group_size + fec_group_size) r.pending.total_packets
          → get_or r.pending.packet_received j false ≡ true)
    → recover_group r g ≡ (r, false)
unfolding recover_group
recover_group_idle r g small below (inl bare) = rw bare
recover_group_idle r g small below (inr all) =
    rw (group_range_eq r.pending.total_packets g small below, recover_group)
      (rw
        (scan_none (end - start) start r.pending.packet_received (2 ^ 32 - 1, 0)
          (λ j le lt. all j le (omega arith)))
        (ground arith))
  where
    start : ℕ
    start = g * fec_group_size

    end : ℕ
    end = min (g * fec_group_size + fec_group_size) r.pending.total_packets

or-false : (b : Bool) → (b || false) ≡ b
or-false true = refl
or-false false = refl

pub recover_groups_idle :
    (rounds g : ℕ) (r : Receiver) (recovered : Bool)
    → ((g' : ℕ) → g ≤ g' → g' < g + rounds → recover_group r g' ≡ (r, false))
    → recover_groups rounds g r recovered ≡ (r, recovered)
unfolding recover_groups
recover_groups_idle zero g r recovered idle = refl
recover_groups_idle (suc rounds) g r recovered idle = rw (idle g (omega arith) (omega arith)) (
    recover_groups_idle rounds (g + 1) r (recovered || false)
      (λ g' le lt. idle g' (omega arith) (omega arith))
    ∙ ap (λ b. (r, b)) (or-false recovered))
