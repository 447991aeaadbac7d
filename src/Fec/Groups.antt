-- ===== src/Fec/Groups.antt =====
-- The groups cut the packets of a frame into consecutive ranges.
use open_xr_osx.Base.{ℕ, ◌/◌, ◌≤◌, ◌<◌, ◌^◌, ◌≡◌, ◌↔◌, arith}
use open_xr_osx.Protocol.{fec_group_size}
use open_xr_osx.Fec.{group_count, group_range}

-- For a frame of at most 65535 packets (`totalPackets` is a uint16), packet `i` lies in the range
-- of group `g` if and only if `g` is `i / 10`, and that group exists.
pub group_range_iff :
    (total i g : ℕ)
    → total < 2 ^ 16
    → i < total
    → g < group_count total
    → (i / fec_group_size < group_count total)
      × (((group_range g total).0 ≤ i) × (i < (group_range g total).1) ↔ (g ≡ i / fec_group_size))
unfolding group_count group_range
group_range_iff total i g ht hi hg =
    (omega arith, (λ p. omega (arith, p.0, p.1), λ e. (omega arith, omega arith)))

pub group_count_below :
    (total i : ℕ) → total < 2 ^ 16 → i < total → i / fec_group_size < group_count total
unfolding group_count
group_count_below total i ht hi = omega arith
