-- ===== src/Stream/Recovered.antt =====
-- NetworkReceiver.cpp, `TryFecRecovery` and `ReassembleFrame`: the last parity packet of a frame of
-- which one packet is missing completes the frame.
use open_xr_osx.Base.{
  ℕ, zero, suc, ◌+◌, ◌/◌, ◌%◌, ◌^◌, ◌≤◌, ◌<◌, ◌≡◌, inl, inr, refl, ap, ◌∙◌, Bool, true, false, ◌||◌,
  some, List, [], arith, leb, ◌==◌, if◌then◌else◌, ℕ_discrete, Bool-cases, get_or-set, subst,
}
use open_xr_osx.Protocol.{u32, fec_group_size, max_packet_payload}
use open_xr_osx.Fec.{group_count}
use open_xr_osx.Fec.Recovery.{pad}
use open_xr_osx.Fec.Groups.{group_count_below}
use open_xr_osx.Sender.{FrameInfo, parity_packet}
use open_xr_osx.Receiver.{
  Receiver, recover_group, recover_groups, try_fec_recovery, store_recovered, receive_parity,
  deliver, reassemble_frame,
}
use open_xr_osx.Stream.Pieces.{piece, pieces}
use open_xr_osx.Stream.State.{Holds}
use open_xr_osx.Stream.Scan.{recover_group_idle, recover_groups_idle}
use open_xr_osx.Stream.Hit.{recover_group_hit}
use open_xr_osx.Stream.Steps.{parity_packet_marked}
use open_xr_osx.Stream.Parity.{with_parity, with_parity-Holds, nothing_yet, parity_found}

or-true : (b : Bool) → (b || true) ≡ true
or-true true = refl
or-true false = refl

recover_groups_once :
    (rounds g hit : ℕ) (r r' : Receiver) (recovered : Bool)
    → g ≤ hit
    → hit < g + rounds
    → ((g' : ℕ) → g ≤ g' → g' < hit → recover_group r g' ≡ (r, false))
    → recover_group r hit ≡ (r', true)
    → ((g' : ℕ) → hit < g' → g' < g + rounds → recover_group r' g' ≡ (r', false))
    → recover_groups rounds g r recovered ≡ (r', true)
unfolding recover_groups
recover_groups_once zero g hit r r' recovered le lt before here after = absurd (omega arith)
recover_groups_once (suc rounds) g hit r r' recovered le lt before here after =
    elim (ℕ_discrete g hit) [
      | yes e ↦ rw (ap (recover_group r) e ∙ here) (
          recover_groups_idle rounds (g + 1) r' (recovered || true)
            (λ g' le' lt'. after g' (omega arith) (omega arith))
          ∙ ap (λ b. (r', b)) (or-true recovered))
      | no ne ↦ rw (before g (omega arith) (omega arith)) (
          recover_groups_once rounds (g + 1) hit r r' (recovered || false) (omega arith)
            (omega arith) (λ g' le' lt'. before g' (omega arith) lt') here
            (λ g' lt' lt''. after g' lt' (omega arith)))
    ]

-- What the recovery leaves.
abbrev pub with_recovered : List ℕ → ℕ → Receiver → Receiver
with_recovered bytes lost r = record r {
  pending = store_recovered r.pending lost (pad max_packet_payload (piece bytes lost));
  fec_recoveries = u32 (r.fec_recoveries + 1);
}

module _ {info : FrameInfo} {bytes : List ℕ} {lost : ℕ} (r : Receiver) where
  pub try_fec_recovery_hit :
      info.total_packets < 2 ^ 16
      → lost < info.total_packets
      → Holds info bytes lost info.total_packets (group_count info.total_packets) r.pending
      → try_fec_recovery r ≡ (with_recovered bytes lost r, true)
  unfolding try_fec_recovery store_recovered
  try_fec_recovery_hit small below h = rw running (
      rw
        (recover_groups_once (group_count r.pending.total_packets) 0 (lost / fec_group_size) r
          (with_recovered bytes lost r) false (omega arith)
          (omega (arith, group, ap group_count h.total)) before
          (recover_group_hit info bytes lost _ r small below group h) after)
        (ap (λ b. (with_recovered bytes lost r, b)) (ground (arith, h.total, h.received))))
    where
      running : (r.pending.total_packets == 0) ≡ false
      running = ground (arith, h.total)

      group : lost / fec_group_size < group_count info.total_packets
      group = group_count_below info.total_packets lost small below

      before : (g : ℕ) → 0 ≤ g → g < lost / fec_group_size → recover_group r g ≡ (r, false)
      before g le lt =
          recover_group_idle r g (omega (arith, h.total))
            (omega (arith, group, ap group_count h.total))
            (inr (λ k le' lt'. h.present k (omega (arith, h.total)) (λ e. omega arith)))

      after :
          (g : ℕ)
          → lost / fec_group_size < g
          → g < 0 + group_count r.pending.total_packets
          → recover_group (with_recovered bytes lost r) g ≡ (with_recovered bytes lost r, false)
      after g lt lt' =
          recover_group_idle (with_recovered bytes lost r) g (omega (arith, h.total)) (omega arith)
            (inr (λ k le lt''.
              get_or-set r.pending.packet_received lost k true false (omega (arith, h.mark_count))
              ∙ ground (arith, h.total, h.present k)))

-- The group of the last packet is the last group.
group_count_last :
    (total j : ℕ) → total < 2 ^ 16 → j + 1 ≡ total → j / fec_group_size + 1 ≡ group_count total
unfolding group_count
group_count_last total j small last = omega arith

module _ (info : FrameInfo) (bytes : List ℕ) (lost j : ℕ) (r : Receiver) (now : ℕ) where
  -- In the middle of the frame a parity packet is stored.
  pub step_parity :
      info.total_packets < 2 ^ 16
      → j + 1 < info.total_packets
      → (j + 1) % fec_group_size ≡ 0
      → Holds info bytes lost (j + 1) (j / fec_group_size) r.pending
      → reassemble_frame r now (parity_packet info j (pieces bytes 0 (j + 1)))
        ≡ some (with_parity info bytes j r, [])
  unfolding reassemble_frame
  step_parity small below ends h =
      rw (parity_packet_marked info j (pieces bytes 0 (j + 1)))
        (parity_found r now small (omega arith) h ∙ ap some waits)
    where
      stored : Receiver
      stored = with_parity info bytes j r

      waits :
          (if leb info.total_packets (r.pending.received_packets + 1)
            then (if (try_fec_recovery stored).1
                then deliver (try_fec_recovery stored).0 now
                else ((try_fec_recovery stored).0, []))
            else (stored, []))
          ≡ (stored, [])
      waits = elim (Bool-cases (leb info.total_packets (r.pending.received_packets + 1))) [
        | inl e ↦ rw (
          e,
          nothing_yet {lost = lost} stored now small ends (ground (arith, h.received))
              (with_parity-Holds r now small (omega arith) (inl ends) h),
        )
        | inr e ↦ rw e
      ]

  -- The last parity packet completes the frame.
  pub step_parity_last :
      info.total_packets < 2 ^ 16
      → j + 1 ≡ info.total_packets
      → lost < info.total_packets
      → Holds info bytes lost (j + 1) (j / fec_group_size) r.pending
      → reassemble_frame r now (parity_packet info j (pieces bytes 0 (j + 1)))
        ≡ some (deliver (with_recovered bytes lost (with_parity info bytes j r)) now)
  unfolding reassemble_frame
  step_parity_last small last below h = rw (parity_packet_marked info j (pieces bytes 0 (j + 1))) (
      parity_found r now small (omega arith) h
      ∙ rw (full, try_fec_recovery_hit {info = info} {lost = lost} stored small below ready) refl)
    where
      stored : Receiver
      stored = with_parity info bytes j r

      full : leb info.total_packets (r.pending.received_packets + 1) ≡ true
      full = ground (arith, h.received)

      ready :
          Holds info bytes lost info.total_packets (group_count info.total_packets) stored.pending
      ready =
          subst (λ i. Holds info bytes lost i (group_count info.total_packets) stored.pending) last
            (subst (λ p. Holds info bytes lost (j + 1) p stored.pending)
              (group_count_last info.total_packets j small last)
              (with_parity-Holds r now small (omega arith) (inr last) h))

-- After the frame has been delivered, a parity packet is of no use.
pub step_parity_late :
    (info : FrameInfo) (j : ℕ) (payloads : List (List ℕ)) (r : Receiver) (now : ℕ)
    → r.pending.total_packets ≡ 0
    → reassemble_frame r now (parity_packet info j payloads) ≡ some (r, [])
unfolding reassemble_frame receive_parity
step_parity_late info j payloads r now idle =
    rw (parity_packet_marked info j payloads, idle) (ground arith)
