-- ===== src/Tracking/Agreement.antt =====
-- runtime/src/TrackingReceiver.cpp, GetLatestPose and GetPredictedPose: what they have in common.
use open_xr_osx.Base.{
  ℕ, ◌≡◌, refl, ap, ◌∙◌, ℤ, Bool, true, false, Option, none, some, List, [], ◌∷◌, ◌++◌,
  if◌then◌else◌, inl, inr, ◌⊎◌,
}
use open_xr_osx.Tracking.Packet.{Glm, TrackingPacket}
use open_xr_osx.Tracking.Predict.{clamp}
use open_xr_osx.Tracking.State.{
  HistorySample, TrackingReceiver, get_latest_pose, last_two, predicted_packet, diagnosed,
  predicted_from, get_predicted_pose,
}
use open_xr_osx.Tracking.History.{
  Call, run, idle, IsCurrent, without_data, with_data, Inv, run-idle-Inv,
}

module _ (G : Glm) where
  open G use {Float, decimal, at_most}

  -- The packet with the three poses of another one.
  pub with_poses_of : TrackingPacket Float → TrackingPacket Float → TrackingPacket Float
  with_poses_of other p = record p {
    head_position = other.head_position;
    head_orientation = other.head_orientation;
    left_controller_pos = other.left_controller_pos;
    left_controller_rot = other.left_controller_rot;
    right_controller_pos = other.right_controller_pos;
    right_controller_rot = other.right_controller_rot;
  }

  pub outside_poses :
      TrackingPacket Float → Option (TrackingPacket Float) → Option (TrackingPacket Float)
  outside_poses other none = none
  outside_poses other (some p) = some (with_poses_of other p)

  -- The prediction is off: the horizon counts as zero.
  unfoldable pub IsOff : TrackingReceiver G → Type 0
  IsOff t =
      at_most (clamp G t.prediction_horizon_ms (decimal 0 0) (decimal 80 0)) (decimal 1 2) ≡ true

  last_two_lem :
      (before : List (HistorySample G)) (x : HistorySample G)
      → (o : Option (HistorySample G)) × (last_two G (before ++ (x ∷ [])) ≡ some (o, x))
  unfolding last_two
  last_two_lem [] x = (none, refl)
  last_two_lem (g ∷ []) x = (some g, refl)
  last_two_lem (f ∷ g ∷ []) x = (some g, refl)
  last_two_lem (f ∷ g ∷ h ∷ hs) x = last_two_lem (g ∷ h ∷ hs) x

  -- Either there is no data, or the prediction starts from the latest packet.
  Starts : TrackingReceiver G → ℤ → Type 0
  Starts t now =
      ((get_predicted_pose G t now ≡ (none, t)) × (get_latest_pose G t ≡ none))
      ⊎ ((o : Option (HistorySample G)) × (received : ℤ) × (get_predicted_pose G t now
            ≡ predicted_from G
                (some (o, record { packet = t.latest_packet; receive_time_ns = received })) t now)
          × (get_latest_pose G t ≡ some t.latest_packet))

  taken :
      (b : Bool) (r s : Option (TrackingPacket Float) × TrackingReceiver G)
      → b ≡ true
      → (if b then r else s) ≡ r
  taken b r s e = rw e refl

  starts_lem :
      (t : TrackingReceiver G) (now : ℤ)
      → IsCurrent G t.has_data t.latest_packet t.history
      → Starts t now
  unfolding get_predicted_pose get_latest_pose Starts
  starts_lem t now (without_data d e) = inl (rw d refl, rw d refl)
  starts_lem t now (with_data before received d e) =
      let found =
        last_two_lem before (record { packet = t.latest_packet; receive_time_ns = received }) in
      inr (
        found.0,
        received,
        taken _ _ _ d ∙ ap (λ o. predicted_from G o t now) (ap (last_two G) e ∙ found.1),
        rw d refl,
      )

  off_lem :
      (o : Option (HistorySample G)) (current : HistorySample G) (t : TrackingReceiver G) (now : ℤ)
      → IsOff t
      → predicted_from G (some (o, current)) t now ≡ (some current.packet, t)
  unfolding predicted_from IsOff
  off_lem none current t now off = refl
  off_lem (some previous) current t now off = taken _ _ _ off

  -- After any calls on a new object, while the horizon is at most 0.01 ms once it is clamped to 0 to
  -- 80 ms, GetPredictedPose gives what GetLatestPose gives and changes nothing.
  pub get_predicted_pose-get_latest_pose :
      (read : List ℕ → TrackingPacket Float) (zeros : TrackingPacket Float) (cs : List (Call G))
      (t : TrackingReceiver G) (now : ℤ)
      → run G read (idle G zeros) cs ≡ some t
      → IsOff t
      → get_predicted_pose G t now ≡ (get_latest_pose G t, t)
  unfolding Starts
  get_predicted_pose-get_latest_pose read zeros cs t now e off =
      elim (starts_lem t now (unfold Inv in (run-idle-Inv G read zeros cs t e).1)) [
        | inl (p, l) ↦ rw l p
        | inr (o, received, p, l) ↦ rw l (p ∙ off_lem o _ t now off)
      ]

  outside_if :
      (b : Bool) (other p q : TrackingPacket Float) (t t' : TrackingReceiver G)
      → with_poses_of other q ≡ with_poses_of other p
      → outside_poses other
          (if◌then◌else◌ {A = Option (TrackingPacket Float) × TrackingReceiver G} b
            (some p, t)
            (some q, t')).0
        ≡ some (with_poses_of other p)
  unfolding outside_poses
  outside_if true other p q t t' e = refl
  outside_if false other p q t t' e = ap some e

  outside_lem :
      (o : Option (HistorySample G)) (current : HistorySample G) (t : TrackingReceiver G) (now : ℤ)
      (other : TrackingPacket Float)
      → outside_poses other (predicted_from G (some (o, current)) t now).0
        ≡ some (with_poses_of other current.packet)
  unfolding predicted_from outside_poses
  outside_lem none current t now other = refl
  outside_lem (some previous) current t now other =
      outside_if _ other current.packet
        (predicted_packet G previous current
          (clamp G t.prediction_horizon_ms (decimal 0 0) (decimal 80 0)))
        t (diagnosed G t now) (unfold predicted_packet with_poses_of in refl)

  -- After any calls on a new object, GetPredictedPose gives a packet exactly if GetLatestPose does,
  -- and then the two packets differ at most in the poses of the head and the two controllers.
  pub outside_poses-get_predicted_pose :
      (read : List ℕ → TrackingPacket Float) (zeros : TrackingPacket Float) (cs : List (Call G))
      (t : TrackingReceiver G) (now : ℤ) (other : TrackingPacket Float)
      → run G read (idle G zeros) cs ≡ some t
      → outside_poses other (get_predicted_pose G t now).0
        ≡ outside_poses other (get_latest_pose G t)
  unfolding Starts
  outside_poses-get_predicted_pose read zeros cs t now other e =
      elim (starts_lem t now (unfold Inv in (run-idle-Inv G read zeros cs t e).1)) [
        | inl (p, l) ↦ rw (l, p) refl
        | inr (o, received, p, l) ↦ rw (l, p) (unfold outside_poses in outside_lem o _ t now other)
      ]
