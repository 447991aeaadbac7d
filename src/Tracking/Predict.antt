-- ===== src/Tracking/Predict.antt =====
-- runtime/src/TrackingReceiver.cpp: the prediction of a position or an orientation.
use open_xr_osx.Base.{◌&&◌, ◌||◌, Option, none, some, if◌then◌else◌}
use open_xr_osx.Tracking.Packet.{Vec3, Quat, Glm}

module _ (G : Glm) where
  open G use {
    Float, decimal, less, at_most, minus, times, divided, negated, acos, sqrt, plus_vec, minus_vec,
    times_vec, divided_vec, length_of, normalize_vec, normalize, dot, negated_quat, inverse,
    times_quat, angle_axis,
  }

  -- `std::clamp`
  unfoldable pub clamp : Float → Float → Float → Float
  clamp v lo hi = if less v lo then lo else if less hi v then hi else v

  -- `std::max`
  unfoldable pub max_of : Float → Float → Float
  max_of a b = if less a b then b else a

  unfoldable pub canonicalize_quat : Quat Float → Option (Quat Float) → Quat Float
  canonicalize_quat quat none = normalize quat
  canonicalize_quat quat (some reference) =
      let normalized = normalize quat in
      if less (dot normalized reference) (decimal 0 0) then negated_quat normalized else normalized

  unfoldable pub limited : Vec3 Float → Float → Vec3 Float
  limited velocity max_speed =
      let speed = length_of velocity in
      if less max_speed speed && less (decimal 0 0) speed
      then times_vec velocity (divided max_speed speed)
      else velocity

  unfoldable pub predict_position :
      (previous current : Vec3 Float) (dt_seconds horizon_seconds max_speed : Float)
      (reported_velocity : Vec3 Float)
      → Vec3 Float
  unfolding limited
  predict_position previous current dt_seconds horizon_seconds max_speed reported_velocity =
      let moved : Vec3 Float → Vec3 Float =
        λ velocity. plus_vec current (times_vec (limited velocity max_speed) horizon_seconds) in
      if at_most horizon_seconds (decimal 0 0)
      then current
      else if less (decimal 1 3) (length_of reported_velocity)
      then moved reported_velocity
      else if less (decimal 1 4) dt_seconds
      then moved (divided_vec (minus_vec current previous) dt_seconds)
      else current

  unfoldable pub predict_orientation_from_velocity :
      (current : Quat Float) (angular_velocity : Vec3 Float) (horizon_seconds max_radians : Float)
      → Quat Float
  unfolding clamp
  predict_orientation_from_velocity current angular_velocity horizon_seconds max_radians =
      let ang_speed = length_of angular_velocity in
      let axis = divided_vec angular_velocity ang_speed in
      let angle = clamp (times ang_speed horizon_seconds) (negated max_radians) max_radians in
      if at_most horizon_seconds (decimal 0 0)
      then current
      else if less ang_speed (decimal 1 3)
      then current
      else normalize (times_quat (angle_axis angle axis) current)

  -- The turn from `cur` on, by the turn `delta` in `dt_seconds`.
  unfoldable pub extrapolated :
      (cur delta : Quat Float) (dt_seconds horizon_seconds max_radians : Float) → Quat Float
  unfolding clamp max_of
  extrapolated cur delta dt_seconds horizon_seconds max_radians =
      let cos_half_angle = clamp delta.w (negated (decimal 1 0)) (decimal 1 0) in
      let half_angle = acos cos_half_angle in
      let sin_half_angle =
        sqrt (max_of (decimal 0 0) (minus (decimal 1 0) (times cos_half_angle cos_half_angle))) in
      let axis = divided_vec (record { x = delta.x; y = delta.y; z = delta.z }) sin_half_angle in
      let angle = times half_angle (decimal 2 0) in
      let extrapolated_angle =
        clamp (times angle (divided horizon_seconds dt_seconds)) (negated max_radians)
          max_radians in
      if less sin_half_angle (decimal 1 4) || less half_angle (decimal 1 4)
      then cur
      else normalize (times_quat (angle_axis extrapolated_angle (normalize_vec axis)) cur)

  unfoldable pub predict_orientation :
      (previous current : Quat Float) (dt_seconds horizon_seconds max_radians : Float) → Quat Float
  unfolding extrapolated
  predict_orientation previous current dt_seconds horizon_seconds max_radians =
      let cur = normalize current in
      let prev =
        if less (dot (normalize previous) cur) (decimal 0 0)
        then negated_quat (normalize previous)
        else normalize previous in
      if at_most dt_seconds (decimal 1 4) || at_most horizon_seconds (decimal 0 0)
      then current
      else extrapolated cur (normalize (times_quat cur (inverse prev))) dt_seconds horizon_seconds
          max_radians
