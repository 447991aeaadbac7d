-- ===== src/Examples/Tracking.antt =====
-- The tracking receiver at a concrete input, with whole numbers for floating-point numbers.
use open_xr_osx.Base.{
  ℕ, ◌+◌, ◌-◌, ◌*◌, ◌/◌, pos, magnitude, ltb, leb, ◌≡◌, refl, true, some, List, [], ◌∷◌, replicate,
  get_or, if◌then◌else◌,
}
use open_xr_osx.Tracking.Packet.{Vec3, Quat, Glm, TrackingPacket}
use open_xr_osx.Tracking.Predict.{clamp}
use open_xr_osx.Tracking.State.{
  TrackingReceiver, inject_packet, receive_packet, get_latest_pose, get_predicted_pose, start,
  set_prediction_horizon_ms,
}
use open_xr_osx.Tracking.History.{
  Call, starts, receives, injects, sets_horizon, run, idle, Inv, run-idle-Inv,
}
use open_xr_osx.Tracking.Agreement.{
  IsOff, outside_poses, get_predicted_pose-get_latest_pose, outside_poses-get_predicted_pose,
}

abbrev add_vec : Vec3 ℕ → Vec3 ℕ → Vec3 ℕ
add_vec a b = record { x = a.x + b.x; y = a.y + b.y; z = a.z + b.z }

abbrev scale_vec : (ℕ → ℕ) → Vec3 ℕ → Vec3 ℕ
scale_vec f v = record { x = f v.x; y = f v.y; z = f v.z }

-- Literals are rounded down.
abbrev whole : Glm
whole = record {
  Float = ℕ;
  decimal = λ n k. if leb 1 k then 0 else n;
  time = magnitude;
  less = ltb;
  at_most = leb;
  minus = λ a b. a - b;
  times = λ a b. a * b;
  divided = λ a b. a / b;
  negated = λ a. 0;
  acos = λ a. a;
  sqrt = λ a. a;
  radians = λ a. a;
  plus_vec = add_vec;
  minus_vec = λ a b. record { x = a.x - b.x; y = a.y - b.y; z = a.z - b.z };
  times_vec = λ v k. scale_vec (λ a. a * k) v;
  divided_vec = λ v k. scale_vec (λ a. a / k) v;
  length_of = λ v. v.x + v.y + v.z;
  normalize_vec = λ v. v;
  normalize = λ q. q;
  dot = λ a b. a.x * b.x + a.y * b.y + a.z * b.z + a.w * b.w;
  negated_quat = λ q. q;
  inverse = λ q. q;
  times_quat = λ a b. b;
  angle_axis = λ angle axis. record { x = axis.x; y = axis.y; z = axis.z; w = angle };
}

abbrev none_vec : Vec3 ℕ
none_vec = record { x = 0; y = 0; z = 0 }

abbrev upright : Quat ℕ
upright = record { x = 0; y = 0; z = 0; w = 1 }

abbrev packet_at : ℕ → TrackingPacket ℕ
packet_at now = record {
  timestamp_ns = pos now;
  tracking_flags = 1;
  head_position = record { x = now; y = 2; z = 3 };
  head_orientation = upright;
  left_controller_pos = none_vec;
  left_controller_rot = upright;
  right_controller_pos = none_vec;
  right_controller_rot = upright;
  button_state = now;
  left_trigger = 0;
  right_trigger = 0;
  left_grip = 0;
  right_grip = 0;
  left_thumbstick = 0 ∷ 0 ∷ [];
  right_thumbstick = 0 ∷ 0 ∷ [];
  ipd = 0;
  eye_fov = 0 ∷ 0 ∷ 0 ∷ 0 ∷ [];
  head_linear_velocity = none_vec;
  head_angular_velocity = none_vec;
  left_hand_joints = [];
  right_hand_joints = [];
}

-- The first byte is the time.
abbrev read : List ℕ → TrackingPacket ℕ
read bytes = packet_at (get_or bytes 0 0)

abbrev arrivals : List (Call whole)
arrivals =
    starts (some 4) true
    ∷ receives (replicate 1008 7) (pos 10)
    ∷ injects (9 ∷ []) (pos 15)
    ∷ injects (replicate 1010 9) (pos 20)
    ∷ []

abbrev tracking : TrackingReceiver whole
tracking = record {
  socket = some 4;
  receive_thread = true;
  running = true;
  has_data = true;
  packet_count = 2;
  latest_packet = packet_at 9;
  history =
      record { packet = packet_at 7; receive_time_ns = pos 10 }
      ∷ record { packet = packet_at 9; receive_time_ns = pos 20 }
      ∷ [];
  prediction_horizon_ms = 0;
  last_prediction_diagnostic_ns = pos 0;
}

arrivals_lem : run whole read (idle whole (packet_at 0)) arrivals ≡ some tracking
unfolding run idle start receive_packet inject_packet replicate
arrivals_lem = refl

run-idle-Inv_example : Inv whole tracking
run-idle-Inv_example = run-idle-Inv whole read (packet_at 0) arrivals tracking arrivals_lem

tracking-IsOff : IsOff whole tracking
unfolding IsOff clamp
tracking-IsOff = refl

get_predicted_pose-get_latest_pose_example :
    get_predicted_pose whole tracking (pos 30) ≡ (get_latest_pose whole tracking, tracking)
get_predicted_pose-get_latest_pose_example =
    get_predicted_pose-get_latest_pose whole read (packet_at 0) arrivals tracking (pos 30)
      arrivals_lem tracking-IsOff

-- The same with a horizon of 20 ms.
abbrev predicting : TrackingReceiver whole
predicting = record tracking { prediction_horizon_ms = 20 }

abbrev arrivals_ahead : List (Call whole)
arrivals_ahead =
    sets_horizon 20
    ∷ starts (some 4) true
    ∷ receives (replicate 1008 7) (pos 10)
    ∷ injects (replicate 1010 9) (pos 20)
    ∷ []

arrivals_ahead_lem : run whole read (idle whole (packet_at 0)) arrivals_ahead ≡ some predicting
unfolding run idle start receive_packet inject_packet replicate set_prediction_horizon_ms
arrivals_ahead_lem = refl

outside_poses-get_predicted_pose_example :
    outside_poses whole (packet_at 0) (get_predicted_pose whole predicting (pos 30)).0
    ≡ outside_poses whole (packet_at 0) (get_latest_pose whole predicting)
outside_poses-get_predicted_pose_example =
    outside_poses-get_predicted_pose whole read (packet_at 0) arrivals_ahead predicting (pos 30)
      (packet_at 0) arrivals_ahead_lem
