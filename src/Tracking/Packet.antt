-- ===== src/Tracking/Packet.antt =====
-- clients/common/src/Protocol.h: the struct TrackingPacket; and what
-- runtime/src/TrackingReceiver.cpp uses of floating-point arithmetic and of glm, which are the
-- operations of `Glm`.
use open_xr_osx.Base.{ℕ, ℤ, Bool, List}

-- float[3], and glm::vec3
pub record Vec3 (Float : Type 0) : Type 0 where
  pub x : Float
  pub y : Float
  pub z : Float

-- float[4], and glm::quat
pub record Quat (Float : Type 0) : Type 0 where
  pub x : Float
  pub y : Float
  pub z : Float
  pub w : Float

-- `decimal n k` is the literal n / 10^k, `time` the conversion from int64_t.
pub record Glm : Type 1 where
  pub Float : Type 0
  pub decimal : ℕ → ℕ → Float
  pub time : ℤ → Float
  pub less : Float → Float → Bool
  pub at_most : Float → Float → Bool
  pub minus : Float → Float → Float
  pub times : Float → Float → Float
  pub divided : Float → Float → Float
  pub negated : Float → Float
  pub acos : Float → Float
  pub sqrt : Float → Float
  pub radians : Float → Float
  pub plus_vec : Vec3 Float → Vec3 Float → Vec3 Float
  pub minus_vec : Vec3 Float → Vec3 Float → Vec3 Float
  pub times_vec : Vec3 Float → Float → Vec3 Float
  pub divided_vec : Vec3 Float → Float → Vec3 Float
  pub length_of : Vec3 Float → Float
  pub normalize_vec : Vec3 Float → Vec3 Float
  pub normalize : Quat Float → Quat Float
  pub dot : Quat Float → Quat Float → Float
  pub negated_quat : Quat Float → Quat Float
  pub inverse : Quat Float → Quat Float
  pub times_quat : Quat Float → Quat Float → Quat Float
  pub angle_axis : Float → Vec3 Float → Quat Float

pub record TrackingPacket (Float : Type 0) : Type 0 where
  pub timestamp_ns : ℤ
  pub tracking_flags : ℕ
  pub head_position : Vec3 Float
  pub head_orientation : Quat Float
  pub left_controller_pos : Vec3 Float
  pub left_controller_rot : Quat Float
  pub right_controller_pos : Vec3 Float
  pub right_controller_rot : Quat Float
  pub button_state : ℕ
  pub left_trigger : Float
  pub right_trigger : Float
  pub left_grip : Float
  pub right_grip : Float
  pub left_thumbstick : List Float
  pub right_thumbstick : List Float
  pub ipd : Float
  pub eye_fov : List Float
  pub head_linear_velocity : Vec3 Float
  pub head_angular_velocity : Vec3 Float
  pub left_hand_joints : List (List Float)
  pub right_hand_joints : List (List Float)

-- `sizeof(oxr::protocol::TrackingPacket)`, with HAND_JOINT_COUNT = 26
abbrev pub packet_size : ℕ
packet_size = 1008
