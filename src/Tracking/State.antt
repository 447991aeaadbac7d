-- ===== src/Tracking/State.antt =====
-- runtime/src/TrackingReceiver.h and TrackingReceiver.cpp: the class TrackingReceiver. What the
-- sockets, the clock and the network do is in the arguments of each operation; times are int64_t.
use open_xr_osx.Base.{
  ℕ, suc, ◌+◌, ◌-◌, ◌%◌, ◌^◌, ℤ, pos, negsuc, is_nonpositive, Bool, true, false, not, Option, none,
  some, List, [], ◌∷◌, ◌++◌, if◌then◌else◌, length, take, ltb, leb,
}
use open_xr_osx.Tracking.Packet.{Vec3, Quat, Glm, TrackingPacket, packet_size}
use open_xr_osx.Tracking.Predict.{
  clamp, max_of, canonicalize_quat, predict_position, predict_orientation_from_velocity,
  predict_orientation,
}

-- A difference of two times.
abbrev pub since : ℤ → ℤ → ℤ
since (pos a) (pos b) = if leb b a then pos (a - b) else negsuc (b - a - 1)
since (pos a) (negsuc b) = pos (a + b + 1)
since (negsuc a) (pos b) = negsuc (a + b)
since (negsuc a) (negsuc b) = if leb a b then pos (b - a) else negsuc (a - b - 1)

-- `5LL * 1000LL * 1000LL * 1000LL <= z`
abbrev pub is_five_seconds : ℤ → Bool
is_five_seconds (pos n) = leb 5000000000 n
is_five_seconds (negsuc n) = false

-- `MaxHistorySamples`
abbrev pub max_history_samples : ℕ
max_history_samples = 8

module _ (G : Glm) where
  open G use {Float, decimal, time, less, at_most, times, divided, radians, length_of, normalize}

  pub record HistorySample : Type 0 where
    pub packet : TrackingPacket Float
    pub receive_time_ns : ℤ

  -- `history` has the oldest sample first; `receive_thread` is whether the thread is joinable.
  pub record TrackingReceiver : Type 0 where
    pub socket : Option ℕ
    pub receive_thread : Bool
    pub running : Bool
    pub has_data : Bool
    pub packet_count : ℕ
    pub latest_packet : TrackingPacket Float
    pub history : List HistorySample
    pub prediction_horizon_ms : Float
    pub last_prediction_diagnostic_ns : ℤ

  -- `socket` and `bind` give a descriptor and success. A thread is assigned over a joinable one
  -- only by ending the process, which is `none`.
  unfoldable pub start : TrackingReceiver → Option ℕ → Bool → Option (Bool × TrackingReceiver)
  start t none bound = some (false, record t { socket = none })
  start t (some fd) false = some (false, record t { socket = none })
  start t (some fd) true =
      if t.receive_thread
      then none
      else some (true, record t { socket = some fd; running = true; receive_thread = true })

  unfoldable pub stop : TrackingReceiver → TrackingReceiver
  stop t = record t { running = false; socket = none; receive_thread = false }

  -- `while (history_.size() > MaxHistorySamples) history_.pop_front();`
  unfoldable pub trim_history : List HistorySample → List HistorySample
  trim_history [] = []
  trim_history (h ∷ hs) =
      let rest = trim_history hs in
      if ltb max_history_samples (suc (length hs)) then rest else h ∷ hs

  unfoldable pub load_quat : Quat Float → Quat Float
  load_quat src = normalize src

  -- What `StoreQuat` leaves.
  unfoldable pub stored_quat : Quat Float → Quat Float
  stored_quat quat = normalize quat

  unfoldable pub reference_of : TrackingReceiver → Quat Float → Option (Quat Float)
  unfolding load_quat
  reference_of t quat = if t.has_data then some (load_quat quat) else none

  unfoldable pub normalized_packet : TrackingReceiver → TrackingPacket Float → TrackingPacket Float
  unfolding reference_of load_quat stored_quat canonicalize_quat
  normalized_packet t packet =
      let canonical : Quat Float → Quat Float → Quat Float =
        λ quat latest. stored_quat (canonicalize_quat G (load_quat quat) (reference_of t latest)) in
      record packet {
        head_orientation = canonical packet.head_orientation t.latest_packet.head_orientation;
        left_controller_rot =
            canonical packet.left_controller_rot t.latest_packet.left_controller_rot;
        right_controller_rot =
            canonical packet.right_controller_rot t.latest_packet.right_controller_rot;
      }

  unfoldable pub store_packet : TrackingReceiver → TrackingPacket Float → ℤ → TrackingReceiver
  unfolding normalized_packet trim_history
  store_packet t packet receive_time_ns =
      let normalized = normalized_packet t packet in
      let sample : HistorySample = record {
        packet = normalized;
        receive_time_ns = receive_time_ns;
      } in
      record t {
        latest_packet = normalized;
        history = trim_history (t.history ++ (sample ∷ []));
        has_data = true;
        packet_count = (t.packet_count + 1) % 2 ^ 64;
      }

  -- `memcpy` of the bytes into a packet is `read`.
  unfoldable pub inject_packet :
      (List ℕ → TrackingPacket Float) → TrackingReceiver → List ℕ → ℤ → TrackingReceiver
  unfolding store_packet
  inject_packet read t bytes now =
      if ltb (length bytes) packet_size
      then t
      else store_packet t (read (take packet_size bytes)) now

  -- One round of `ReceiveThread`, with the datagram that has arrived; `recv` cuts it to the buffer.
  unfoldable pub receive_packet :
      (List ℕ → TrackingPacket Float) → TrackingReceiver → List ℕ → ℤ → TrackingReceiver
  unfolding store_packet
  receive_packet read t datagram now =
      let buffer = take packet_size datagram in
      if not t.running
      then t
      else if ltb (length buffer) packet_size
      then t
      else store_packet t (read buffer) now

  unfoldable pub get_latest_pose : TrackingReceiver → Option (TrackingPacket Float)
  get_latest_pose t = if t.has_data then some t.latest_packet else none

  unfoldable pub set_prediction_horizon_ms : TrackingReceiver → Float → TrackingReceiver
  unfolding max_of
  set_prediction_horizon_ms t prediction_horizon_ms = record t {
    prediction_horizon_ms = max_of G prediction_horizon_ms (decimal 0 0);
  }

  -- `history_[history_.size() - 2]` and `history_.back()`
  unfoldable pub last_two : List HistorySample → Option (Option HistorySample × HistorySample)
  last_two [] = none
  last_two (h ∷ []) = some (none, h)
  last_two (g ∷ h ∷ []) = some (some g, h)
  last_two (f ∷ g ∷ h ∷ hs) = last_two (g ∷ h ∷ hs)

  -- Both differences are those of integers; where one does not fit in an `int64_t`, which needs
  -- stamps more than 292 years apart, the source has none.
  unfoldable pub packet_delta_ns : HistorySample → HistorySample → ℤ
  packet_delta_ns previous current =
      let delta = since current.packet.timestamp_ns previous.packet.timestamp_ns in
      if is_nonpositive delta then since current.receive_time_ns previous.receive_time_ns else delta

  -- The packet that is predicted from two samples over `horizon_ms`.
  unfoldable pub predicted_packet : HistorySample → HistorySample → Float → TrackingPacket Float
  unfolding packet_delta_ns load_quat stored_quat predict_position predict_orientation_from_velocity
      predict_orientation
  predicted_packet previous current horizon_ms =
      let p = previous.packet in
      let c = current.packet in
      let dt_seconds = divided (time (packet_delta_ns previous current)) (decimal 1000000000 0) in
      let head_lin_vel = c.head_linear_velocity in
      let head_ang_vel = c.head_angular_velocity in
      let has_head_angular_velocity = less (decimal 1 3) (length_of head_ang_vel) in
      let total_horizon = divided horizon_ms (decimal 1000 0) in
      let half_horizon = times total_horizon (decimal 5 1) in
      let still : Vec3 Float = record { x = decimal 0 0; y = decimal 0 0; z = decimal 0 0 } in
      let turned : Quat Float → Quat Float → Quat Float = λ before after. stored_quat (
        predict_orientation G (load_quat before) (load_quat after) dt_seconds total_horizon
          (radians (decimal 45 0))) in
      record c {
        head_position =
            predict_position G p.head_position c.head_position dt_seconds half_horizon (decimal 3 0)
              head_lin_vel;
        head_orientation =
            if has_head_angular_velocity
            then stored_quat (
                predict_orientation_from_velocity G (load_quat c.head_orientation) head_ang_vel
                  total_horizon (radians (decimal 35 0)))
            else stored_quat (
                predict_orientation G (load_quat p.head_orientation) (load_quat c.head_orientation)
                  dt_seconds half_horizon (radians (decimal 35 0)));
        left_controller_pos =
            predict_position G p.left_controller_pos c.left_controller_pos dt_seconds half_horizon
              (decimal 6 0) still;
        left_controller_rot = turned p.left_controller_rot c.left_controller_rot;
        right_controller_pos =
            predict_position G p.right_controller_pos c.right_controller_pos dt_seconds half_horizon
              (decimal 6 0) still;
        right_controller_rot = turned p.right_controller_rot c.right_controller_rot;
      }

  -- The call reads the clock `now` and notes when it wrote to the log.
  unfoldable pub diagnosed : TrackingReceiver → ℤ → TrackingReceiver
  diagnosed t now =
      if is_five_seconds (since now t.last_prediction_diagnostic_ns)
      then record t { last_prediction_diagnostic_ns = now }
      else t

  -- From the newest samples: the last one, and the one before it, if there is one.
  unfoldable pub predicted_from :
      Option (Option HistorySample × HistorySample)
      → TrackingReceiver
      → ℤ
      → Option (TrackingPacket Float) × TrackingReceiver
  unfolding clamp predicted_packet diagnosed
  predicted_from none t now = (none, t)
  predicted_from (some (none, current)) t now = (some current.packet, t)
  predicted_from (some (some previous, current)) t now =
      let horizon_ms = clamp G t.prediction_horizon_ms (decimal 0 0) (decimal 80 0) in
      if at_most horizon_ms (decimal 1 2)
      then (some current.packet, t)
      else (some (predicted_packet previous current horizon_ms), diagnosed t now)

  unfoldable pub get_predicted_pose :
      TrackingReceiver → ℤ → Option (TrackingPacket Float) × TrackingReceiver
  unfolding last_two predicted_from
  get_predicted_pose t now =
      if t.has_data then predicted_from (last_two t.history) t now else (none, t)
