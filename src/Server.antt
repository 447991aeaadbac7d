-- ===== src/Server.antt =====
-- runtime/src/StreamingServer.cpp: the frame that waits for the encoder (`SendFrame`,
-- `ReleasePendingFrame` and the head of `EncodeThread`), and the adaptive bitrate
-- (`HandleLatencyReport`, `HandleKeyframeRequest`). The comparisons of the smoothed latency with its
-- bounds are arguments, as is whether a client is connected and the encoder is there.
pub mod Bitrate
pub mod Conservation
use open_xr_osx.Base.{
  ℕ, zero, suc, ◌+◌, ◌-◌, ◌*◌, ◌/◌, ◌%◌, ◌^◌, Bool, true, false, not, ◌&&◌, ◌||◌, Option, none,
  some, List, [], ◌∷◌, ◌++◌, ltb, leb, ◌==◌, if◌then◌else◌, min, max,
}
use open_xr_osx.Protocol.{u32}
use open_xr_osx.Layers.{Texture, release_texture, TextureOp}

-- The state of the adaptive bitrate.
pub record Abr : Type 0 where
  pub config_max_bitrate_mbps : ℕ  -- uint32
  pub current_bitrate_mbps : ℕ  -- uint32
  pub last_bitrate_increase_time_ns : ℕ
  pub last_keyframe_request_count : ℕ  -- uint32
  pub request_keyframe_count : ℕ  -- uint32

abbrev pub min_bitrate_mbps : ℕ
min_bitrate_mbps = 10

abbrev pub increase_interval_ns : ℕ
increase_interval_ns = 5 * 1000000000

-- A connection begins: `max_bitrate_mbps` is what the client says, and 0 for no limit.
unfoldable pub connect_abr : (config_bitrate max_bitrate_mbps now : ℕ) → Abr → Abr
connect_abr config_bitrate max_bitrate_mbps now s =
    let bitrate =
      if ltb 0 max_bitrate_mbps then min config_bitrate max_bitrate_mbps else config_bitrate in
    record s {
      config_max_bitrate_mbps = bitrate;
      current_bitrate_mbps = bitrate;
      last_bitrate_increase_time_ns = now;
      last_keyframe_request_count = 0;
    }

unfoldable pub handle_keyframe_request : Abr → Abr
handle_keyframe_request s = record s { request_keyframe_count = u32 (s.request_keyframe_count + 1) }

-- `requestKeyframeCount_.exchange(0)`, when the telemetry of `EncodeThread` is written to the log.
unfoldable pub log_telemetry : Abr → Abr
log_telemetry s = record s { request_keyframe_count = 0 }

-- `requestKeyframeCount - lastKeyframeRequestCountForAbr_`, in uint32
abbrev pub new_keyframe_requests : Abr → ℕ
new_keyframe_requests s = u32 (s.request_keyframe_count + 2 ^ 32 - s.last_keyframe_request_count)

-- `is_high` is that the smoothed latency is above 45 ms, and `is_good` that it is below 30 ms.
abbrev pub should_decrease : Bool → Abr → Bool
should_decrease is_high s = is_high || ltb 0 (new_keyframe_requests s)

abbrev pub can_increase : Bool → ℕ → Abr → Bool
can_increase is_good now s =
    is_good
    && ((new_keyframe_requests s == 0)
        && (leb increase_interval_ns (now - s.last_bitrate_increase_time_ns)
            && ltb s.current_bitrate_mbps s.config_max_bitrate_mbps))

-- The part of `HandleLatencyReport` that adapts the bitrate.
unfoldable pub handle_latency_report : Bool → Bool → ℕ → Abr → Abr
handle_latency_report is_high is_good now s =
    let counted = record s { last_keyframe_request_count = s.request_keyframe_count } in
    let current = s.current_bitrate_mbps in
    if should_decrease is_high s && ltb min_bitrate_mbps current
    then record counted { current_bitrate_mbps = max (u32 (current * 9) / 10) min_bitrate_mbps }
    else if can_increase is_good now s
    then record counted {
      current_bitrate_mbps = min (u32 (current + current / 20)) s.config_max_bitrate_mbps;
      last_bitrate_increase_time_ns = now;
    }
    else counted

-- A frame on its way to the encoder; `pose` is `none` where `hasPose` is false.
pub record QueuedFrame : Type 0 where
  pub left_texture : Texture
  pub right_texture : Texture
  pub frame_index : ℕ  -- uint32
  pub timestamp_ns : ℕ
  pub pose : Option ℕ

-- `pending` is `pendingFrame_`, and `none` where `pendingFrame_.valid` is false; `encoding` is the
-- variable `frame` of `EncodeThread` from when it is taken to when it is released.
pub record FrameQueue : Type 0 where
  pub pending : Option QueuedFrame
  pub encoding : Option QueuedFrame
  pub frame_index : ℕ  -- uint32
  pub replaced_frame_count : ℕ  -- uint32

unfoldable pub release_pending_frame : Option QueuedFrame → List TextureOp
release_pending_frame none = []
release_pending_frame (some f) =
    release_texture (some f.left_texture) ++ release_texture (some f.right_texture)

-- The pose of the replaced frame stays where none is predicted.
unfoldable pub pose_of : Option ℕ → Option QueuedFrame → Option ℕ
pose_of (some p) replaced = some p
pose_of none none = none
pose_of none (some f) = f.pose

unfoldable pub count_replaced : Option QueuedFrame → ℕ → ℕ
count_replaced none n = n
count_replaced (some f) n = u32 (n + 1)

-- `SendFrame` with both textures, a client and an encoder.
unfoldable pub enqueue : Texture → Texture → ℕ → Option ℕ → FrameQueue → FrameQueue × List TextureOp
enqueue left right now pose q = (
  record q {
    pending = some (record {
      left_texture = left;
      right_texture = right;
      frame_index = q.frame_index;
      timestamp_ns = now;
      pose = pose_of pose q.pending;
    });
    frame_index = u32 (q.frame_index + 1);
    replaced_frame_count = count_replaced q.pending q.replaced_frame_count;
  },
  release_pending_frame q.pending,
)

unfoldable pub send_frame :
    Option Texture → Option Texture → Bool → ℕ → Option ℕ → FrameQueue → FrameQueue × List TextureOp
send_frame none right is_ready now pose q = (q, release_texture none ++ release_texture right)
send_frame (some l) none is_ready now pose q = (q, release_texture (some l) ++ release_texture none)
send_frame (some l) (some r) is_ready now pose q =
    if not is_ready
    then (q, release_texture (some l) ++ release_texture (some r))
    else enqueue l r now pose q

-- `frame = pendingFrame_; pendingFrame_ = {}`, once the thread is through with the frame before.
unfoldable pub take_frame : FrameQueue → FrameQueue
take_frame q = record q { pending = none; encoding = q.pending }

-- The thread is through with its frame, be it encoded or not: without an encoder, the release comes
-- before the next round, with one, behind the call of `EncodeStereo`.
unfoldable pub finish_frame : FrameQueue → FrameQueue × List TextureOp
finish_frame q = (record q { encoding = none }, release_pending_frame q.encoding)

-- What `HandleClientDisconnect` and `Stop` do to the frame.
unfoldable pub drop_pending : FrameQueue → FrameQueue × List TextureOp
drop_pending q = (record q { pending = none }, release_pending_frame q.pending)
