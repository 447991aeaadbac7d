-- ===== src/Session/FrameLoop.antt =====
-- Session.cpp: `WaitFrame`, `BeginFrame` and `EndFrame`.
use open_xr_osx.Base.{
  ℕ, ◌+◌, ◌-◌, ◌/◌, Bool, true, false, not, ◌&&◌, Option, none, some, List, [], ◌∷◌, ◌++◌, ltb,
  ◌==◌, if◌then◌else◌, take, ℤ, is_nonpositive, max,
}
use open_xr_osx.Protocol.{u32}
use open_xr_osx.Xr.{
  Result, success, frame_discarded, validation_failure, session_not_running, call_order_invalid,
  time_invalid, environment_blend_mode_unsupported, layer_limit_exceeded, layer_invalid, is_success,
  SessionState, ready, synchronized, visible, focused, stopping, StructureType, frame_wait_info,
  frame_state, frame_begin_info, frame_end_info,
}
use open_xr_osx.Layers.{
  Layer, Texture, TextureOp, hand_over, Owned, Eyes, no_eyes, release_eyes, validate_layers,
}
use open_xr_osx.Session.State.{Session, is_stopping, transition_state}

abbrev pub is_frame_loop_running : Session → Bool
is_frame_loop_running s = s.running && not (is_stopping s.state)

abbrev pub is_frame_wait_info : StructureType → Bool
is_frame_wait_info frame_wait_info = true
is_frame_wait_info t = false

abbrev pub is_frame_state : StructureType → Bool
is_frame_state frame_state = true
is_frame_state t = false

abbrev pub is_frame_begin_info : StructureType → Bool
is_frame_begin_info frame_begin_info = true
is_frame_begin_info t = false

abbrev pub is_frame_end_info : StructureType → Bool
is_frame_end_info frame_end_info = true
is_frame_end_info t = false

-- A pointer that may be null, with the `type` behind it: whether it is there and wrong.
abbrev pub wrong_if_given : (StructureType → Bool) → Option StructureType → Bool
wrong_if_given expected none = false
wrong_if_given expected (some t) = not (expected t)

-- A pointer that must not be null.
abbrev pub wrong_or_null : (StructureType → Bool) → Option StructureType → Bool
wrong_or_null expected none = true
wrong_or_null expected (some t) = not (expected t)

-- `XrFrameState`
pub record FrameState : Type 0 where
  pub predicted_display_time : ℕ
  pub predicted_display_period : ℕ
  pub should_render : Bool

-- `refresh_hz` is what the streaming server says, if there is one.
abbrev pub target_frame_time : ℕ → Session → ℕ
target_frame_time refresh_hz s =
    if s.streaming_server then 1000000000 / max refresh_hz 1 else 1000000000 / 90

-- `now` is the clock before, and `woken` after the thread has slept, which it does if it is early.
unfoldable pub wait_frame :
    Option StructureType
    → Option StructureType
    → ℕ
    → ℕ
    → ℕ
    → Session
    → Session × Result × Option FrameState
wait_frame info out refresh_hz now woken s =
    let period = target_frame_time refresh_hz s in
    let time = if ltb (now - s.last_frame_time) period then woken else now in
    if wrong_if_given is_frame_wait_info info
    then (s, validation_failure, none)
    else if wrong_or_null is_frame_state out
    then (s, validation_failure, none)
    else if not (is_frame_loop_running s)
    then (s, session_not_running, none)
    else (
      record s { last_frame_time = time; waited_frame_count = u32 (s.waited_frame_count + 1) },
      success,
      some (record {
        predicted_display_time = time;
        predicted_display_period = period;
        should_render = s.running && not s.exit_requested;
      }),
    )

unfoldable pub begin_frame : Option StructureType → Session → Session × Result
begin_frame info s =
    let counted = record s { waited_frame_count = s.waited_frame_count - 1 } in
    if wrong_if_given is_frame_begin_info info
    then (s, validation_failure)
    else if not (is_frame_loop_running s)
    then (s, session_not_running)
    else if s.waited_frame_count == 0
    then (s, call_order_invalid)
    else if s.frame_begun
    then (counted, frame_discarded)
    else (record counted { frame_begun = true }, success)

-- `XrFrameEndInfo`; `layers` is `none` where the pointer is null, and else has `layerCount` entries.
pub record FrameEndInfo : Type 0 where
  pub structure_type : StructureType
  pub display_time : ℤ
  pub opaque_blend_mode : Bool
  pub layer_count : ℕ
  pub layers : Option (List (Option Layer))

-- The checks before the layers; `max_layers` is `XR_MIN_COMPOSITION_LAYERS_SUPPORTED`.
unfoldable pub check_end_info : ℕ → FrameEndInfo → Result
check_end_info max_layers info =
    if not (is_frame_end_info info.structure_type)
    then validation_failure
    else if is_nonpositive info.display_time
    then time_invalid
    else if not info.opaque_blend_mode
    then environment_blend_mode_unsupported
    else if ltb max_layers info.layer_count
    then layer_limit_exceeded
    else success

-- `CheckStreamingConnection`
unfoldable pub check_streaming_connection : Bool → Session → Session
check_streaming_connection connected s =
    if not s.streaming_server
    then s
    else if connected && not s.tracking
    then record s { tracking = true }
    else if not connected && s.tracking
    then record s { tracking = false }
    else s

unfoldable pub hand_over_texture : Option Texture → List TextureOp
hand_over_texture none = []
hand_over_texture (some t) = hand_over t ∷ []

-- `AdvanceSessionStateAfterFrameSubmission`
unfoldable pub advance_exiting : SessionState → Session → Session
unfolding transition_state
advance_exiting focused s = transition_state visible s
advance_exiting visible s = transition_state synchronized s
advance_exiting ready s = transition_state synchronized s
advance_exiting synchronized s = transition_state stopping s
advance_exiting st s = s

unfoldable pub advance_starting : SessionState → Session → Session
unfolding transition_state
advance_starting ready s = transition_state synchronized s
advance_starting synchronized s = transition_state visible s
advance_starting visible s = transition_state focused s
advance_starting st s = s

unfoldable pub advance_session_state : Session → Session
unfolding advance_exiting advance_starting
advance_session_state s =
    if not s.running
    then s
    else if s.exit_requested
    then advance_exiting s.state s
    else advance_starting s.state s

-- The rest of `EndFrame` after the checks.
unfoldable pub submit_frame : Bool → Eyes → Session → Session × List TextureOp
submit_frame connected eyes s =
    let checked = check_streaming_connection connected s in
    (
      advance_session_state (record checked { frame_begun = false }),
      if checked.streaming_server && connected
          then hand_over_texture eyes.left ++ hand_over_texture eyes.right
          else release_eyes eyes,
    )

-- The layers of a frame whose other fields have passed.
unfoldable pub end_frame_layers :
    (ℕ → ℕ → Bool) → Bool → List (Option Layer) → Session → Session × Result × List TextureOp
end_frame_layers has_slice connected layers s =
    let owned : Owned = record {
      swapchains = s.swapchains;
      spaces = s.spaces;
      has_slice = has_slice;
    } in
    let c = validate_layers owned layers no_eyes in
    let (submitted, ops) = submit_frame connected c.eyes s in
    if is_success c.result then (submitted, success, c.ops ++ ops) else (s, c.result, c.ops)

-- `layerCount > 0 && layers == nullptr`, and the layers else.
unfoldable pub end_frame_given :
    (ℕ → ℕ → Bool)
    → Bool
    → ℕ
    → Option (List (Option Layer))
    → Session
    → Session × Result × List TextureOp
end_frame_given has_slice connected layer_count none s =
    if ltb 0 layer_count then (s, layer_invalid, []) else end_frame_layers has_slice connected [] s
end_frame_given has_slice connected layer_count (some layers) s =
    end_frame_layers has_slice connected (take layer_count layers) s

unfoldable pub end_frame_info :
    ℕ → (ℕ → ℕ → Bool) → Bool → Option FrameEndInfo → Session → Session × Result × List TextureOp
end_frame_info max_layers has_slice connected none s = (s, validation_failure, [])
end_frame_info max_layers has_slice connected (some info) s =
    if not (is_success (check_end_info max_layers info))
    then (s, check_end_info max_layers info, [])
    else end_frame_given has_slice connected info.layer_count info.layers s

unfoldable pub end_frame :
    ℕ → (ℕ → ℕ → Bool) → Bool → Option FrameEndInfo → Session → Session × Result × List TextureOp
end_frame max_layers has_slice connected info s =
    if not (is_frame_loop_running s)
    then (s, session_not_running, [])
    else if not s.frame_begun
    then (s, call_order_invalid, [])
    else end_frame_info max_layers has_slice connected info s
