-- ===== src/Session/State.antt =====
-- Session.cpp: the state of a session, and how it begins and ends.
use open_xr_osx.Base.{
  ℕ, Bool, true, false, not, Option, none, some, List, [], ◌∷◌, ◌++◌, if◌then◌else◌, String,
}
use open_xr_osx.Xr.{
  Result, success, validation_failure, session_running, session_not_running, session_not_ready,
  session_not_stopping, view_configuration_type_unsupported, SessionState, idle, ready, stopping,
  exiting,
}
use open_xr_osx.Swapchain.{Swapchain}

pub record Session : Type 0 where
  pub state : SessionState
  pub running : Bool
  pub exit_requested : Bool
  pub frame_begun : Bool
  pub waited_frame_count : ℕ  -- uint32
  pub streaming_server : Bool  -- that there is one
  pub streaming_started : Bool
  pub tracking : Bool  -- that the input manager has a tracking receiver
  pub last_frame_time : ℕ
  pub swapchains : List (ℕ × Swapchain)
  pub spaces : List ℕ
  pub label_regions : List String
  pub inserted_label : Option String
  pub events : List SessionState

unfoldable pub transition_state : SessionState → Session → Session
transition_state new_state s = record s { state = new_state; events = s.events ++ new_state ∷ [] }

-- The constructors, one for each graphics API: they do the same here.
unfoldable pub create : Session
unfolding transition_state
create = transition_state ready (
    transition_state idle (record {
      state = idle;
      running = false;
      exit_requested = false;
      frame_begun = false;
      waited_frame_count = 0;
      streaming_server = false;
      streaming_started = false;
      tracking = false;
      last_frame_time = 0;
      swapchains = [];
      spaces = [];
      label_regions = [];
      inserted_label = none;
      events = [];
    }))

abbrev pub is_ready : SessionState → Bool
is_ready ready = true
is_ready st = false

abbrev pub is_stopping : SessionState → Bool
is_stopping stopping = true
is_stopping st = false

-- `StartStreamingIfNeeded`
unfoldable pub start_streaming_if_needed : Bool → Session → Session
start_streaming_if_needed starts s =
    if s.streaming_started
    then s
    else if starts
    then record s { streaming_server = true; streaming_started = true }
    else record s { streaming_server = false }

-- `begin_info` is `none` where it is null, and else whether the instance supports its view
-- configuration.
unfoldable pub begin_running : Bool → Bool → Session → Session × Result
unfolding start_streaming_if_needed
begin_running supported starts s =
    if s.running
    then (s, session_running)
    else if not (is_ready s.state)
    then (s, session_not_ready)
    else if not supported
    then (s, view_configuration_type_unsupported)
    else (
      start_streaming_if_needed starts (record s {
        exit_requested = false;
        frame_begun = false;
        waited_frame_count = 0;
        running = true;
      }),
      success,
    )

unfoldable pub begin_session : Option Bool → Bool → Session → Session × Result
begin_session none starts s = (s, validation_failure)
begin_session (some supported) starts s = begin_running supported starts s

-- `if (streamingServer_) ...`, in `EndSession`
unfoldable pub stop_streaming : Session → Session
stop_streaming s =
    if s.streaming_server
    then record s { streaming_server = false; streaming_started = false; tracking = false }
    else s

unfoldable pub end_session : Session → Session × Result
unfolding transition_state stop_streaming
end_session s =
    if not (is_stopping s.state)
    then (s, session_not_stopping)
    else let stopped = stop_streaming (record s { running = false }) in
      let ended =
        transition_state exiting (
          transition_state idle (record stopped { frame_begun = false; waited_frame_count = 0 })) in
      (record ended { exit_requested = false }, success)

unfoldable pub request_exit_session : Session → Session × Result
request_exit_session s =
    if not s.running
    then (s, session_not_running)
    else (record s { exit_requested = true }, success)

-- No event announces this change of the state.
unfoldable pub shutdown : Session → Session
shutdown s = record s {
  running = false;
  exit_requested = true;
  state = idle;
  frame_begun = false;
  waited_frame_count = 0;
  tracking = false;
  streaming_server = false;
  streaming_started = if s.streaming_server then false else s.streaming_started;
  spaces = [];
  swapchains = [];
}
