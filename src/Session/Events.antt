-- ===== src/Session/Events.antt =====
-- Session.cpp, `TransitionState`: the events of a session, and the calls that cause them.
use open_xr_osx.Base.{ℕ, Bool, Option, List, [], ◌∷◌, ◌++◌, String}
use open_xr_osx.Xr.{
  SessionState, idle, ready, synchronized, visible, focused, stopping, exiting, StructureType,
}
use open_xr_osx.Swapchain.{Swapchain}
use open_xr_osx.Session.{
  Session, begin_session, end_session, request_exit_session, begin_label_region, end_label_region,
  insert_label, wait_frame, begin_frame, FrameEndInfo, end_frame, create_swapchain,
  destroy_swapchain, ReferenceSpaceType, create_reference_space, create_action_space, destroy_space,
}

-- The life of a session, as OpenXR has it: the state that may follow a state.
pub data Edge : SessionState → SessionState → Type 0 where
  becomes_ready : Edge idle ready
  begins : Edge ready synchronized
  appears : Edge synchronized visible
  gets_focus : Edge visible focused
  loses_focus : Edge focused visible
  disappears : Edge visible synchronized
  stops : Edge synchronized stopping
  ends : Edge stopping idle
  exits : Edge idle exiting

-- The events so far are a way through that graph from `idle` to the state.
pub data Trace : List SessionState → SessionState → Type 0 where
  start : Trace (idle ∷ []) idle
  next :
      {events : List SessionState} {a b : SessionState}
      → Trace events a
      → Edge a b
      → Trace (events ++ b ∷ []) b

-- A call of the application, with what else decides its result.
pub data Call : Type 0 where
  begin_session_call : Option Bool → Bool → Call
  end_session_call : Call
  request_exit_call : Call
  wait_frame_call : Option StructureType → Option StructureType → ℕ → ℕ → ℕ → Call
  begin_frame_call : Option StructureType → Call
  end_frame_call : ℕ → (ℕ → ℕ → Bool) → Bool → Option FrameEndInfo → Call
  begin_label_region_call : String → Call
  end_label_region_call : Call
  insert_label_call : String → Call
  create_swapchain_call : ℕ → Option Swapchain → Call
  destroy_swapchain_call : ℕ → Call
  create_reference_space_call : ℕ → Bool → Bool → Bool → ReferenceSpaceType → Call
  create_action_space_call : ℕ → Bool → Call
  destroy_space_call : ℕ → Call

unfoldable pub step : Call → Session → Session
step (begin_session_call info starts) s = (begin_session info starts s).0
step end_session_call s = (end_session s).0
step request_exit_call s = (request_exit_session s).0
step (wait_frame_call info out refresh_hz now woken) s =
    (wait_frame info out refresh_hz now woken s).0
step (begin_frame_call info) s = (begin_frame info s).0
step (end_frame_call max_layers has_slice connected info) s =
    (end_frame max_layers has_slice connected info s).0
step (begin_label_region_call name) s = begin_label_region name s
step end_label_region_call s = end_label_region s
step (insert_label_call name) s = insert_label name s
step (create_swapchain_call handle created) s = (create_swapchain handle created s).0
step (destroy_swapchain_call handle) s = (destroy_swapchain handle s).0
step (create_reference_space_call handle given valid_pose supports_local_floor space_type) s =
    (create_reference_space handle given valid_pose supports_local_floor space_type s).0
step (create_action_space_call handle given) s = (create_action_space handle given s).0
step (destroy_space_call handle) s = (destroy_space handle s).0

-- The calls one after the other.
unfoldable pub run : List Call → Session → Session
run [] s = s
run (c ∷ cs) s = run cs (step c s)
