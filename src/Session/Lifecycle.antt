-- ===== src/Session/Lifecycle.antt =====
-- Session.cpp: any sequence of calls of the application.
use open_xr_osx.Base.{
  ℕ, refl, Bool, false, not, Option, none, some, List, [], ◌∷◌, if-elim, ltb, take,
}
use open_xr_osx.Xr.{Result, is_success}
use open_xr_osx.Swapchain.{Swapchain}
use open_xr_osx.Layers.{Layer, TextureOp, Eyes, no_eyes, validate_layers}
use open_xr_osx.Session.{
  Session, create, begin_label_region, end_label_region, insert_label, FrameEndInfo,
  is_frame_loop_running, check_streaming_connection, submit_frame, check_end_info, end_frame_layers,
  end_frame_given, end_frame_info, end_frame, create_swapchain, keep_swapchains, erase,
  destroy_swapchain, ReferenceSpaceType, is_space_supported, create_reference_space,
  create_action_space, erase_space, keep_spaces, destroy_space,
}
use open_xr_osx.Session.Events.{
  Call, begin_session_call, end_session_call, request_exit_call, wait_frame_call, begin_frame_call,
  end_frame_call, begin_label_region_call, end_label_region_call, insert_label_call,
  create_swapchain_call, destroy_swapchain_call, create_reference_space_call,
  create_action_space_call, destroy_space_call, step, run,
}
use open_xr_osx.Session.Invariant.{Inv, create-Inv, advance_session_state-Inv}
use open_xr_osx.Session.Operations.{
  begin_session-Inv, end_session-Inv, request_exit_session-Inv, wait_frame-Inv, begin_frame-Inv,
  check_streaming_connection-Inv,
}

abbrev AfterInv : Session × Result × List TextureOp → Type 0
AfterInv r = Inv r.0

frame_over : (s : Session) → Inv s → Inv (record s { frame_begun = false })
frame_over s h = record {
  trace = h.trace;
  live = h.live;
  still = h.still;
  no_exit = h.no_exit;
  no_frame = λ e. refl;
  no_wait = h.no_wait;
  no_server = h.no_server;
  same_start = h.same_start;
  tracked = h.tracked;
}

module _ (s : Session) (h : Inv s) where
  submit_frame-Inv : (connected : Bool) (eyes : Eyes) → Inv (submit_frame connected eyes s).0
  unfolding submit_frame
  submit_frame-Inv connected eyes =
      advance_session_state-Inv
        (record (check_streaming_connection connected s) { frame_begun = false })
        (frame_over (check_streaming_connection connected s)
          (check_streaming_connection-Inv s h connected))

  end_frame_layers-Inv :
      (has_slice : ℕ → ℕ → Bool) (connected : Bool) (layers : List (Option Layer))
      → Inv (end_frame_layers has_slice connected layers s).0
  unfolding end_frame_layers
  end_frame_layers-Inv has_slice connected layers =
      if-elim AfterInv
        (is_success
          (validate_layers
            (record { swapchains = s.swapchains; spaces = s.spaces; has_slice = has_slice }) layers
            no_eyes).result)
        (λ ok. submit_frame-Inv connected _) (λ bad. h)

  end_frame_given-Inv :
      (has_slice : ℕ → ℕ → Bool) (connected : Bool) (layer_count : ℕ)
      (layers : Option (List (Option Layer)))
      → Inv (end_frame_given has_slice connected layer_count layers s).0
  unfolding end_frame_given
  end_frame_given-Inv has_slice connected layer_count none =
      if-elim AfterInv (ltb 0 layer_count) (λ e. h)
        (λ e. end_frame_layers-Inv has_slice connected [])
  end_frame_given-Inv has_slice connected layer_count (some layers) =
      end_frame_layers-Inv has_slice connected (take layer_count layers)

  end_frame_info-Inv :
      (max_layers : ℕ) (has_slice : ℕ → ℕ → Bool) (connected : Bool) (info : Option FrameEndInfo)
      → Inv (end_frame_info max_layers has_slice connected info s).0
  unfolding end_frame_info
  end_frame_info-Inv max_layers has_slice connected none = h
  end_frame_info-Inv max_layers has_slice connected (some info) =
      if-elim AfterInv (not (is_success (check_end_info max_layers info))) (λ e. h)
        (λ e. end_frame_given-Inv has_slice connected info.layer_count info.layers)

  end_frame-Inv :
      (max_layers : ℕ) (has_slice : ℕ → ℕ → Bool) (connected : Bool) (info : Option FrameEndInfo)
      → Inv (end_frame max_layers has_slice connected info s).0
  unfolding end_frame
  end_frame-Inv max_layers has_slice connected info =
      if-elim AfterInv (not (is_frame_loop_running s)) (λ e. h)
        (λ e.
          if-elim AfterInv (not s.frame_begun) (λ e. h)
            (λ e. end_frame_info-Inv max_layers has_slice connected info))

  keep_swapchains-Inv : (ss : Option (List (ℕ × Swapchain))) → Inv (keep_swapchains ss s).0
  unfolding keep_swapchains
  keep_swapchains-Inv none = h
  keep_swapchains-Inv (some ss) = h

  create_swapchain-Inv :
      (handle : ℕ) (created : Option Swapchain) → Inv (create_swapchain handle created s).0
  unfolding create_swapchain
  create_swapchain-Inv handle none = h
  create_swapchain-Inv handle (some created) = h

  create_reference_space-Inv :
      (handle : ℕ) (given valid_pose supports_local_floor : Bool) (space_type : ReferenceSpaceType)
      → Inv (create_reference_space handle given valid_pose supports_local_floor space_type s).0
  unfolding create_reference_space
  create_reference_space-Inv handle given valid_pose supports_local_floor space_type =
      if-elim After (not given) (λ e. h)
        (λ e.
          if-elim After (not valid_pose) (λ e. h)
            (λ e.
              if-elim After (not (is_space_supported supports_local_floor space_type)) (λ e. h)
                (λ e. h)))
    where
      After : Session × Result → Type 0
      After r = Inv r.0

  create_action_space-Inv : (handle : ℕ) (given : Bool) → Inv (create_action_space handle given s).0
  unfolding create_action_space
  create_action_space-Inv handle given =
      if-elim (λ (r : Session × Result). Inv r.0) (not given) (λ e. h) (λ e. h)

  keep_spaces-Inv : (hs : Option (List ℕ)) → Inv (keep_spaces hs s).0
  unfolding keep_spaces
  keep_spaces-Inv none = h
  keep_spaces-Inv (some hs) = h

  step-Inv : (c : Call) → Inv (step c s)
  unfolding step begin_label_region end_label_region insert_label destroy_swapchain destroy_space
  step-Inv (begin_session_call info start_result) = begin_session-Inv s h info start_result
  step-Inv end_session_call = end_session-Inv s h
  step-Inv request_exit_call = request_exit_session-Inv s h
  step-Inv (wait_frame_call info out refresh_hz now woken) =
      wait_frame-Inv s h info out refresh_hz now woken
  step-Inv (begin_frame_call info) = begin_frame-Inv s h info
  step-Inv (end_frame_call max_layers has_slice connected info) =
      end_frame-Inv max_layers has_slice connected info
  step-Inv (begin_label_region_call name) = h
  step-Inv end_label_region_call = h
  step-Inv (insert_label_call name) = h
  step-Inv (create_swapchain_call handle created) = create_swapchain-Inv handle created
  step-Inv (destroy_swapchain_call handle) = keep_swapchains-Inv (erase handle s.swapchains)
  step-Inv (create_reference_space_call handle given valid_pose supports_local_floor space_type) =
      create_reference_space-Inv handle given valid_pose supports_local_floor space_type
  step-Inv (create_action_space_call handle given) = create_action_space-Inv handle given
  step-Inv (destroy_space_call handle) = keep_spaces-Inv (erase_space handle s.spaces)

run-Inv : (cs : List Call) (s : Session) → Inv s → Inv (run cs s)
unfolding run
run-Inv [] s h = h
run-Inv (c ∷ cs) s h = run-Inv cs (step c s) (step-Inv s h c)

-- After any sequence of calls on a new session, the events it has pushed are a way from `idle` to
-- its state through the life of a session as OpenXR draws it; it runs only in a state from `ready`
-- to `stopping`; while it does not run, it is `ready` or `exiting`, no frame is begun or waited
-- for, no exit is requested and there is no streaming server; and tracking data is used only with a
-- server.
pub run-create-Inv : (cs : List Call) → Inv (run cs create)
run-create-Inv cs = run-Inv cs create create-Inv
