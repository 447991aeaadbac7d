-- ===== src/Examples/Sessions.antt =====
-- A session that begins, submits a frame of both eyes, and ends.
use open_xr_osx.Base.{
  ℕ, ◌≤◌, ◌≡◌, ◌↔◌, refl, Bool, true, false, some, List, [], ◌∷◌, ◌++◌, arith, pos, replicate, ◌==◌,
}
use open_xr_osx.Xr.{success, frame_end_info, exiting}
use open_xr_osx.Swapchain.{Swapchain, available}
use open_xr_osx.Layers.{
  SubImage, ProjectionView, projection, Owned, find_swapchain, validate_sub_image,
}
use open_xr_osx.Layers.Bounds.{Inside, validate_sub_image-Inside}
use open_xr_osx.Layers.Balance.{retained, given_up, projections, null_layers}
use open_xr_osx.Session.{
  Session, create, transition_state, begin_session, begin_running, start_streaming_if_needed,
  begin_label_region, end_label_region, insert_label, reversed, get_labels, FrameEndInfo, end_frame,
}
use open_xr_osx.Session.Events.{
  Call, begin_session_call, request_exit_call, end_session_call, step, run,
}
use open_xr_osx.Session.Invariant.{Inv}
use open_xr_osx.Session.Lifecycle.{run-create-Inv}
use open_xr_osx.Session.Exit.{run_exit}
use open_xr_osx.Session.Leaving.{frame_calls}
use open_xr_osx.Session.Labels.{pop, get_labels-stack}
use open_xr_osx.Session.Textures.{given, submitted, end_frame-balance}

abbrev beginning : List Call
beginning = begin_session_call (some true) true ∷ []

run-create-Inv_example : Inv (run beginning create)
run-create-Inv_example = run-create-Inv beginning

abbrev no_slices : ℕ → ℕ → Bool
no_slices handle index = false

abbrev begun : Session
begun = run beginning create

begun_running : begun.running ≡ true
unfolding run step create transition_state begin_session begin_running start_streaming_if_needed
begun_running = refl

begun_waited : begun.waited_frame_count ≡ 0
unfolding run step create transition_state begin_session begin_running start_streaming_if_needed
begun_waited = refl

run_exit_example :
    (run
      (request_exit_call ∷ frame_calls 90 5 6 16 no_slices true
        ++ frame_calls 90 5 6 16 no_slices true
        ++ frame_calls 90 5 6 16 no_slices true
        ++ end_session_call ∷ [])
      begun).state
    ≡ exiting
run_exit_example =
    run_exit 90 5 6 16 no_slices true begun run-create-Inv_example begun_running
      (omega (arith, begun_waited))

get_labels-stack_example :
    (get_labels (begin_label_region "pass" create) ≡ "pass" ∷ reversed create.label_regions)
    × (get_labels (end_label_region create) ≡ pop (reversed create.label_regions))
    × (get_labels (end_label_region (begin_label_region "pass" create))
        ≡ reversed create.label_regions)
    × (get_labels (insert_label "pass" create) ≡ "pass" ∷ reversed create.label_regions)
get_labels-stack_example = get_labels-stack create "pass"

abbrev released_swapchain : Swapchain
released_swapchain = record {
  width = 100;
  height = 200;
  array_size = 2;
  image_count = 3;
  next_acquire_index = 1;
  last_released_index = 0;
  static_image_acquired = false;
  has_released_image = true;
  image_states = replicate 3 available;
  acquired_image_order = [];
}

abbrev owned : Owned
owned = record {
  swapchains = (7, released_swapchain) ∷ [];
  spaces = 8 ∷ [];
  has_slice = λ handle index. true;
}

abbrev whole_image : ℕ → SubImage
whole_image index = record {
  swapchain = 7;
  offset_x = pos 0;
  offset_y = pos 0;
  width = pos 100;
  height = pos 200;
  image_array_index = index;
}

validate_sub_image-Inside_example :
    (validate_sub_image owned (whole_image 1) ≡ success)
    ↔ ((s : Swapchain) × (find_swapchain 7 owned.swapchains ≡ some s) × Inside (whole_image 1) s)
validate_sub_image-Inside_example = validate_sub_image-Inside owned (whole_image 1)

abbrev eye_view : ℕ → ProjectionView
eye_view index = record { valid_pose = true; finite_fov = true; sub_image = whole_image index }

abbrev both_eyes : FrameEndInfo
both_eyes = record {
  structure_type = frame_end_info;
  display_time = pos 9;
  opaque_blend_mode = true;
  layer_count = 1;
  layers = some (some (projection 8 (some (eye_view 0 ∷ eye_view 1 ∷ []))) ∷ []);
}

abbrev drawing : Session
drawing = record begun {
  frame_begun = true;
  swapchains = (7, released_swapchain) ∷ [];
  spaces = 8 ∷ [];
}

one_projection : projections (submitted (some both_eyes)) ≤ 1
unfolding projections submitted given
one_projection = omega arith

no_null : null_layers (submitted (some both_eyes)) ≡ 0
unfolding null_layers submitted given
no_null = refl

end_frame-balance_example :
    retained
      (λ t. t.array_index == 1)
      (end_frame 16 (λ handle index. true) true (some both_eyes) drawing).2
    ≡ given_up
        (λ t. t.array_index == 1)
        (end_frame 16 (λ handle index. true) true (some both_eyes) drawing).2
end_frame-balance_example =
    end_frame-balance (λ t. t.array_index == 1) 16 (λ handle index. true) true (some both_eyes)
      drawing one_projection no_null
