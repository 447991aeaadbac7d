-- ===== src/Xr.antt =====
-- The OpenXR names that the runtime uses (openxr/openxr.h): results, session states and the `type`
-- fields of structs. Only those that the modelled code compares or returns have a constructor.
use open_xr_osx.Base.{Bool, true, false}

-- `XrResult`
pub data Result : Type 0 where
  success : Result
  event_unavailable : Result
  frame_discarded : Result
  validation_failure : Result
  handle_invalid : Result
  session_running : Result
  session_not_running : Result
  session_not_ready : Result
  session_not_stopping : Result
  view_configuration_type_unsupported : Result
  call_order_invalid : Result
  time_invalid : Result
  environment_blend_mode_unsupported : Result
  layer_limit_exceeded : Result
  layer_invalid : Result
  swapchain_rect_invalid : Result
  pose_invalid : Result
  reference_space_unsupported : Result
  size_insufficient : Result
  system_invalid : Result
  form_factor_unsupported : Result
  path_format_invalid : Result
  path_invalid : Result
  path_unsupported : Result
  name_invalid : Result
  localized_name_invalid : Result
  name_duplicated : Result
  localized_name_duplicated : Result
  actionsets_already_attached : Result
  actionset_not_attached : Result
  action_type_mismatch : Result
  session_not_focused : Result

abbrev pub is_success : Result → Bool
is_success success = true
is_success r = false

-- `XrSessionState`
pub data SessionState : Type 0 where
  idle : SessionState
  ready : SessionState
  synchronized : SessionState
  visible : SessionState
  focused : SessionState
  stopping : SessionState
  exiting : SessionState

-- `XrStructureType`
pub data StructureType : Type 0 where
  frame_wait_info : StructureType
  frame_state : StructureType
  frame_begin_info : StructureType
  frame_end_info : StructureType
  swapchain_image_acquire_info : StructureType
  swapchain_image_wait_info : StructureType
  swapchain_image_release_info : StructureType
  other_structure : StructureType
