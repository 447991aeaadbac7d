-- ===== src/Actions/Query.antt =====
-- runtime/src/EntryPoint.cpp: what an application reads of an action (OxrGetActionState…), the
-- haptic calls, the interaction profile and the spaces of actions, and ActionSet.cpp,
-- GetBoundSources.
use open_xr_osx.Base.{
  ℕ, Bool, true, false, not, ◌&&◌, ◌||◌, Option, none, some, List, [], ◌∷◌, ◌++◌, ◌==◌, ltb, max,
  ◌⊎◌, inl, inr, if◌then◌else◌, Text, same,
}
use open_xr_osx.Xr.{
  Result, success, validation_failure, handle_invalid, path_invalid, path_unsupported,
  actionset_not_attached, action_type_mismatch, session_not_focused, SessionState, focused,
}
use open_xr_osx.Actions.Strings.{left_hand, right_hand}
use open_xr_osx.Actions.State.{
  Scalars, ActionType, boolean_input, float_input, vector2f_input, pose_input, vibration_output,
  ActionState, SubactionData, Vector2, World, find_set, find_action, member, no_data,
  get_path_string, is_attached_action_set_handle,
}
use open_xr_osx.Actions.Bindings.{intern_path}
use open_xr_osx.Actions.Aggregation.{Hand, left, right, and_then}
use open_xr_osx.Actions.Sync.{get_subaction_data, resolved_subaction_paths}

-- `XrActionType` as it is compared.
abbrev pub type_number : ActionType → ℕ
type_number boolean_input = 1
type_number float_input = 2
type_number vector2f_input = 3
type_number pose_input = 4
type_number vibration_output = 100

abbrev pub is_focused : SessionState → Bool
is_focused focused = true
is_focused s = false

-- A sorted list without duplicates, with one more.
unfoldable pub insert_sorted : ℕ → List ℕ → List ℕ
insert_sorted p [] = p ∷ []
insert_sorted p (q ∷ qs) =
    if p == q then q ∷ qs else if ltb p q then p ∷ q ∷ qs else q ∷ insert_sorted p qs

-- `std::sort`, `std::unique` and `erase`
unfoldable pub sort_unique : List ℕ → List ℕ
unfolding insert_sorted
sort_unique [] = []
sort_unique (p ∷ ps) = insert_sorted p (sort_unique ps)

module _ (F : Scalars) where
  open F use {Float, max_float, larger}

  -- `none` is a use after free.
  unfoldable pub is_action_attached : World F → ActionState F → Option Bool
  unfolding find_set is_attached_action_set_handle
  is_action_attached w a =
      and_then (find_set a.action_set w.action_sets)
        (λ s. some (is_attached_action_set_handle F s.handle w))

  unfoldable pub validate_action_subaction_path : World F → ActionState F → (path : ℕ) → Result
  unfolding get_path_string resolved_subaction_paths member same
  validate_action_subaction_path w a path =
      if path == 0
      then success
      else if same (get_path_string path w.runtime) []
      then path_invalid
      else if member path (resolved_subaction_paths F a.subaction_paths)
      then success
      else path_unsupported

  -- The checks behind `IsActionAttached`.
  abbrev pub checked_query :
      World F → ActionState F → (path : ℕ) → ActionType → Result → Result ⊎ ActionState F
  checked_query w a path expected success =
      if type_number a.action_type == type_number expected then inr a else inl action_type_mismatch
  checked_query w a path expected refusal = inl refusal

  abbrev pub query_action :
      World F → (path : ℕ) → ActionType → Option (ActionState F) → Option (Result ⊎ ActionState F)
  query_action w path expected none = some (inl handle_invalid)
  query_action w path expected (some a) = and_then (is_action_attached w a) (λ attached. some (
      if attached
      then checked_query w a path expected (validate_action_subaction_path w a path)
      else inl actionset_not_attached))

  unfoldable pub validate_action_state_query :
      (has_session given : Bool)
      → (action path : ℕ) → ActionType
      → World F
      → Option (Result ⊎ ActionState F)
  unfolding find_action is_action_attached validate_action_subaction_path
  validate_action_state_query has_session given action path expected w =
      if not has_session
      then some (inl handle_invalid)
      else if not given
      then some (inl validation_failure)
      else query_action w path expected (find_action F action w.actions)

  -- One round of the loop over the subaction paths.
  abbrev pub merge_data : SubactionData F → SubactionData F → SubactionData F
  merge_data g d = record {
    is_active = g.is_active || d.is_active;
    bool_value = g.bool_value || d.bool_value;
    bool_changed = g.bool_changed || d.bool_changed;
    float_value = max_float g.float_value d.float_value;
    float_changed = g.float_changed || d.float_changed;
    vector2f_value =
        if larger d.vector2f_value.x g.vector2f_value.x
          || larger d.vector2f_value.y g.vector2f_value.y
        then d.vector2f_value
        else g.vector2f_value;
    vector2f_changed = g.vector2f_changed || d.vector2f_changed;
    pose_active = g.pose_active || d.pose_active;
    pose_source_path =
        if (g.pose_source_path == 0) && not (d.pose_source_path == 0)
        then d.pose_source_path
        else g.pose_source_path;
    last_change_time = max g.last_change_time d.last_change_time;
    bound_sources = g.bound_sources ++ d.bound_sources;
  }

  unfoldable pub merge_paths : ActionState F → List ℕ → SubactionData F → SubactionData F
  unfolding get_subaction_data
  merge_paths a [] g = g
  merge_paths a (p ∷ ps) g =
      merge_paths a ps (merge_data g (get_subaction_data F p a.subaction_data))

  unfoldable pub get_queried_action_state : ActionState F → (path : ℕ) → SubactionData F
  unfolding get_subaction_data merge_paths resolved_subaction_paths
  get_queried_action_state a path =
      if not (path == 0)
      then get_subaction_data F path a.subaction_data
      else merge_paths a (resolved_subaction_paths F a.subaction_paths) (no_data F)

  -- What the calls write: `XrActionStateBoolean` and its like, and the pose's.
  pub record ActionStateOf (V : Type 0) : Type 0 where
    pub current_state : V
    pub changed_since_last_sync : Bool
    pub last_change_time : ℕ
    pub is_active : Bool

  abbrev pub answer :
      {V : Type 0} → (SubactionData F → V) → (path : ℕ) → Result ⊎ ActionState F → Result × Option V
  answer read path (inl refusal) = (refusal, none)
  answer read path (inr a) = (success, some (read (get_queried_action_state a path)))

  abbrev pub query :
      {V : Type 0}
      → ActionType
      → (SubactionData F → V)
      → (has_session given state_given : Bool) → (action path : ℕ) → World F
      → Option (Result × Option V)
  query expected read has_session given state_given action path w =
      if not state_given
      then some (validation_failure, none)
      else and_then (validate_action_state_query has_session given action path expected w)
          (λ q. some (answer read path q))

  unfoldable pub get_action_state_boolean :
      (has_session given state_given : Bool)
      → (action path : ℕ) → World F
      → Option (Result × Option (ActionStateOf Bool))
  unfolding validate_action_state_query get_queried_action_state
  get_action_state_boolean = query boolean_input (λ d. record {
    current_state = d.bool_value;
    changed_since_last_sync = d.bool_changed;
    last_change_time = d.last_change_time;
    is_active = d.is_active;
  })

  unfoldable pub get_action_state_float :
      (has_session given state_given : Bool)
      → (action path : ℕ) → World F
      → Option (Result × Option (ActionStateOf Float))
  unfolding validate_action_state_query get_queried_action_state
  get_action_state_float = query float_input (λ d. record {
    current_state = d.float_value;
    changed_since_last_sync = d.float_changed;
    last_change_time = d.last_change_time;
    is_active = d.is_active;
  })

  unfoldable pub get_action_state_vector2f :
      (has_session given state_given : Bool)
      → (action path : ℕ) → World F
      → Option (Result × Option (ActionStateOf (Vector2 F)))
  unfolding validate_action_state_query get_queried_action_state
  get_action_state_vector2f = query vector2f_input (λ d. record {
    current_state = d.vector2f_value;
    changed_since_last_sync = d.vector2f_changed;
    last_change_time = d.last_change_time;
    is_active = d.is_active;
  })

  unfoldable pub get_action_state_pose :
      (has_session given state_given : Bool)
      → (action path : ℕ) → World F
      → Option (Result × Option Bool)
  unfolding validate_action_state_query get_queried_action_state
  get_action_state_pose = query pose_input (λ d. d.pose_active)

  abbrev pub haptic_result : Result ⊎ ActionState F → SessionState → Result
  haptic_result (inl refusal) state = refusal
  haptic_result (inr a) state = if is_focused state then success else session_not_focused

  -- The guards of OxrApplyHapticFeedback and OxrStopHapticFeedback, which do nothing else; the
  -- order of the checks is that of a query.
  unfoldable pub haptic_feedback :
      Option SessionState → (given : Bool) → (action path : ℕ) → World F → Option Result
  unfolding validate_action_state_query
  haptic_feedback none given action path w = some handle_invalid
  haptic_feedback (some state) given action path w =
      and_then (validate_action_state_query true given action path vibration_output w)
        (λ q. some (haptic_result q state))

  abbrev pub space_path : (given_path : ℕ) → List ℕ → ℕ
  space_path path [] = path
  space_path path (p ∷ ps) = if path == 0 then p else path

  abbrev pub space_of : (given_path : ℕ) → Option (ActionState F) → Result ⊎ ℕ
  space_of path none = inl handle_invalid
  space_of path (some a) =
      if type_number a.action_type == type_number pose_input
      then inr (space_path path a.subaction_paths)
      else inl action_type_mismatch

  -- OxrCreateActionSpace up to the call of `Session::CreateActionSpace`: a refusal, or the
  -- subaction path that it is called with.
  unfoldable pub create_action_space :
      (has_session given : Bool) → (action path : ℕ) → World F → Result ⊎ ℕ
  unfolding find_action
  create_action_space has_session given action path w =
      if not has_session || not given
      then inl validation_failure
      else space_of path (find_action F action w.actions)

  -- The profile of a hand, which is interned; no profile is the null path.
  abbrev pub profile_path : Text → World F → World F × Result × Option ℕ
  profile_path profile w =
      let (r, path) = intern_path profile w.runtime in
      if same profile []
      then (w, success, some 0)
      else (record w { runtime = r }, success, some path)

  unfoldable pub get_current_interaction_profile :
      Option (Hand → Text)
      → (given : Bool) → (top_level_path : ℕ) → World F
      → World F × Result × Option ℕ
  unfolding get_path_string same intern_path
  get_current_interaction_profile none given top w = (w, handle_invalid, none)
  get_current_interaction_profile (some profile_of) given top w =
      let text = get_path_string top w.runtime in
      if not given
      then (w, validation_failure, none)
      else if not w.action_sets_attached
      then (w, actionset_not_attached, none)
      else if same text []
      then (w, path_invalid, none)
      else if same text left_hand || same text right_hand
      then profile_path (profile_of (if same text right_hand then right else left)) w
      else (w, path_unsupported, none)

  abbrev pub sources_of : ActionState F → List ℕ → List ℕ
  sources_of a [] = []
  sources_of a (p ∷ ps) = (get_subaction_data F p a.subaction_data).bound_sources ++ sources_of a ps

  unfoldable pub get_bound_sources : ActionState F → List ℕ
  unfolding sort_unique resolved_subaction_paths get_subaction_data
  get_bound_sources a = sort_unique (sources_of a (resolved_subaction_paths F a.subaction_paths))
