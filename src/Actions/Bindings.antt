-- ===== src/Actions/Bindings.antt =====
-- runtime/src/EntryPoint.cpp: OxrSuggestInteractionProfileBindings and OxrAttachSessionActionSets,
-- and what OxrDestroySession and CleanupRuntimeState do to the action state.
use open_xr_osx.Base.{
  ℕ, Bool, true, false, not, ◌&&◌, ◌||◌, Option, none, some, List, [], ◌∷◌, ◌++◌, ◌==◌, ◌⊎◌, inl,
  inr, if◌then◌else◌, length, Text, same,
}
use open_xr_osx.Xr.{
  Result, success, validation_failure, handle_invalid, path_invalid, path_unsupported,
  actionsets_already_attached,
}
use open_xr_osx.Instance.{Instance}
use open_xr_osx.Runtime.{Runtime, string_to_path_call, remove_handle}
use open_xr_osx.Actions.Strings.{
  is_known_interaction_profile_path, is_valid_binding_path_for_profile, component_from_binding_path,
  top_level_of_binding,
}
use open_xr_osx.Actions.State.{
  Scalars, ActionSetState, ActionState, SuggestedBinding, World, get_path_string, find_set,
  find_action,
}

-- `XR_MAX_PATH_LENGTH`
abbrev pub max_path_length : ℕ
max_path_length = 256

-- The path that is written, or the null path that was there.
abbrev pub path_or_null : Option ℕ → ℕ
path_or_null none = 0
path_or_null (some p) = p

-- `XrPath path = XR_NULL_PATH; Runtime::Get().StringToPath(…, &path)`
unfoldable pub intern_path : Text → Runtime → Runtime × ℕ
unfolding string_to_path_call
intern_path s r =
    let (r', result, path) = string_to_path_call max_path_length true s r in (r', path_or_null path)

-- The top level path of a binding, which is interned if there is one.
unfoldable pub intern_top_level : Text → Runtime → Runtime × ℕ
unfolding same intern_path
intern_top_level top r = if same top [] then (r, 0) else intern_path top r

unfoldable pub make_binding :
    (action_handle binding_path : ℕ) → Text → (top_level_path : ℕ) → SuggestedBinding
unfolding component_from_binding_path
make_binding action_handle binding_path path_string top_level_path = record {
  action_handle = action_handle;
  binding_path = binding_path;
  top_level_path = top_level_path;
  binding_path_string = path_string;
  component_path = component_from_binding_path path_string;
}

-- The refusal of a binding, if it is refused.
abbrev pub is_set : Option ActionSetState → Bool
is_set none = false
is_set (some s) = true

-- Whether the loop over `actionSets` comes to its end.
unfoldable pub all_sets : List ActionSetState → List ℕ → Bool
unfolding find_set
all_sets sets [] = true
all_sets sets (h ∷ hs) = is_set (find_set h sets) && all_sets sets hs

module _ (F : Scalars) where
  -- The refusal of one suggested binding, an action with a path.
  abbrev pub refuse_text : Instance → (profile text : Text) → Option Result
  refuse_text i profile text =
      if same text []
      then some path_invalid
      else if not (is_valid_binding_path_for_profile i profile text)
      then some path_unsupported
      else none

  abbrev pub refuse_binding :
      Option (ActionState F) → Instance → (profile text : Text) → Option Result
  refuse_binding none i profile text = some handle_invalid
  refuse_binding (some a) i profile text = refuse_text i profile text

  -- The loop over `suggestedBindings`: the first refusal, or the bindings. What was interned stays.
  unfoldable pub collect_bindings :
      Instance
      → (profile : Text) → List (ActionState F)
      → List (ℕ × ℕ)
      → Runtime
      → Runtime × (Result ⊎ List SuggestedBinding)
  unfolding get_path_string find_action same is_valid_binding_path_for_profile top_level_of_binding
      intern_top_level make_binding
  collect_bindings i profile actions [] r = (r, inr [])
  collect_bindings i profile actions ((h, path) ∷ rest) r =
      let text = get_path_string path r in
      let (r', top) = intern_top_level (top_level_of_binding text) r in
      let later = collect_bindings i profile actions rest r' in
      elim (refuse_binding (find_action F h actions) i profile text) [
        | some refusal ↦ (r, inl refusal)
        | none ↦ elim later.1 [
          | inl refusal ↦ (later.0, inl refusal)
          | inr bindings ↦ (later.0, inr (make_binding h path text top ∷ bindings))
        ]
      ]

  -- `gSuggestedBindings[profilePath] = bindings`
  unfoldable pub set_bindings :
      ℕ
      → List SuggestedBinding
      → List (ℕ × List SuggestedBinding)
      → List (ℕ × List SuggestedBinding)
  set_bindings p bs [] = (p, bs) ∷ []
  set_bindings p bs ((q, cs) ∷ rest) =
      if q == p then (p, bs) ∷ rest else (q, cs) ∷ set_bindings p bs rest

  abbrev pub store_bindings :
      ℕ → Runtime × (Result ⊎ List SuggestedBinding) → World F → World F × Result
  store_bindings profile (r, inl refusal) w = (record w { runtime = r }, refusal)
  store_bindings profile (r, inr bindings) w = (
    record w {
      runtime = r;
      suggested_bindings = set_bindings profile bindings w.suggested_bindings;
    },
    success,
  )

  -- `given` is that the pointer to the struct is not null, `list_given` the same of its list.
  unfoldable pub suggest_interaction_profile_bindings :
      Option Instance
      → (given typed list_given : Bool) → (profile : ℕ) → List (ℕ × ℕ)
      → World F
      → World F × Result
  unfolding collect_bindings set_bindings get_path_string same is_known_interaction_profile_path
  suggest_interaction_profile_bindings none given typed list_given profile suggested w =
      (w, validation_failure)
  suggest_interaction_profile_bindings (some i) given typed list_given profile suggested w =
      let profile_string = get_path_string profile w.runtime in
      if not given || not typed
      then (w, validation_failure)
      else if (length suggested == 0) || not list_given
      then (w, validation_failure)
      else if w.action_sets_attached
      then (w, actionsets_already_attached)
      else if same profile_string []
      then (w, path_invalid)
      else if not (is_known_interaction_profile_path i profile_string)
      then (w, path_unsupported)
      else store_bindings profile (collect_bindings i profile_string w.actions suggested w.runtime)
          w

  unfoldable pub attach_session_action_sets :
      (has_session given : Bool) → (handles : List ℕ) → World F → World F × Result
  unfolding all_sets
  attach_session_action_sets has_session given handles w =
      if not has_session
      then (w, handle_invalid)
      else if not given || (length handles == 0)
      then (w, validation_failure)
      else if w.action_sets_attached
      then (w, actionsets_already_attached)
      else if not (all_sets w.action_sets handles)
      then (record w { attached_handles = [] }, handle_invalid)
      else (record w { attached_handles = handles; action_sets_attached = true }, success)

  -- What `OxrDestroySession` does to the action state.
  unfoldable pub destroy_session : (has_session : Bool) → World F → World F × Result
  destroy_session has_session w =
      if not has_session
      then (w, handle_invalid)
      else (record w { action_sets_attached = false; attached_handles = [] }, success)

  unfoldable pub remove_handles : List ℕ → Runtime → Runtime
  unfolding remove_handle
  remove_handles [] r = r
  remove_handles (h ∷ hs) r = remove_handles hs (remove_handle h r)

  abbrev pub action_handles : List (ActionState F) → List ℕ
  action_handles [] = []
  action_handles (a ∷ rest) = a.handle ∷ action_handles rest

  abbrev pub set_handles : List ActionSetState → List ℕ
  set_handles [] = []
  set_handles (s ∷ rest) = s.handle ∷ set_handles rest

  -- What `CleanupRuntimeState` does to the action state.
  unfoldable pub cleanup_runtime_state : World F → World F
  unfolding remove_handles
  cleanup_runtime_state w = record {
    runtime = remove_handles (action_handles w.actions ++ set_handles w.action_sets) w.runtime;
    action_sets = [];
    actions = [];
    suggested_bindings = [];
    action_sets_attached = false;
    attached_handles = [];
  }
