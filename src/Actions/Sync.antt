-- ===== src/Actions/Sync.antt =====
-- runtime/src/EntryPoint.cpp, OxrSyncActions, and ActionSet.cpp, ApplySyncState: the state of the
-- actions is taken from the devices through the bindings of the current interaction profile.
pub mod Fold
pub mod Told
pub mod Values
pub mod Pressed
use open_xr_osx.Base.{
  ℕ, Bool, true, false, not, ◌&&◌, ◌||◌, Option, none, some, List, [], ◌∷◌, ◌++◌, ◌==◌,
  if◌then◌else◌, Text, same, contains,
}
use open_xr_osx.Xr.{Result, success, validation_failure, actionset_not_attached}
use open_xr_osx.Runtime.{Runtime}
use open_xr_osx.Actions.Strings.{left_hand, right_hand}
use open_xr_osx.Actions.State.{
  Scalars, ActionType, boolean_input, float_input, vector2f_input, pose_input, vibration_output,
  ActionState, SuggestedBinding, SubactionData, Vector2, World, find_set, find_action, member,
  no_data, zero_vector,
}
use open_xr_osx.Actions.Bindings.{intern_path}
use open_xr_osx.Actions.Aggregation.{
  Hand, hand_path, and_then, hand_from_binding_path, find_bindings, InputManager,
  AggregatedActionState, no_state, Aggregate, find_aggregate, state_or_none, update_aggregate,
  accumulate_value, accumulate_binding_state, is_action_set_active, path_for, bind_action,
  sync_bindings, sync_profile, sync_hand, left, right,
}

module _ (F : Scalars) where
  open F use {Float, differs}

  unfoldable pub get_subaction_data : ℕ → List (ℕ × SubactionData F) → SubactionData F
  get_subaction_data p [] = no_data F
  get_subaction_data p ((q, d) ∷ rest) = if q == p then d else get_subaction_data p rest

  unfoldable pub set_subaction_data :
      ℕ → SubactionData F → List (ℕ × SubactionData F) → List (ℕ × SubactionData F)
  set_subaction_data p d [] = (p, d) ∷ []
  set_subaction_data p d ((q, e) ∷ rest) =
      if q == p then (p, d) ∷ rest else (q, e) ∷ set_subaction_data p d rest

  -- `a != b`
  abbrev pub changes : Bool → Bool → Bool
  changes true b = not b
  changes false b = b

  -- The data after a synchronisation, and the time of the last change.
  unfoldable pub synced_data :
      AggregatedActionState F → (sync_time : ℕ) → SubactionData F → SubactionData F
  synced_data s sync_time old =
      let bool_changed = changes s.bool_value old.bool_value in
      let float_changed = differs s.float_value old.float_value in
      let vector2f_changed =
        differs s.vector2f_value.x old.vector2f_value.x
        || differs s.vector2f_value.y old.vector2f_value.y in
      let pose_changed =
        changes s.pose_active old.pose_active || not (s.pose_source_path == old.pose_source_path) in
      record {
        is_active = s.is_active;
        bool_value = s.bool_value;
        bool_changed = bool_changed;
        float_value = s.float_value;
        float_changed = float_changed;
        vector2f_value = s.vector2f_value;
        vector2f_changed = vector2f_changed;
        pose_active = s.pose_active;
        pose_source_path = s.pose_source_path;
        last_change_time =
            if bool_changed || (float_changed || (vector2f_changed || pose_changed))
            then sync_time
            else old.last_change_time;
        bound_sources = s.bound_sources;
      }

  -- A null pointer stands for nothing bound.
  unfoldable pub apply_sync_state :
      (path : ℕ)
      → Option (AggregatedActionState F)
      → (sync_time : ℕ) → ActionState F
      → ActionState F
  unfolding synced_data get_subaction_data set_subaction_data
  apply_sync_state path s sync_time a = record a {
    subaction_data =
        set_subaction_data path
          (synced_data (state_or_none F s) sync_time (get_subaction_data path a.subaction_data))
          a.subaction_data;
  }

  unfoldable pub resolved_subaction_paths : List ℕ → List ℕ
  resolved_subaction_paths [] = 0 ∷ []
  resolved_subaction_paths (p ∷ ps) = p ∷ ps

  unfoldable pub apply_paths :
      (sync_time : ℕ) → List (Aggregate F) → List ℕ → ActionState F → ActionState F
  unfolding apply_sync_state find_aggregate
  apply_paths sync_time gs [] a = a
  apply_paths sync_time gs (p ∷ ps) a =
      apply_paths sync_time gs ps (apply_sync_state p (find_aggregate F a.handle p gs) sync_time a)

  -- The loop over `gActions`.
  unfoldable pub apply_actions :
      List ℕ
      → World F
      → (sync_time : ℕ) → List (Aggregate F)
      → List (ActionState F)
      → Option (List (ActionState F))
  unfolding is_action_set_active apply_paths resolved_subaction_paths
  apply_actions active_sets w sync_time gs [] = some []
  apply_actions active_sets w sync_time gs (a ∷ rest) =
      and_then (is_action_set_active F active_sets w a) (λ active.
        and_then (apply_actions active_sets w sync_time gs rest) (λ synced. some (
          (if active
            then apply_paths sync_time gs (resolved_subaction_paths a.subaction_paths) a
            else a)
          ∷ synced)))

  abbrev pub sync_hands : InputManager F → List ℕ → World F → Option (Runtime × List (Aggregate F))
  sync_hands input active_sets w =
      and_then (sync_hand F input active_sets w left (w.runtime, []))
        (sync_hand F input active_sets w right)

  -- `active_sets` is empty where the list is null. `none` is a use after free.
  unfoldable pub sync_actions :
      Option (InputManager F)
      → (given : Bool) → (active_sets : List ℕ) → (sync_time : ℕ) → World F
      → Option (World F × Result)
  unfolding sync_hand apply_actions
  sync_actions none given active_sets sync_time w = some (w, validation_failure)
  sync_actions (some input) given active_sets sync_time w =
      if not given
      then some (w, validation_failure)
      else if not w.action_sets_attached
      then some (w, actionset_not_attached)
      else and_then (sync_hands input active_sets w) (λ p.
        and_then (apply_actions active_sets w sync_time p.1 w.actions)
          (λ synced. some (record w { runtime = p.0; actions = synced }, success)))
