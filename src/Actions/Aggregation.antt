-- ===== src/Actions/Aggregation.antt =====
-- runtime/src/EntryPoint.cpp, OxrSyncActions: what the bindings of the current interaction profile
-- read from the devices, for each action and subaction path.
use open_xr_osx.Base.{
  ℕ, Bool, true, false, not, ◌&&◌, ◌||◌, Option, none, some, List, [], ◌∷◌, ◌++◌, ◌==◌,
  if◌then◌else◌, Text, same, contains,
}
use open_xr_osx.Runtime.{Runtime}
use open_xr_osx.Actions.Strings.{left_hand, right_hand}
use open_xr_osx.Actions.State.{
  Scalars, ActionType, boolean_input, float_input, vector2f_input, pose_input, vibration_output,
  ActionState, SuggestedBinding, Vector2, World, find_set, find_action, member, zero_vector,
}
use open_xr_osx.Actions.Bindings.{intern_path}

pub data Hand : Type 0 where
  left right : Hand

abbrev pub hand_path : Hand → Text
hand_path left = left_hand
hand_path right = right_hand

-- A set is followed by its pointer.
abbrev pub and_then {ℓ} : {A : Type ℓ} {B : Type 0} → Option A → (A → Option B) → Option B
and_then none f = none
and_then (some a) f = f a

unfoldable pub hand_from_binding_path : Text → Hand
unfolding contains
hand_from_binding_path path = if contains right_hand path then right else left

unfoldable pub find_bindings : ℕ → List (ℕ × List SuggestedBinding) → Option (List SuggestedBinding)
find_bindings p [] = none
find_bindings p ((q, bs) ∷ rest) = if q == p then some bs else find_bindings p rest

module _ (F : Scalars) where
  open F use {Float, zero_float, max_float, larger}

  -- `InputManager`, as `OxrSyncActions` reads it. No profile is the empty text.
  pub record InputManager : Type 0 where
    pub current_interaction_profile : Hand → Text
    pub is_input_device_active : Hand → Bool
    pub boolean_component : Hand → Text → Bool
    pub float_component : Hand → Text → Float
    pub vector2f_component : Hand → Text → Vector2 F

  pub record AggregatedActionState : Type 0 where
    pub is_active : Bool
    pub bool_value : Bool
    pub float_value : Float
    pub vector2f_value : Vector2 F
    pub pose_active : Bool
    pub pose_source_path : ℕ
    pub bound_sources : List ℕ

  abbrev pub no_state : AggregatedActionState
  no_state = record {
    is_active = false;
    bool_value = false;
    float_value = zero_float;
    vector2f_value = zero_vector F;
    pose_active = false;
    pose_source_path = 0;
    bound_sources = [];
  }

  -- `aggregatedStates`, with its two keys: the action and the subaction path.
  pub record Aggregate : Type 0 where
    pub action_key : ℕ
    pub path_key : ℕ
    pub state : AggregatedActionState

  unfoldable pub find_aggregate : (action path : ℕ) → List Aggregate → Option AggregatedActionState
  find_aggregate action path [] = none
  find_aggregate action path (g ∷ gs) =
      if (g.action_key == action) && (g.path_key == path)
      then some g.state
      else find_aggregate action path gs

  abbrev pub state_or_none : Option AggregatedActionState → AggregatedActionState
  state_or_none none = no_state
  state_or_none (some s) = s

  -- A change of `aggregatedStates[action][path]`, which is made where it is not there.
  unfoldable pub update_aggregate :
      (action path : ℕ)
      → (AggregatedActionState → AggregatedActionState)
      → List Aggregate
      → List Aggregate
  unfolding find_aggregate
  update_aggregate action path f gs =
      record {
        action_key = action;
        path_key = path;
        state = f (state_or_none (find_aggregate action path gs));
      }
      ∷ gs

  -- The cases of `switch (action->GetType())`.
  abbrev pub accumulate_value :
      InputManager
      → Hand
      → SuggestedBinding
      → ActionType
      → AggregatedActionState
      → AggregatedActionState
  accumulate_value input hand b boolean_input s = record s {
    bool_value = s.bool_value || input.boolean_component hand b.component_path;
  }
  accumulate_value input hand b float_input s = record s {
    float_value = max_float s.float_value (input.float_component hand b.component_path);
  }
  accumulate_value input hand b vector2f_input s =
      let vec = input.vector2f_component hand b.component_path in
      record s {
        vector2f_value =
            if larger vec.x s.vector2f_value.x || larger vec.y s.vector2f_value.y
            then vec
            else s.vector2f_value;
      }
  accumulate_value input hand b pose_input s = record s {
    pose_active = true;
    pose_source_path = if s.pose_source_path == 0 then b.binding_path else s.pose_source_path;
  }
  accumulate_value input hand b vibration_output s = s

  unfoldable pub accumulate_binding_state :
      InputManager → SuggestedBinding → ActionType → AggregatedActionState → AggregatedActionState
  unfolding hand_from_binding_path
  accumulate_binding_state input b action_type s =
      let hand = hand_from_binding_path b.binding_path_string in
      if b.top_level_path == 0
      then s
      else if not (input.is_input_device_active hand)
      then s
      else accumulate_value input hand b action_type
          (record s { is_active = true; bound_sources = s.bound_sources ++ b.binding_path ∷ [] })

  -- `none` where the action's set is gone. Without a list all attached sets are active.
  unfoldable pub is_action_set_active :
      (active_sets : List ℕ) → World F → ActionState F → Option Bool
  unfolding find_set member
  is_action_set_active [] w a =
      and_then (find_set a.action_set w.action_sets)
        (λ s. some (member s.handle w.attached_handles))
  is_action_set_active (h ∷ hs) w a =
      and_then (find_set a.action_set w.action_sets) (λ s. some (member s.handle (h ∷ hs)))

  -- `XR_NULL_PATH` for an action without subaction paths.
  abbrev pub path_for : List ℕ → ℕ → ℕ
  path_for [] top = 0
  path_for (p ∷ ps) top = top

  abbrev pub bind_action :
      InputManager
      → List ℕ
      → World F
      → SuggestedBinding
      → Option (ActionState F)
      → List Aggregate
      → Option (List Aggregate)
  bind_action input active_sets w b none gs = some gs
  bind_action input active_sets w b (some a) gs =
      and_then (is_action_set_active active_sets w a) (λ active. some (
        if active
        then update_aggregate b.action_handle (path_for a.subaction_paths b.top_level_path)
            (accumulate_binding_state input b a.action_type) gs
        else gs))

  -- The loop over the bindings of a profile.
  unfoldable pub sync_bindings :
      InputManager
      → List ℕ
      → World F
      → (expected : ℕ) → List SuggestedBinding
      → List Aggregate
      → Option (List Aggregate)
  unfolding is_action_set_active find_action update_aggregate accumulate_binding_state
  sync_bindings input active_sets w expected [] gs = some gs
  sync_bindings input active_sets w expected (b ∷ bs) gs =
      if not (b.top_level_path == expected)
      then sync_bindings input active_sets w expected bs gs
      else and_then (bind_action input active_sets w b (find_action F b.action_handle w.actions) gs)
          (sync_bindings input active_sets w expected bs)

  abbrev pub sync_profile :
      InputManager
      → List ℕ
      → World F
      → Hand
      → Option (List SuggestedBinding)
      → Runtime
      → List Aggregate
      → Option (Runtime × List Aggregate)
  sync_profile input active_sets w hand none r gs = some (r, gs)
  sync_profile input active_sets w hand (some bs) r gs =
      let (r', expected) = intern_path (hand_path hand) r in
      and_then (sync_bindings input active_sets w expected bs gs) (λ gs'. some (r', gs'))

  -- One round of the loop over the hands.
  unfoldable pub sync_hand :
      InputManager
      → List ℕ
      → World F
      → Hand
      → Runtime × List Aggregate
      → Option (Runtime × List Aggregate)
  unfolding sync_bindings find_bindings intern_path same
  sync_hand input active_sets w hand (r, gs) =
      let profile = input.current_interaction_profile hand in
      let (r', path) = intern_path profile r in
      if same profile []
      then some (r, gs)
      else sync_profile input active_sets w hand (find_bindings path w.suggested_bindings) r' gs
