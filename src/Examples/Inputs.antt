-- ===== src/Examples/Inputs.antt =====
-- The action state at concrete inputs. A float is a natural number here.
use open_xr_osx.Base.{
  ℕ, ◌≡◌, ◌↔◌, refl, true, false, not, none, some, List, [], ◌∷◌, ltb, ◌==◌, max, Text, codes, same,
}
use open_xr_osx.Runtime.{
  Runtime, fresh, register_handle, string_to_path_call, is_path_format, intern, starts_with_slash,
  ends_with_slash, has_double_slash, has_bad_segment, bad_segment, has_bad_char, rest_of,
  is_path_char, find_string,
}
use open_xr_osx.Actions.Bindings.{
  suggest_interaction_profile_bindings, attach_session_action_sets, intern_path,
}
use open_xr_osx.Xr.{success}
use open_xr_osx.Instance.{Instance}
use open_xr_osx.Actions.State.{
  Scalars, create_action_set, destroy_action_set, create_action, boolean_input, ActionState,
  ActionCreateInfo, World, find_action, member,
}
use open_xr_osx.Actions.Strings.{
  left_hand, right_hand, is_valid_single_level_path_name, is_known_interaction_profile_path,
  top_level_of_binding, component_from_binding_path, is_valid_binding_path_for_profile,
}
use open_xr_osx.Actions.Aggregation.{InputManager, is_action_set_active, find_bindings}
use open_xr_osx.Actions.Sync.{sync_actions, resolved_subaction_paths, changes}
use open_xr_osx.Actions.Sync.Values.{no_repeats, data_at, bound_by_hands, sync_actions-data_at}
use open_xr_osx.Actions.Sync.Pressed.{pressed, sync_actions-pressed}
use open_xr_osx.Actions.Calls.{
  Call, set_created, action_created, bindings_suggested, sets_attached, path_made, run, empty,
  careful,
}
use open_xr_osx.Actions.Memory.{Alive}
use open_xr_osx.Actions.Memory.Runs.{run-careful, sync_actions_iff, all_have_sets}
use open_xr_osx.Actions.Names.{NamesUnique}
use open_xr_osx.Actions.Names.Runs.{run-NamesUnique}
use open_xr_osx.Actions.Attached.{Frozen}
use open_xr_osx.Actions.Sync.Told.{Synced}
use open_xr_osx.Actions.Attached.Runs.{run-Frozen}

abbrev numbers : Scalars
numbers = record {
  Float = ℕ;
  zero_float = 0;
  max_float = max;
  differs = λ a b. not (a == b);
  larger = λ a b. ltb b a;
}

abbrev the_instance : Instance
the_instance = record {
  system_requested = true;
  api_version = 0x1000000000000;
  enabled_extensions = [];
  event_queue = [];
  debug_names = [];
  metal_requirements_queried = false;
}

abbrev touch : Text
touch = codes "/interaction_profiles/oculus/touch_controller"

abbrev trigger : Text
trigger = codes "/user/hand/left/input/trigger/click"

trigger_valid : is_valid_binding_path_for_profile the_instance touch trigger ≡ true
unfolding is_valid_binding_path_for_profile
trigger_valid = refl

dpad_invalid :
    is_valid_binding_path_for_profile the_instance touch
      (codes "/user/hand/left/input/thumbstick/dpad_up")
    ≡ false
unfolding is_valid_binding_path_for_profile
dpad_invalid = refl

-- The path 1 is the left hand, 2 the trigger, 3 the profile.
abbrev fire : ActionCreateInfo numbers
fire = record {
  action_name = codes "fire";
  localized_action_name = codes "Fire";
  action_type = boolean_input;
  subaction_paths = 1 ∷ [];
  paths_given = true;
}

-- The set gets the handle 1, and the action 2.
abbrev set_up : List (Call numbers)
set_up =
    path_made left_hand
    ∷ path_made trigger
    ∷ path_made touch
    ∷ set_created true true true (codes "play") (codes "Play")
    ∷ action_created 1 true true fire
    ∷ bindings_suggested (some the_instance) true true true 3 ((2, 2) ∷ [])
    ∷ sets_attached true true (1 ∷ [])
    ∷ []

-- The trigger of the left hand is pressed.
abbrev devices : InputManager numbers
devices = record {
  current_interaction_profile = λ hand. touch;
  is_input_device_active = λ hand. true;
  boolean_component = λ hand component. same component (codes "trigger/click");
  float_component = λ hand component. 0;
  vector2f_component = λ hand component. record { x = 0; y = 0 };
}

set_up-careful : careful numbers set_up (empty numbers) ≡ true
unfolding careful
set_up-careful = refl

-- The action as it was made.
abbrev fire_action : ActionState numbers
fire_action = record {
  handle = 2;
  action_set = 1;
  name = codes "fire";
  localized_name = codes "Fire";
  action_type = boolean_input;
  subaction_paths = 1 ∷ [];
  subaction_data = [];
}

abbrev ready_runtime : Runtime
ready_runtime = record {
  next_handle = 3;
  handles = (2, 2) ∷ (1, 1) ∷ [];
  next_path = 4;
  path_to_string = (3, touch) ∷ (2, trigger) ∷ (1, left_hand) ∷ [];
  string_to_path = (touch, 3) ∷ (trigger, 2) ∷ (left_hand, 1) ∷ [];
}

-- The state behind the set-up.
abbrev ready : World numbers
ready = record {
  runtime = ready_runtime;
  action_sets = record { handle = 1; name = codes "play"; localized_name = codes "Play" } ∷ [];
  actions = fire_action ∷ [];
  suggested_bindings =
      (
        3,
        record {
          action_handle = 2;
          binding_path = 2;
          top_level_path = 1;
          binding_path_string = trigger;
          component_path = codes "trigger/click";
        }
            ∷ [],
      )
      ∷ [];
  action_sets_attached = true;
  attached_handles = 1 ∷ [];
}

ready_lem : run numbers set_up (empty numbers) ≡ some ready
unfolding run create_action_set destroy_action_set create_action
    suggest_interaction_profile_bindings attach_session_action_sets intern_path register_handle
    fresh string_to_path_call is_path_format starts_with_slash ends_with_slash has_double_slash
    has_bad_segment bad_segment has_bad_char rest_of is_path_char find_string intern
    is_valid_single_level_path_name is_valid_binding_path_for_profile
    is_known_interaction_profile_path top_level_of_binding component_from_binding_path
ready_lem = refl

-- The state behind one synchronisation at time 5, which also makes a path of the right hand.
abbrev fired : World numbers
fired = record ready {
  runtime = record ready_runtime {
    next_path = 5;
    path_to_string = (4, right_hand) ∷ ready_runtime.path_to_string;
    string_to_path = (right_hand, 4) ∷ ready_runtime.string_to_path;
  };
  actions =
      record fire_action {
        subaction_data =
            (
              1,
              record {
                is_active = true;
                bool_value = true;
                bool_changed = true;
                float_value = 0;
                float_changed = false;
                vector2f_value = record { x = 0; y = 0 };
                vector2f_changed = false;
                pose_active = false;
                pose_source_path = 0;
                last_change_time = 5;
                bound_sources = 2 ∷ [];
              },
            )
            ∷ [];
      }
      ∷ [];
}

fired_lem : sync_actions numbers (some devices) true [] 5 ready ≡ some (fired, success)
unfolding sync_actions string_to_path_call is_path_format starts_with_slash ends_with_slash
    has_double_slash has_bad_segment bad_segment has_bad_char rest_of is_path_char find_string
    intern
fired_lem = refl

fire_pressed : pressed numbers devices ready fire_action 1 ≡ true
unfolding pressed find_bindings intern_path string_to_path_call is_path_format starts_with_slash
    ends_with_slash has_double_slash has_bad_segment bad_segment has_bad_char rest_of is_path_char
    find_string intern
fire_pressed = refl

fire_found : find_action numbers 2 ready.actions ≡ some fire_action
unfolding find_action
fire_found = refl

fire_active : is_action_set_active numbers [] ready fire_action ≡ some true
unfolding is_action_set_active
fire_active = refl

fire_path : member 1 (resolved_subaction_paths numbers (1 ∷ [])) ≡ true
unfolding member resolved_subaction_paths
fire_path = refl

fire_paths_once : no_repeats (resolved_subaction_paths numbers (1 ∷ [])) ≡ true
unfolding no_repeats resolved_subaction_paths
fire_paths_once = refl

sync_actions-data_at_example :
    (a' : ActionState numbers) × (find_action numbers 2 fired.actions ≡ some a')
    × Synced numbers
        (bound_by_hands numbers devices ready fire_action 1)
        5
        (data_at numbers 1 fire_action)
        (data_at numbers 1 a')
sync_actions-data_at_example =
    sync_actions-data_at numbers devices [] 5 ready fired success fire_action 1 refl fired_lem
      fire_found fire_active fire_path fire_paths_once

sync_actions-pressed_example :
    (a' : ActionState numbers) × (find_action numbers 2 fired.actions ≡ some a')
    × ((data_at numbers 1 a').bool_value ≡ pressed numbers devices ready fire_action 1)
    × ((data_at numbers 1 a').bool_changed
        ≡ changes numbers
            (pressed numbers devices ready fire_action 1)
            (data_at numbers 1 fire_action).bool_value)
sync_actions-pressed_example =
    sync_actions-pressed numbers devices [] 5 ready fired success fire_action 1 refl refl fired_lem
      fire_found fire_active fire_path fire_paths_once

run-careful_example :
    (w : World numbers) × (run numbers set_up (empty numbers) ≡ some w) × Alive numbers w
run-careful_example = run-careful numbers set_up set_up-careful

-- The set is destroyed, and the action stays.
abbrev orphaned : World numbers
orphaned = (destroy_action_set numbers 1 ready).0

orphaned_lem : all_have_sets numbers orphaned.action_sets orphaned.actions ≡ false
unfolding destroy_action_set all_have_sets
orphaned_lem = refl

sync_actions_iff_example :
    (sync_actions numbers (some devices) true [] 5 orphaned ≡ none)
    ↔ (all_have_sets numbers orphaned.action_sets orphaned.actions ≡ false)
unfolding destroy_action_set
sync_actions_iff_example = sync_actions_iff numbers devices [] 5 orphaned refl

run-NamesUnique_example : NamesUnique numbers ready
run-NamesUnique_example = run-NamesUnique numbers set_up ready ready_lem

-- A second attachment and an action for the attached set.
abbrev too_late : List (Call numbers)
too_late = sets_attached true true (1 ∷ []) ∷ action_created 1 true true fire ∷ []

too_late_lem : run numbers too_late ready ≡ some ready
unfolding run create_action attach_session_action_sets
too_late_lem = refl

run-Frozen_example : Frozen numbers (λ h. false) ready ready
run-Frozen_example = run-Frozen numbers (λ h. false) too_late ready ready refl refl too_late_lem
