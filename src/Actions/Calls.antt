-- ===== src/Actions/Calls.antt =====
-- runtime/src/EntryPoint.cpp: the calls that change the action state, one after the other.
use open_xr_osx.Base.{
  ℕ, Bool, true, false, not, ◌&&◌, ◌||◌, Option, none, some, List, [], ◌∷◌, ◌==◌, Text,
}
use open_xr_osx.Instance.{Instance}
use open_xr_osx.Runtime.{fresh}
use open_xr_osx.Actions.State.{
  Scalars, ActionState, ActionCreateInfo, World, create_action_set, destroy_action_set,
  create_action, destroy_action,
}
use open_xr_osx.Actions.Bindings.{
  suggest_interaction_profile_bindings, attach_session_action_sets, destroy_session,
  cleanup_runtime_state, intern_path,
}
use open_xr_osx.Actions.Aggregation.{InputManager, Hand, and_then}
use open_xr_osx.Actions.Sync.{sync_actions}
use open_xr_osx.Actions.Query.{get_current_interaction_profile}

module _ (F : Scalars) where
  pub data Call : Type 0 where
    set_created : (has_instance given typed : Bool) (name localized_name : Text) → Call
    set_destroyed : (handle : ℕ) → Call
    action_created : (set : ℕ) (given typed : Bool) (info : ActionCreateInfo F) → Call
    action_destroyed : (handle : ℕ) → Call
    bindings_suggested :
        (instance_of : Option Instance) (given typed list_given : Bool) (profile : ℕ)
        (suggested : List (ℕ × ℕ))
        → Call
    sets_attached : (has_session given : Bool) (handles : List ℕ) → Call
    synced :
        (input : Option (InputManager F)) (given : Bool) (active_sets : List ℕ) (sync_time : ℕ)
        → Call
    profile_asked : (profile_of : Option (Hand → Text)) (given : Bool) (top_level_path : ℕ) → Call
    path_made : (text : Text) → Call
    session_destroyed : (has_session : Bool) → Call
    cleaned_up : Call

  -- The state behind a call; `none` is a use after free.
  unfoldable pub step : Call → World F → Option (World F)
  step (set_created i g t n l) w = some (create_action_set F i g t n l w).0
  step (set_destroyed h) w = some (destroy_action_set F h w).0
  step (action_created s g t info) w = some (create_action F s g t info w).0
  step (action_destroyed h) w = some (destroy_action F h w).0
  step (bindings_suggested i g t l p bs) w =
      some (suggest_interaction_profile_bindings F i g t l p bs w).0
  step (sets_attached s g hs) w = some (attach_session_action_sets F s g hs w).0
  step (synced i g hs t) w = and_then (sync_actions F i g hs t w) (λ r. some r.0)
  step (profile_asked p g top) w = some (get_current_interaction_profile F p g top w).0
  step (path_made text) w = some (record w { runtime = (intern_path text w.runtime).0 })
  step (session_destroyed s) w = some (destroy_session F s w).0
  step cleaned_up w = some (cleanup_runtime_state F w)

  unfoldable pub run : List Call → World F → Option (World F)
  unfolding step
  run [] w = some w
  run (c ∷ cs) w = and_then (step c w) (run cs)

  abbrev pub empty : World F
  empty = record {
    runtime = fresh;
    action_sets = [];
    actions = [];
    suggested_bindings = [];
    action_sets_attached = false;
    attached_handles = [];
  }

  -- An action is in the set.
  unfoldable pub has_action_in : ℕ → List (ActionState F) → Bool
  has_action_in h [] = false
  has_action_in h (a ∷ rest) = (a.action_set == h) || has_action_in h rest

  -- The call destroys a set that still has actions.
  abbrev pub abandons : Call → World F → Bool
  abandons (set_destroyed h) w = has_action_in h w.actions
  abandons (set_created i g t n l) w = false
  abandons (action_created s g t info) w = false
  abandons (action_destroyed h) w = false
  abandons (bindings_suggested i g t l p bs) w = false
  abandons (sets_attached s g hs) w = false
  abandons (synced i g hs t) w = false
  abandons (profile_asked p g top) w = false
  abandons (path_made text) w = false
  abandons (session_destroyed s) w = false
  abandons cleaned_up w = false

  abbrev pub true_if_none : Option (World F) → (World F → Bool) → Bool
  true_if_none none f = true
  true_if_none (some w) f = f w

  -- No call of the run abandons an action.
  unfoldable pub careful : List Call → World F → Bool
  unfolding step has_action_in
  careful [] w = true
  careful (c ∷ cs) w = not (abandons c w) && true_if_none (step c w) (careful cs)
