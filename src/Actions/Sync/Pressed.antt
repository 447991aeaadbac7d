-- ===== src/Actions/Sync/Pressed.antt =====
-- runtime/src/EntryPoint.cpp, OxrSyncActions: when a Boolean action is on.
use open_xr_osx.Base.{
  ℕ, ◌≡◌, refl, ap, ◌∙◌, inl, inr, Bool, true, false, Bool-cases, not, ◌&&◌, ◌||◌, Option, none,
  some, List, [], ◌∷◌, arith, ◌==◌, if◌then◌else◌, same,
}
use open_xr_osx.Xr.{Result}
use open_xr_osx.Runtime.{Runtime}
use open_xr_osx.Actions.State.{
  Scalars, ActionState, SuggestedBinding, World, find_action, member, boolean_input,
}
use open_xr_osx.Actions.Bindings.{intern_path}
use open_xr_osx.Actions.Aggregation.{
  Hand, left, right, InputManager, AggregatedActionState, no_state, is_action_set_active,
  accumulate_binding_state, hand_from_binding_path, find_bindings, hand_path,
}
use open_xr_osx.Actions.Sync.{synced_data, resolved_subaction_paths, changes, sync_actions}
use open_xr_osx.Actions.Sync.Fold.{binds, bound_state, profile_state, hand_state}
use open_xr_osx.Actions.Sync.Values.{no_repeats, data_at, bound_by_hands, sync_actions-synced_data}

module _ (F : Scalars) where
  -- The binding is pressed: its device is active and its component is.
  abbrev pub is_pressed : InputManager F → SuggestedBinding → Bool
  is_pressed input b =
      let hand = hand_from_binding_path b.binding_path_string in
      not (b.top_level_path == 0)
      && (input.is_input_device_active hand && input.boolean_component hand b.component_path)

  -- One of the action's bindings is pressed.
  unfoldable pub any_pressed :
      InputManager F → (expected : ℕ) → ActionState F → ℕ → List SuggestedBinding → Bool
  unfolding hand_from_binding_path
  any_pressed input expected a p [] = false
  any_pressed input expected a p (b ∷ bs) =
      (binds F expected a p b && is_pressed input b) || any_pressed input expected a p bs

  accumulate-bool_value :
      (input : InputManager F) (b : SuggestedBinding) (s : AggregatedActionState F)
      → (accumulate_binding_state F input b boolean_input s).bool_value
        ≡ (s.bool_value || is_pressed input b)
  unfolding accumulate_binding_state
  accumulate-bool_value input b s = ground arith

  one_lem :
      (input : InputManager F) (expected : ℕ) (a : ActionState F) (p : ℕ) (b : SuggestedBinding)
      (s : AggregatedActionState F)
      → a.action_type ≡ boolean_input
      → (if binds F expected a p b
          then accumulate_binding_state F input b a.action_type s
          else s).bool_value
        ≡ (s.bool_value || (binds F expected a p b && is_pressed input b))
  one_lem input expected a p b s bool = elim (Bool-cases (binds F expected a p b)) [
    | inl mine ↦ rw mine (
        ap (λ k. (accumulate_binding_state F input b k s).bool_value) bool
        ∙ accumulate-bool_value input b s)
    | inr other ↦ rw other (ground arith)
  ]

  or_assoc : (x y z : Bool) → ((x || y) || z) ≡ (x || (y || z))
  or_assoc true y z = refl
  or_assoc false y z = refl

  -- A Boolean action is on if and only if it was or one of its bindings is pressed.
  pub bound_state-bool_value :
      (input : InputManager F) (expected : ℕ) (a : ActionState F) (p : ℕ)
      (bs : List SuggestedBinding) (s : AggregatedActionState F)
      → a.action_type ≡ boolean_input
      → (bound_state F input expected a p bs s).bool_value
        ≡ (s.bool_value || any_pressed input expected a p bs)
  unfolding bound_state any_pressed
  bound_state-bool_value input expected a p [] s bool = ground arith
  bound_state-bool_value input expected a p (b ∷ bs) s bool =
      let s' =
        if binds F expected a p b then accumulate_binding_state F input b a.action_type s else s in
      bound_state-bool_value input expected a p bs s' bool
      ∙ ap (λ v. v || any_pressed input expected a p bs) (one_lem input expected a p b s bool)
      ∙ or_assoc s.bool_value (binds F expected a p b && is_pressed input b)
          (any_pressed input expected a p bs)

  -- One of the action's bindings for the profile of the hand is pressed.
  abbrev profile_pressed :
      InputManager F
      → ActionState F
      → ℕ
      → Hand
      → Option (List SuggestedBinding)
      → Runtime
      → Runtime × Bool
  profile_pressed input a p hand none r = (r, false)
  profile_pressed input a p hand (some bs) r =
      let (r', expected) = intern_path (hand_path hand) r in (r', any_pressed input expected a p bs)

  unfoldable pub hand_pressed :
      InputManager F → World F → ActionState F → ℕ → Hand → Runtime → Runtime × Bool
  unfolding any_pressed
  hand_pressed input w a p hand r =
      let profile = input.current_interaction_profile hand in
      let (r', path) = intern_path profile r in
      if same profile []
      then (r, false)
      else profile_pressed input a p hand (find_bindings path w.suggested_bindings) r'

  abbrev with_bool : Runtime × AggregatedActionState F → Runtime × Bool
  with_bool (r, s) = (r, s.bool_value)

  abbrev or_bool : Bool → Runtime × Bool → Runtime × Bool
  or_bool v (r, u) = (r, v || u)

  or_false : (x : Bool) → x ≡ (x || false)
  or_false true = refl
  or_false false = refl

  profile_state-bool_value :
      (input : InputManager F) (a : ActionState F) (p : ℕ) (hand : Hand)
      (o : Option (List SuggestedBinding)) (r : Runtime) (s : AggregatedActionState F)
      → a.action_type ≡ boolean_input
      → with_bool (profile_state F input a p hand o (r, s))
        ≡ or_bool s.bool_value (profile_pressed input a p hand o r)
  profile_state-bool_value input a p hand none r s bool = ap (λ v. (r, v)) (or_false s.bool_value)
  profile_state-bool_value input a p hand (some bs) r s bool =
      let (r', expected) = intern_path (hand_path hand) r in
      ap (λ v. (r', v)) (bound_state-bool_value input expected a p bs s bool)

  hand_state-bool_value :
      (input : InputManager F) (w : World F) (a : ActionState F) (p : ℕ) (hand : Hand) (r : Runtime)
      (s : AggregatedActionState F)
      → a.action_type ≡ boolean_input
      → with_bool (hand_state F input w a p hand (r, s))
        ≡ or_bool s.bool_value (hand_pressed input w a p hand r)
  unfolding hand_state hand_pressed
  hand_state-bool_value input w a p hand r s bool =
      let profile = input.current_interaction_profile hand in
      let (r', path) = intern_path profile r in
      elim (Bool-cases (same profile [])) [
        | inl absent ↦ rw absent (ap (λ v. (r, v)) (or_false s.bool_value))
        | inr there ↦ rw there (
            profile_state-bool_value input a p hand (find_bindings path w.suggested_bindings) r' s
              bool)
      ]

  -- One of the action's bindings at the path is pressed, for the left hand or for the right.
  unfoldable pub pressed : InputManager F → World F → ActionState F → ℕ → Bool
  unfolding hand_pressed
  pressed input w a p =
      let (r, left_pressed) = hand_pressed input w a p left w.runtime in
      left_pressed || (hand_pressed input w a p right r).1

  bound_by_hands-pressed :
      (input : InputManager F) (w : World F) (a : ActionState F) (p : ℕ)
      → a.action_type ≡ boolean_input
      → (bound_by_hands F input w a p).bool_value ≡ pressed input w a p
  unfolding bound_by_hands pressed
  bound_by_hands-pressed input w a p bool =
      let g = hand_state F input w a p left (w.runtime, no_state F) in
      let first = hand_state-bool_value input w a p left w.runtime (no_state F) bool in
      ap (λ x. x.1) (hand_state-bool_value input w a p right g.0 g.1 bool)
      ∙ ap (λ x. x.1 || (hand_pressed input w a p right x.0).1) first

  -- After a synchronisation, a Boolean action of an active set is on at a path if and only if one
  -- of its suggested bindings there is pressed on an active device, and it is told to have changed
  -- if and only if it was in the other state before.
  pub sync_actions-pressed :
      (input : InputManager F) (active : List ℕ) (t : ℕ) (w w' : World F) (r : Result)
      (a : ActionState F) (p : ℕ)
      → a.action_type ≡ boolean_input
      → w.action_sets_attached ≡ true
      → sync_actions F (some input) true active t w ≡ some (w', r)
      → find_action F a.handle w.actions ≡ some a
      → is_action_set_active F active w a ≡ some true
      → member p (resolved_subaction_paths F a.subaction_paths) ≡ true
      → no_repeats (resolved_subaction_paths F a.subaction_paths) ≡ true
      → (a' : ActionState F) × (find_action F a.handle w'.actions ≡ some a')
        × ((data_at F p a').bool_value ≡ pressed input w a p)
        × ((data_at F p a').bool_changed
            ≡ changes F (pressed input w a p) (data_at F p a).bool_value)
  unfolding synced_data
  sync_actions-pressed input active t w w' r a p bool attached e found on here once =
      let (a', e1, e2) =
        sync_actions-synced_data F input active t w w' r a p attached e found on here once in
      let on_lem = bound_by_hands-pressed input w a p bool in
      (
        a',
        e1,
        ap (λ d. d.bool_value) e2 ∙ on_lem,
        ap (λ d. d.bool_changed) e2 ∙ ap (λ v. changes F v (data_at F p a).bool_value) on_lem,
      )
