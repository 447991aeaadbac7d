-- ===== src/Actions/Memory/Runs.antt =====
-- runtime/src/EntryPoint.cpp: which runs of calls follow no dangling pointer, and when
-- OxrSyncActions does.
use open_xr_osx.Base.{
  ℕ, ◌≡◌, ◌↔◌, refl, sym, ap, ◌∙◌, inl, inr, Bool, true, false, Bool-cases, Option-cases, not, ◌&&◌,
  none, some, List, [], ◌∷◌, arith, All,
}
use open_xr_osx.Actions.State.{Scalars, ActionSetState, ActionState, World, find_set}
use open_xr_osx.Actions.Bindings.{
  suggest_interaction_profile_bindings, attach_session_action_sets, destroy_session,
  cleanup_runtime_state, is_set, intern_path,
}
use open_xr_osx.Actions.Aggregation.{Aggregate, InputManager, and_then, is_action_set_active}
use open_xr_osx.Actions.Sync.{sync_hands, sync_actions, apply_actions}
use open_xr_osx.Actions.Query.{get_current_interaction_profile}
use open_xr_osx.Actions.Calls.{
  Call, set_created, set_destroyed, action_created, action_destroyed, bindings_suggested,
  sets_attached, synced, profile_asked, path_made, session_destroyed, cleaned_up, step, run, empty,
  abandons, careful, true_if_none,
}
use open_xr_osx.Actions.Memory.{HasSet, Alive, sync_actions_lem, is_action_set_active_lem}
use open_xr_osx.Actions.Memory.Calls.{
  create_action_set-Alive, destroy_action_set-Alive, create_action-Alive, destroy_action-Alive,
  Untouched-Alive, suggest-Untouched, attach-Untouched, profile-Untouched,
  destroy_session-Untouched,
}

and_right : (a b : Bool) → (a && b) ≡ true → b ≡ true
and_right true b e = e
and_right false b e = cc

module _ (F : Scalars) where
  step_lem :
      (c : Call F) (w : World F)
      → abandons F c w ≡ false
      → Alive F w
      → (w' : World F) × (step F c w ≡ some w') × Alive F w'
  unfolding step cleanup_runtime_state
  step_lem (set_created i g t n l) w e alive =
      (_, refl, create_action_set-Alive F i g t n l w alive)
  step_lem (set_destroyed h) w e alive = (_, refl, destroy_action_set-Alive F h w e alive)
  step_lem (action_created s g t info) w e alive =
      (_, refl, create_action-Alive F s g t info w alive)
  step_lem (action_destroyed h) w e alive = (_, refl, destroy_action-Alive F h w alive)
  step_lem (bindings_suggested i g t l p bs) w e alive = (
    _,
    refl,
    Untouched-Alive F w (suggest_interaction_profile_bindings F i g t l p bs w).0
        (suggest-Untouched F i g t l p bs w) alive,
  )
  step_lem (sets_attached s g hs) w e alive = (
    _,
    refl,
    Untouched-Alive F w (attach_session_action_sets F s g hs w).0 (attach-Untouched F s g hs w)
        alive,
  )
  step_lem (synced i g hs t) w e alive =
      let (r, found, kept) = sync_actions_lem F i g hs t w alive in (r.0, rw found refl, kept)
  step_lem (profile_asked p g top) w e alive = (
    _,
    refl,
    Untouched-Alive F w (get_current_interaction_profile F p g top w).0
        (profile-Untouched F p g top w) alive,
  )
  step_lem (path_made text) w e alive =
      (record w { runtime = (intern_path text w.runtime).0 }, refl, alive)
  step_lem (session_destroyed s) w e alive = (
    _,
    refl,
    Untouched-Alive F w (destroy_session F s w).0 (destroy_session-Untouched F s w) alive,
  )
  step_lem cleaned_up w e alive = (_, refl, tt)

  run_lem :
      (cs : List (Call F)) (w : World F)
      → careful F cs w ≡ true
      → Alive F w
      → (w' : World F) × (run F cs w ≡ some w') × Alive F w'
  unfolding careful run
  run_lem [] w e alive = (w, refl, alive)
  run_lem (c ∷ cs) w e alive =
      let (w1, e1, alive1) = step_lem c w (ground (arith, e)) alive in
      let rest : careful F cs w1 ≡ true =
        and_right (not (abandons F c w)) (careful F cs w1)
          (sym (ap (λ o. not (abandons F c w) && true_if_none F o (careful F cs)) e1) ∙ e) in
      let (w2, e2, alive2) = run_lem cs w1 rest alive1 in
      (w2, ap (λ o. and_then o (run F cs)) e1 ∙ e2, alive2)

  -- From the start, a run that destroys no set which still has actions never follows a dangling
  -- pointer: it comes to its end, and then the set of every action is there.
  pub run-careful :
      (cs : List (Call F))
      → careful F cs (empty F) ≡ true
      → (w : World F) × (run F cs (empty F) ≡ some w) × Alive F w
  run-careful cs e = run_lem cs (empty F) e tt

  -- Every action's set is there.
  unfoldable pub all_have_sets : List ActionSetState → List (ActionState F) → Bool
  all_have_sets ss [] = true
  all_have_sets ss (a ∷ rest) = is_set (find_set a.action_set ss) && all_have_sets ss rest

  all_have_sets-HasSet :
      (ss : List ActionSetState) (xs : List (ActionState F))
      → all_have_sets ss xs ≡ true
      → All (HasSet F ss) xs
  unfolding all_have_sets
  all_have_sets-HasSet ss [] e = tt
  all_have_sets-HasSet ss (a ∷ rest) e =
      (ground (arith, e), all_have_sets-HasSet ss rest (and_right _ _ e))

  dangling_lem :
      (active : List ℕ) (w : World F) (a : ActionState F)
      → is_set (find_set a.action_set w.action_sets) ≡ false
      → is_action_set_active F active w a ≡ none
  unfolding is_action_set_active
  dangling_lem [] w a e = elim (Option-cases (find_set a.action_set w.action_sets)) [
    | inl o ↦ rw o refl
    | inr (s, o) ↦ absurd (ground (arith, e, o))
  ]
  dangling_lem (h ∷ hs) w a e = elim (Option-cases (find_set a.action_set w.action_sets)) [
    | inl o ↦ rw o refl
    | inr (s, o) ↦ absurd (ground (arith, e, o))
  ]

  apply_actions_dangling :
      (active : List ℕ) (w : World F) (t : ℕ) (gs : List (Aggregate F)) (xs : List (ActionState F))
      → all_have_sets w.action_sets xs ≡ false
      → apply_actions F active w t gs xs ≡ none
  unfolding all_have_sets apply_actions
  apply_actions_dangling active w t gs [] e = cc
  apply_actions_dangling active w t gs (a ∷ rest) e =
      elim (Bool-cases (is_set (find_set a.action_set w.action_sets))) [
        | inr o ↦ rw (dangling_lem active w a o) refl
        | inl o ↦
            let (on, found) = is_action_set_active_lem F active w a o in
            rw (found, apply_actions_dangling active w t gs rest (ground (arith, e, o))) refl
      ]

  -- While action sets are attached, a synchronisation follows a dangling pointer if and only if
  -- there is an action whose set is gone, be it bound or not.
  pub sync_actions_iff :
      (input : InputManager F) (active : List ℕ) (t : ℕ) (w : World F)
      → w.action_sets_attached ≡ true
      → (sync_actions F (some input) true active t w ≡ none)
        ↔ (all_have_sets w.action_sets w.actions ≡ false)
  unfolding sync_actions
  sync_actions_iff input active t w attached = (
    λ faults. elim (Bool-cases (all_have_sets w.action_sets w.actions)) [
      | inr e ↦ e
      | inl e ↦
          let (r, found, kept) =
            sync_actions_lem F (some input) true active t w
              (all_have_sets-HasSet w.action_sets w.actions e) in
          absurd (cc (found, faults))
    ],
    λ gone. elim (Option-cases (sync_hands F input active w)) [
      | inl e ↦ simp (attached, e)
      | inr (p, e) ↦ simp (attached, e, apply_actions_dangling active w t p.1 w.actions gone)
    ],
  )
