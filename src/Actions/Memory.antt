-- ===== src/Actions/Memory.antt =====
-- runtime/src/EntryPoint.cpp: the pointer of an action to its set is followed by OxrSyncActions and
-- by every query. It is good as long as no set is destroyed that still has actions.
pub mod Calls
pub mod Runs
use open_xr_osx.Base.{
  ℕ, ◌≡◌, ◌≢◌, ◌↔◌, refl, sym, ap, subst, ◌∙◌, ◌⊎◌, inl, inr, Bool, true, false, Bool-cases,
  Option-cases, not, ◌&&◌, ◌||◌, Option, none, some, List, [], ◌∷◌, ◌++◌, arith, ◌==◌,
  if◌then◌else◌, if-elim, same, All, All-append,
}
use open_xr_osx.Runtime.{Runtime}
use open_xr_osx.Xr.{Result, success, validation_failure, actionset_not_attached}
use open_xr_osx.Actions.State.{
  Scalars, ActionSetState, ActionState, SuggestedBinding, ActionType, World, find_set, member,
  erase_set, find_action, erase_action, create_action_set, create_action, destroy_action_set,
  destroy_action, add_set, add_action, create_in, remove_set, remove_action,
}
use open_xr_osx.Actions.Bindings.{
  intern_path, suggest_interaction_profile_bindings, attach_session_action_sets, destroy_session,
  cleanup_runtime_state, is_set, store_bindings,
}
use open_xr_osx.Actions.Aggregation.{
  InputManager, Hand, left, right, Aggregate, and_then, is_action_set_active, bind_action,
  sync_bindings, sync_profile, sync_hand, find_bindings, update_aggregate, path_for,
  accumulate_binding_state, hand_path,
}
use open_xr_osx.Actions.Sync.{
  sync_hands, apply_actions, apply_paths, resolved_subaction_paths, sync_actions,
}
use open_xr_osx.Actions.Query.{get_current_interaction_profile, is_action_attached}
use open_xr_osx.Actions.Calls.{Call, step, run, empty, has_action_in, abandons, careful}

pub find_set-handle :
    (h : ℕ) (ss : List ActionSetState) (s : ActionSetState) → find_set h ss ≡ some s → s.handle ≡ h
unfolding find_set
find_set-handle h [] s e = cc
find_set-handle h (t ∷ ts) s e = ground (arith, find_set-handle h ts s)

pub find_set-append :
    (h : ℕ) (ss ts : List ActionSetState)
    → is_set (find_set h ss) ≡ true
    → is_set (find_set h (ss ++ ts)) ≡ true
unfolding find_set
find_set-append h [] ts e = cc
find_set-append h (s ∷ ss) ts e = ground (arith, find_set-append h ss ts)

find_set-erase_set :
    (k h : ℕ) (ss : List ActionSetState)
    → (k == h) ≡ false
    → find_set k (erase_set h ss) ≡ find_set k ss
unfolding find_set erase_set
find_set-erase_set k h [] e = refl
find_set-erase_set k h (s ∷ ss) e = ground (arith, find_set-erase_set k h ss)

module _ (F : Scalars) where
  -- The action's set is there.
  abbrev pub HasSet : List ActionSetState → ActionState F → Type 0
  HasSet ss a = is_set (find_set a.action_set ss) ≡ true

  abbrev pub Alive : World F → Type 0
  Alive w = All (HasSet w.action_sets) w.actions

  pub All-mono {κ} :
      (P Q : ActionState F → Type κ) (xs : List (ActionState F))
      → ((a : ActionState F) → P a → Q a)
      → All P xs
      → All Q xs
  All-mono P Q [] f h = tt
  All-mono P Q (x ∷ xs) f h = (f x h.0, All-mono P Q xs f h.1)

  find_action-HasSet :
      (h : ℕ) (ss : List ActionSetState) (xs : List (ActionState F)) (a : ActionState F)
      → All (HasSet ss) xs
      → find_action F h xs ≡ some a
      → HasSet ss a
  unfolding find_action
  find_action-HasSet h ss [] a g e = cc
  find_action-HasSet h ss (x ∷ xs) a g e = elim (Bool-cases (x.handle == h)) [
    | inl found ↦ let e' : x ≡ a = ground (arith, e) in subst (HasSet ss) e' g.0
    | inr other ↦ find_action-HasSet h ss xs a g.1 (ground (arith, e))
  ]

  pub erase_action-HasSet :
      (h : ℕ) (ss : List ActionSetState) (xs : List (ActionState F))
      → All (HasSet ss) xs
      → All (HasSet ss) (erase_action F h xs)
  unfolding erase_action
  erase_action-HasSet h ss [] g = tt
  erase_action-HasSet h ss (x ∷ xs) g =
      if-elim (All (HasSet ss)) (x.handle == h) (λ _. g.1)
        (λ _. (g.0, erase_action-HasSet h ss xs g.1))

  pub erase_set-HasSet :
      (h : ℕ) (ss : List ActionSetState) (xs : List (ActionState F))
      → has_action_in F h xs ≡ false
      → All (HasSet ss) xs
      → All (HasSet (erase_set h ss)) xs
  unfolding has_action_in
  erase_set-HasSet h ss [] e g = tt
  erase_set-HasSet h ss (x ∷ xs) e g = (
    ap is_set (find_set-erase_set x.action_set h ss (ground (arith, e))) ∙ g.0,
    erase_set-HasSet h ss xs (ground (arith, e)) g.1,
  )

  active_lem :
      (active : List ℕ) (w : World F) (a : ActionState F) (s : ActionSetState)
      → find_set a.action_set w.action_sets ≡ some s
      → (b : Bool) × (is_action_set_active F active w a ≡ some b)
  unfolding is_action_set_active
  active_lem [] w a s e = (member s.handle w.attached_handles, rw e refl)
  active_lem (h ∷ hs) w a s e = (member s.handle (h ∷ hs), rw e refl)

  -- A pointer to a set that is there can be followed.
  pub is_action_set_active_lem :
      (active : List ℕ) (w : World F) (a : ActionState F)
      → HasSet w.action_sets a
      → (b : Bool) × (is_action_set_active F active w a ≡ some b)
  unfolding is_action_set_active
  is_action_set_active_lem active w a g =
      elim (Option-cases (find_set a.action_set w.action_sets)) [
        | inl e ↦ absurd (ground (arith, e))
        | inr (s, e) ↦ active_lem active w a s e
      ]

  apply_paths-action_set :
      (t : ℕ) (gs : List (Aggregate F)) (ps : List ℕ) (a : ActionState F)
      → (apply_paths F t gs ps a).action_set ≡ a.action_set
  unfolding apply_paths
  apply_paths-action_set t gs [] a = refl
  apply_paths-action_set t gs (p ∷ ps) a = apply_paths-action_set t gs ps _

  bind_action_lem :
      (input : InputManager F) (active : List ℕ) (w : World F) (b : SuggestedBinding)
      (o : Option (ActionState F)) (gs : List (Aggregate F))
      → ((a : ActionState F) → o ≡ some a → HasSet w.action_sets a)
      → (gs' : List (Aggregate F)) × (bind_action F input active w b o gs ≡ some gs')
  bind_action_lem input active w b none gs g = (gs, refl)
  bind_action_lem input active w b (some a) gs g =
      let (on, e) = is_action_set_active_lem active w a (g a refl) in
      (
        (if on
            then update_aggregate F b.action_handle (path_for F a.subaction_paths b.top_level_path)
                (accumulate_binding_state F input b a.action_type) gs
            else gs),
        rw e refl,
      )

  sync_bindings_lem :
      (input : InputManager F) (active : List ℕ) (w : World F) (expected : ℕ)
      (bs : List SuggestedBinding) (gs : List (Aggregate F))
      → Alive w
      → (gs' : List (Aggregate F)) × (sync_bindings F input active w expected bs gs ≡ some gs')
  unfolding sync_bindings
  sync_bindings_lem input active w expected [] gs g = (gs, refl)
  sync_bindings_lem input active w expected (b ∷ bs) gs g =
      let (gs1, e1) =
        bind_action_lem input active w b (find_action F b.action_handle w.actions) gs
          (λ a e. find_action-HasSet b.action_handle w.action_sets w.actions a g e) in
      elim (Bool-cases (b.top_level_path == expected)) [
        | inl e ↦
            let (gs2, e2) = sync_bindings_lem input active w expected bs gs1 g in
            (gs2, rw e (rw e1 e2))
        | inr e ↦
            let (gs2, e2) = sync_bindings_lem input active w expected bs gs g in (gs2, rw e e2)
      ]

  sync_profile_lem :
      (input : InputManager F) (active : List ℕ) (w : World F) (hand : Hand)
      (o : Option (List SuggestedBinding)) (r : Runtime) (gs : List (Aggregate F))
      → Alive w
      → (p : Runtime × List (Aggregate F)) × (sync_profile F input active w hand o r gs ≡ some p)
  sync_profile_lem input active w hand none r gs g = ((r, gs), refl)
  sync_profile_lem input active w hand (some bs) r gs g =
      let (r', expected) = intern_path (hand_path hand) r in
      let (gs', e) = sync_bindings_lem input active w expected bs gs g in ((r', gs'), rw e refl)

  sync_hand_lem :
      (input : InputManager F) (active : List ℕ) (w : World F) (hand : Hand)
      (p : Runtime × List (Aggregate F))
      → Alive w
      → (q : Runtime × List (Aggregate F)) × (sync_hand F input active w hand p ≡ some q)
  unfolding sync_hand
  sync_hand_lem input active w hand p g =
      let profile = input.current_interaction_profile hand in
      let (r', path) = intern_path profile p.0 in
      elim (Bool-cases (same profile [])) [
        | inl e ↦ (p, rw e refl)
        | inr e ↦
            let (q, found) =
              sync_profile_lem input active w hand (find_bindings path w.suggested_bindings) r' p.1
                g in
            (q, rw e found)
      ]

  apply_actions_lem :
      (active : List ℕ) (w : World F) (t : ℕ) (gs : List (Aggregate F)) (xs : List (ActionState F))
      → All (HasSet w.action_sets) xs
      → (ys : List (ActionState F)) × (apply_actions F active w t gs xs ≡ some ys)
        × All (HasSet w.action_sets) ys
  unfolding apply_actions
  apply_actions_lem active w t gs [] g = ([], refl, tt)
  apply_actions_lem active w t gs (a ∷ rest) g =
      let (on, e) = is_action_set_active_lem active w a g.0 in
      let (ys, es, gy) = apply_actions_lem active w t gs rest g.1 in
      (
        (if on then apply_paths F t gs (resolved_subaction_paths F a.subaction_paths) a else a)
            ∷ ys,
        rw (e, es) refl,
        (
          if-elim (HasSet w.action_sets) on
              (λ _.
                subst (λ k. is_set (find_set k w.action_sets) ≡ true)
                  (sym
                    (apply_paths-action_set t gs (resolved_subaction_paths F a.subaction_paths) a))
                  g.0)
              (λ _. g.0),
          gy,
        ),
      )

  -- A synchronisation does not fault, and leaves the sets of the actions alone.
  pub sync_actions_lem :
      (input : Option (InputManager F)) (given : Bool) (active : List ℕ) (t : ℕ) (w : World F)
      → Alive w
      → (r : World F × Result) × (sync_actions F input given active t w ≡ some r) × Alive r.0
  unfolding sync_actions
  sync_actions_lem none given active t w g = ((w, validation_failure), refl, g)
  sync_actions_lem (some input) false active t w g = ((w, validation_failure), refl, g)
  sync_actions_lem (some input) true active t w g = elim (Bool-cases w.action_sets_attached) [
    | inr e ↦ ((w, actionset_not_attached), simp e, g)
    | inl e ↦
        let (p, e1) = sync_hand_lem input active w left (w.runtime, []) g in
        let (q, e2) = sync_hand_lem input active w right p g in
        let (ys, e3, gy) = apply_actions_lem active w t q.1 w.actions g in
        ((record w { runtime = q.0; actions = ys }, success), simp (e, e1, e2, e3), gy)
  ]
