-- ===== src/Actions/Sync/Fold.antt =====
-- runtime/src/EntryPoint.cpp, OxrSyncActions: what is gathered for one action and one of its paths
-- is what its own bindings give, one after the other.
use open_xr_osx.Base.{
  ℕ, ◌≡◌, refl, sym, ap, subst, ◌∙◌, inl, inr, Bool, true, false, Bool-cases, not, ◌&&◌, Option,
  none, some, List, [], ◌∷◌, arith, ◌==◌, if◌then◌else◌, if-elim, same,
}
use open_xr_osx.Runtime.{Runtime}
use open_xr_osx.Actions.State.{Scalars, ActionState, SuggestedBinding, World, find_action}
use open_xr_osx.Actions.Bindings.{intern_path}
use open_xr_osx.Actions.Aggregation.{
  Hand, hand_path, InputManager, AggregatedActionState, Aggregate, find_aggregate, state_or_none,
  update_aggregate, accumulate_binding_state, is_action_set_active, path_for, bind_action,
  sync_bindings, sync_profile, sync_hand, find_bindings, and_then,
}

-- Inversion of a chain.
pub and_then-some {ℓ} :
    {A : Type ℓ} {B : Type 0} (o : Option A) (f : A → Option B) {b : B}
    → and_then o f ≡ some b
    → (a : A) × (o ≡ some a) × (f a ≡ some b)
and_then-some none f e = cc
and_then-some (some a) f e = (a, refl, e)

-- The branch that a test takes.
pub if_not-false {ℓ} :
    {A : Type ℓ} (b : Bool) (x y : A) {z : A} → b ≡ false → (if not b then x else y) ≡ z → x ≡ z
if_not-false true x y h e = absurd (ground (arith, h))
if_not-false false x y h e = e

pub if_not-true {ℓ} :
    {A : Type ℓ} (b : Bool) (x y : A) {z : A} → b ≡ true → (if not b then x else y) ≡ z → y ≡ z
if_not-true true x y h e = e
if_not-true false x y h e = absurd (ground (arith, h))

pub if_false {ℓ} :
    {A : Type ℓ} (b : Bool) (x y : A) {z : A} → b ≡ false → (if b then x else y) ≡ z → y ≡ z
if_false true x y h e = absurd (ground (arith, h))
if_false false x y h e = e

if_eq_some {ℓ} :
    {A : Type ℓ} (b : Bool) (x : A) (y : Option A) (z : A)
    → b ≡ true
    → (if b then some x else y) ≡ some z
    → z ≡ x
if_eq_some true x y z h e = cc
if_eq_some false x y z h e = absurd (ground (arith, h))

module _ (F : Scalars) where
  -- The binding is one of the action at the path.
  abbrev pub binds : (expected : ℕ) → ActionState F → ℕ → SuggestedBinding → Bool
  binds expected a p b =
      (b.top_level_path == expected)
      && ((b.action_handle == a.handle) && (path_for F a.subaction_paths b.top_level_path == p))

  -- The bindings of one action, one after the other.
  unfoldable pub bound_state :
      InputManager F
      → (expected : ℕ) → ActionState F
      → ℕ
      → List SuggestedBinding
      → AggregatedActionState F
      → AggregatedActionState F
  bound_state input expected a p [] s = s
  bound_state input expected a p (b ∷ bs) s =
      bound_state input expected a p bs
        (if binds expected a p b then accumulate_binding_state F input b a.action_type s else s)

  -- What `aggregatedStates` holds for an action at a path.
  abbrev pub gathered : ActionState F → ℕ → List (Aggregate F) → AggregatedActionState F
  gathered a p gs = state_or_none F (find_aggregate F a.handle p gs)

  same_key :
      (h k q p : ℕ) (gs : List (Aggregate F))
      → (h == k) ≡ true
      → (q == p) ≡ true
      → state_or_none F (find_aggregate F h q gs) ≡ state_or_none F (find_aggregate F k p gs)
  same_key h k q p gs e d =
      let e' : h ≡ k = ground (arith, e) in
      let d' : q ≡ p = ground (arith, d) in
      ap (λ x. state_or_none F (find_aggregate F x q gs)) e'
      ∙ ap (λ x. state_or_none F (find_aggregate F k x gs)) d'

  gathered-update_aggregate :
      (a : ActionState F) (p h q : ℕ) (f : AggregatedActionState F → AggregatedActionState F)
      (gs : List (Aggregate F))
      → gathered a p (update_aggregate F h q f gs)
        ≡ (if (h == a.handle) && (q == p) then f (gathered a p gs) else gathered a p gs)
  unfolding update_aggregate find_aggregate
  gathered-update_aggregate a p h q f gs = elim (Bool-cases (h == a.handle)) [
    | inr e ↦ rw e refl
    | inl e ↦ elim (Bool-cases (q == p)) [
      | inr d ↦ rw (e, d) refl
      | inl d ↦ rw (e, d) (ap f (same_key h a.handle q p gs e d))
    ]
  ]

  active_binding :
      (on : Bool) (updated gs gs' : List (Aggregate F))
      → on ≡ true
      → some (if on then updated else gs) ≡ some gs'
      → updated ≡ gs'
  active_binding true updated gs gs' on e = cc
  active_binding false updated gs gs' on e = absurd (ground (arith, on))

  own_binding :
      (input : InputManager F) (active : List ℕ) (w : World F) (b : SuggestedBinding)
      (a : ActionState F) (gs gs' : List (Aggregate F))
      → is_action_set_active F active w a ≡ some true
      → bind_action F input active w b (some a) gs ≡ some gs'
      → update_aggregate F b.action_handle
          (path_for F a.subaction_paths b.top_level_path)
          (accumulate_binding_state F input b a.action_type)
          gs
        ≡ gs'
  own_binding input active w b a gs gs' on e =
      let (active_now, e1, e2) = and_then-some (is_action_set_active F active w a) _ e in
      let is_on : active_now ≡ true = cc in active_binding active_now _ gs gs' is_on e2

  other_binding :
      (input : InputManager F) (active : List ℕ) (w : World F) (b : SuggestedBinding)
      (a : ActionState F) (p : ℕ) (gs gs' : List (Aggregate F)) (o : Option (ActionState F))
      → (b.action_handle == a.handle) ≡ false
      → bind_action F input active w b o gs ≡ some gs'
      → gathered a p gs' ≡ gathered a p gs
  other_binding input active w b a p gs gs' none other e =
      let e' : gs' ≡ gs = cc in ap (gathered a p) e'
  other_binding input active w b a p gs gs' (some a') other e =
      let (on, e1, e2) = and_then-some (is_action_set_active F active w a') _ e in
      let f = accumulate_binding_state F input b a'.action_type in
      let q = path_for F a'.subaction_paths b.top_level_path in
      let e3 : gs' ≡ (if on then update_aggregate F b.action_handle q f gs else gs) = cc in
      ap (gathered a p) e3
      ∙ if-elim (λ xs. gathered a p xs ≡ gathered a p gs) on
          (λ _. gathered-update_aggregate a p b.action_handle q f gs ∙ rw other refl) (λ _. refl)

  -- One binding.
  bind_action-gathered :
      (input : InputManager F) (active : List ℕ) (w : World F) (b : SuggestedBinding)
      (a : ActionState F) (p : ℕ) (gs gs' : List (Aggregate F))
      → find_action F a.handle w.actions ≡ some a
      → is_action_set_active F active w a ≡ some true
      → bind_action F input active w b (find_action F b.action_handle w.actions) gs ≡ some gs'
      → gathered a p gs' ≡ (
          if (b.action_handle == a.handle) && (path_for F a.subaction_paths b.top_level_path == p)
          then accumulate_binding_state F input b a.action_type (gathered a p gs)
          else gathered a p gs)
  bind_action-gathered input active w b a p gs gs' found on e =
      elim (Bool-cases (b.action_handle == a.handle)) [
        | inl mine ↦
            let same_handle : b.action_handle ≡ a.handle = ground (arith, mine) in
            let here = ap (λ h. find_action F h w.actions) same_handle ∙ found in
            rw mine (
              sym (
                ap (gathered a p) (
                  own_binding input active w b a gs gs' on
                    (subst (λ o. bind_action F input active w b o gs ≡ some gs') here e)))
              ∙ gathered-update_aggregate a p b.action_handle _ _ gs
              ∙ rw mine refl)
        | inr other ↦ rw other (
            other_binding input active w b a p gs gs' (find_action F b.action_handle w.actions)
              other e)
      ]

  sync_bindings-gathered :
      (input : InputManager F) (active : List ℕ) (w : World F) (expected : ℕ) (a : ActionState F)
      (p : ℕ) (bs : List SuggestedBinding) (gs gs' : List (Aggregate F))
      → find_action F a.handle w.actions ≡ some a
      → is_action_set_active F active w a ≡ some true
      → sync_bindings F input active w expected bs gs ≡ some gs'
      → gathered a p gs' ≡ bound_state input expected a p bs (gathered a p gs)
  unfolding sync_bindings bound_state
  sync_bindings-gathered input active w expected a p [] gs gs' found on e =
      let e' : gs' ≡ gs = cc in ap (gathered a p) e'
  sync_bindings-gathered input active w expected a p (b ∷ bs) gs gs' found on e =
      elim (Bool-cases (b.top_level_path == expected)) [
        | inr other ↦ rw other (
            sync_bindings-gathered input active w expected a p bs gs gs' found on
              (if_not-false (b.top_level_path == expected) _ _ other e))
        | inl mine ↦
            let (gs1, e1, e2) =
              and_then-some
                (bind_action F input active w b (find_action F b.action_handle w.actions) gs) _
                (if_not-true (b.top_level_path == expected) _ _ mine e) in
            sync_bindings-gathered input active w expected a p bs gs1 gs' found on e2
            ∙ ap (bound_state input expected a p bs)
                (bind_action-gathered input active w b a p gs gs1 found on e1 ∙ rw mine refl)
      ]

  -- One hand: the profile and the hand's path are interned, and the bindings for the profile are
  -- those of the action.
  abbrev pub profile_state :
      InputManager F
      → ActionState F
      → ℕ
      → Hand
      → Option (List SuggestedBinding)
      → Runtime × AggregatedActionState F
      → Runtime × AggregatedActionState F
  profile_state input a p hand none (r, s) = (r, s)
  profile_state input a p hand (some bs) (r, s) =
      let (r', expected) = intern_path (hand_path hand) r in
      (r', bound_state input expected a p bs s)

  unfoldable pub hand_state :
      InputManager F
      → World F
      → ActionState F
      → ℕ
      → Hand
      → Runtime × AggregatedActionState F
      → Runtime × AggregatedActionState F
  unfolding bound_state
  hand_state input w a p hand (r, s) =
      let profile = input.current_interaction_profile hand in
      let (r', path) = intern_path profile r in
      if same profile []
      then (r, s)
      else profile_state input a p hand (find_bindings path w.suggested_bindings) (r', s)

  sync_profile-gathered :
      (input : InputManager F) (active : List ℕ) (w : World F) (hand : Hand) (a : ActionState F)
      (p : ℕ) (o : Option (List SuggestedBinding)) (r : Runtime) (gs : List (Aggregate F))
      (q : Runtime × List (Aggregate F))
      → find_action F a.handle w.actions ≡ some a
      → is_action_set_active F active w a ≡ some true
      → sync_profile F input active w hand o r gs ≡ some q
      → (q.0, gathered a p q.1) ≡ profile_state input a p hand o (r, gathered a p gs)
  sync_profile-gathered input active w hand a p none r gs q found on e =
      let e' : q ≡ (r, gs) = cc in ap (λ x. (x.0, gathered a p x.1)) e'
  sync_profile-gathered input active w hand a p (some bs) r gs q found on e =
      let (r', expected) = intern_path (hand_path hand) r in
      let (gs', e1, e2) = and_then-some (sync_bindings F input active w expected bs gs) _ e in
      let e' : q ≡ (r', gs') = cc in
      ap (λ x. (x.0, gathered a p x.1)) e'
      ∙ ap (λ x. (r', x)) (sync_bindings-gathered input active w expected a p bs gs gs' found on e1)

  pub sync_hand-gathered :
      (input : InputManager F) (active : List ℕ) (w : World F) (hand : Hand) (a : ActionState F)
      (p : ℕ) (g q : Runtime × List (Aggregate F))
      → find_action F a.handle w.actions ≡ some a
      → is_action_set_active F active w a ≡ some true
      → sync_hand F input active w hand g ≡ some q
      → (q.0, gathered a p q.1) ≡ hand_state input w a p hand (g.0, gathered a p g.1)
  unfolding sync_hand hand_state
  sync_hand-gathered input active w hand a p (r, gs) q found on e =
      let profile = input.current_interaction_profile hand in
      let (r', path) = intern_path profile r in
      elim (Bool-cases (same profile [])) [
        | inl absent ↦
            let e' : q ≡ (r, gs) = if_eq_some (same profile []) _ _ _ absent e in
            rw absent (ap (λ x. (x.0, gathered a p x.1)) e')
        | inr there ↦ rw there (
            sync_profile-gathered input active w hand a p (find_bindings path w.suggested_bindings)
              r' gs q found on (if_false (same profile []) _ _ there e))
      ]
