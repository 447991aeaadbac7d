-- ===== src/Actions/Sync/Values.antt =====
-- runtime/src/EntryPoint.cpp, OxrSyncActions: the data of every active action is what its bindings
-- give.
use open_xr_osx.Base.{
  ℕ, ◌≡◌, refl, sym, ap, subst, ◌∙◌, inl, inr, Bool, true, false, Bool-cases, not, ◌&&◌, some, List,
  [], ◌∷◌, arith, ◌==◌, if◌then◌else◌, if-elim,
}
use open_xr_osx.Xr.{Result}
use open_xr_osx.Runtime.{Runtime}
use open_xr_osx.Actions.State.{Scalars, ActionState, SubactionData, World, find_action, member}
use open_xr_osx.Actions.Aggregation.{
  left, right, InputManager, AggregatedActionState, no_state, Aggregate, find_aggregate,
  is_action_set_active, sync_hand,
}
use open_xr_osx.Actions.Sync.{
  get_subaction_data, set_subaction_data, synced_data, apply_sync_state, apply_paths, apply_actions,
  resolved_subaction_paths, sync_hands, sync_actions,
}
use open_xr_osx.Actions.Sync.Told.{Synced, synced_data-Synced}
use open_xr_osx.Actions.Sync.Fold.{
  and_then-some, if_not-true, gathered, hand_state, sync_hand-gathered,
}

-- No path stands twice.
unfoldable pub no_repeats : List ℕ → Bool
unfolding member
no_repeats [] = true
no_repeats (p ∷ ps) = not (member p ps) && no_repeats ps

module _ (F : Scalars) where
  get-set_subaction_data :
      (p q : ℕ) (d : SubactionData F) (ds : List (ℕ × SubactionData F))
      → get_subaction_data F q (set_subaction_data F p d ds)
        ≡ (if p == q then d else get_subaction_data F q ds)
  unfolding get_subaction_data set_subaction_data
  get-set_subaction_data p q d [] = refl
  get-set_subaction_data p q d ((r, e) ∷ rest) = elim (Bool-cases (r == p)) [
    | inl same_path ↦ ground arith
    | inr other ↦ ground (arith, get-set_subaction_data p q d rest)
  ]

  -- The data of an action at a path.
  abbrev pub data_at : ℕ → ActionState F → SubactionData F
  data_at p a = get_subaction_data F p a.subaction_data

  apply_paths-handle :
      (t : ℕ) (gs : List (Aggregate F)) (ps : List ℕ) (a : ActionState F)
      → (apply_paths F t gs ps a).handle ≡ a.handle
  unfolding apply_paths
  apply_paths-handle t gs [] a = refl
  apply_paths-handle t gs (p ∷ ps) a = apply_paths-handle t gs ps _

  apply_paths_other :
      (t : ℕ) (gs : List (Aggregate F)) (ps : List ℕ) (a : ActionState F) (q : ℕ)
      → member q ps ≡ false
      → data_at q (apply_paths F t gs ps a) ≡ data_at q a
  unfolding apply_paths member apply_sync_state
  apply_paths_other t gs [] a q e = refl
  apply_paths_other t gs (p ∷ ps) a q e =
      apply_paths_other t gs ps (apply_sync_state F p (find_aggregate F a.handle p gs) t a) q
        (ground (arith, e))
      ∙ get-set_subaction_data p q _ a.subaction_data
      ∙ ground (arith, e)

  apply_paths_lem :
      (t : ℕ) (gs : List (Aggregate F)) (ps : List ℕ) (a : ActionState F) (q : ℕ)
      → member q ps ≡ true
      → no_repeats ps ≡ true
      → data_at q (apply_paths F t gs ps a) ≡ synced_data F (gathered F a q gs) t (data_at q a)
  unfolding apply_paths member no_repeats apply_sync_state
  apply_paths_lem t gs [] a q e d = cc
  apply_paths_lem t gs (p ∷ ps) a q e d = elim (Bool-cases (p == q)) [
    | inl here ↦
        let e' : p ≡ q = ground (arith, here) in
        let new = synced_data F (gathered F a p gs) t (data_at p a) in
        let gone : member q ps ≡ false = ap (λ k. member k ps) (sym e') ∙ ground (arith, d) in
        apply_paths_other t gs ps (apply_sync_state F p (find_aggregate F a.handle p gs) t a) q gone
        ∙ get-set_subaction_data p q new a.subaction_data
        ∙ ap (λ (b : Bool). if b then new else data_at q a) here
        ∙ ap (λ k. synced_data F (gathered F a k gs) t (data_at k a)) e'
    | inr there ↦
        let new = synced_data F (gathered F a p gs) t (data_at p a) in
        apply_paths_lem t gs ps (apply_sync_state F p (find_aggregate F a.handle p gs) t a) q
          (ground (arith, e, there)) (ground (arith, d))
        ∙ ap (synced_data F (gathered F a q gs) t) (
            get-set_subaction_data p q new a.subaction_data
            ∙ ap (λ (b : Bool). if b then new else data_at q a) there)
  ]

  find_head :
      (h : ℕ) (y : ActionState F) (zs : List (ActionState F))
      → (y.handle == h) ≡ true
      → find_action F h (y ∷ zs) ≡ some y
  unfolding find_action
  find_head h y zs e = simp e

  find_tail :
      (h : ℕ) (y : ActionState F) (zs : List (ActionState F))
      → (y.handle == h) ≡ false
      → find_action F h (y ∷ zs) ≡ find_action F h zs
  unfolding find_action
  find_tail h y zs e = simp e

  head_found :
      (h : ℕ) (x : ActionState F) (rest : List (ActionState F)) (a : ActionState F)
      → (x.handle == h) ≡ true
      → find_action F h (x ∷ rest) ≡ some a
      → x ≡ a
  head_found h x rest a here found = let e = sym (find_head h x rest here) ∙ found in cc

  apply_actions_lem :
      (active : List ℕ) (w : World F) (t : ℕ) (gs : List (Aggregate F))
      (xs ys : List (ActionState F)) (a : ActionState F) (h : ℕ)
      → apply_actions F active w t gs xs ≡ some ys
      → find_action F h xs ≡ some a
      → is_action_set_active F active w a ≡ some true
      → find_action F h ys
        ≡ some (apply_paths F t gs (resolved_subaction_paths F a.subaction_paths) a)
  unfolding apply_actions find_action
  apply_actions_lem active w t gs [] ys a h e found on = cc
  apply_actions_lem active w t gs (x ∷ rest) ys a h e found on =
      let (now, e1, e2) = and_then-some (is_action_set_active F active w x) _ e in
      let (zs, e3, e4) = and_then-some (apply_actions F active w t gs rest) _ e2 in
      let moved = λ (y : ActionState F).
        apply_paths F t gs (resolved_subaction_paths F y.subaction_paths) y in
      let y = if now then moved x else x in
      let e5 : ys ≡ y ∷ zs = cc in
      let kept : y.handle ≡ x.handle =
        if-elim {A = ActionState F} (λ z. z.handle ≡ x.handle) now
          (λ _. apply_paths-handle t gs (resolved_subaction_paths F x.subaction_paths) x)
          (λ _. refl) in
      elim (Bool-cases (x.handle == h)) [
        | inl here ↦
            let x_is_a : x ≡ a = head_found h x rest a here found in
            let is_on : now ≡ true = cc (ap (is_action_set_active F active w) x_is_a) in
            ap (find_action F h) e5
            ∙ find_head h y zs (ap (λ k. k == h) kept ∙ here)
            ∙ ap some (ap (λ (b : Bool). if b then moved x else x) is_on ∙ ap moved x_is_a)
        | inr there ↦
            ap (find_action F h) e5
            ∙ find_tail h y zs (ap (λ k. k == h) kept ∙ there)
            ∙ apply_actions_lem active w t gs rest zs a h e3
                (sym (find_tail h x rest there) ∙ found) on
      ]

  -- What the bindings of both hands give for an action at a path.
  unfoldable pub bound_by_hands :
      InputManager F → World F → ActionState F → ℕ → AggregatedActionState F
  unfolding hand_state
  bound_by_hands input w a p =
      (hand_state F input w a p right (hand_state F input w a p left (w.runtime, no_state F))).1

  sync_hands-gathered :
      (input : InputManager F) (active : List ℕ) (w : World F) (a : ActionState F) (p : ℕ)
      (q : Runtime × List (Aggregate F))
      → find_action F a.handle w.actions ≡ some a
      → is_action_set_active F active w a ≡ some true
      → sync_hands F input active w ≡ some q
      → gathered F a p q.1 ≡ bound_by_hands input w a p
  unfolding bound_by_hands find_aggregate
  sync_hands-gathered input active w a p q found on e =
      let (g, e1, e2) =
        and_then-some (sync_hand F input active w left (w.runtime, []))
          (sync_hand F input active w right) e in
      ap (λ x. x.1) (sync_hand-gathered F input active w right a p g q found on e2)
      ∙ ap (λ x. (hand_state F input w a p right x).1)
          (sync_hand-gathered F input active w left a p (w.runtime, []) g found on e1)

  -- In terms of the code.
  pub sync_actions-synced_data :
      (input : InputManager F) (active : List ℕ) (t : ℕ) (w w' : World F) (r : Result)
      (a : ActionState F) (p : ℕ)
      → w.action_sets_attached ≡ true
      → sync_actions F (some input) true active t w ≡ some (w', r)
      → find_action F a.handle w.actions ≡ some a
      → is_action_set_active F active w a ≡ some true
      → member p (resolved_subaction_paths F a.subaction_paths) ≡ true
      → no_repeats (resolved_subaction_paths F a.subaction_paths) ≡ true
      → (a' : ActionState F) × (find_action F a.handle w'.actions ≡ some a')
        × (data_at p a' ≡ synced_data F (bound_by_hands input w a p) t (data_at p a))
  unfolding sync_actions
  sync_actions-synced_data input active t w w' r a p attached e found on here once =
      let paths = resolved_subaction_paths F a.subaction_paths in
      let (q, e1, e2) =
        and_then-some (sync_hands F input active w) _
          (if_not-true w.action_sets_attached _ _ attached e) in
      let (ys, e3, e4) = and_then-some (apply_actions F active w t q.1 w.actions) _ e2 in
      let e5 : w'.actions ≡ ys = cc in
      (
        apply_paths F t q.1 paths a,
        ap (find_action F a.handle) e5
            ∙ apply_actions_lem active w t q.1 w.actions ys a a.handle e3 found on,
        apply_paths_lem t q.1 paths a p here once
            ∙ ap (λ s. synced_data F s t (data_at p a))
                (sync_hands-gathered input active w a p q found on e1),
      )

  -- After a synchronisation at time `t`, an action of an active set, with action sets attached and
  -- no path twice, has at each of its paths the values that its own suggested bindings give for the
  -- current profiles of the hands, one after the other. Each value counts as changed if and only if
  -- it differs from the one before (floats: by more than `differs` allows), and the time of the last
  -- change is `t` if anything has changed, a pose or its source included, and the old one if not.
  pub sync_actions-data_at :
      (input : InputManager F) (active : List ℕ) (t : ℕ) (w w' : World F) (r : Result)
      (a : ActionState F) (p : ℕ)
      → w.action_sets_attached ≡ true
      → sync_actions F (some input) true active t w ≡ some (w', r)
      → find_action F a.handle w.actions ≡ some a
      → is_action_set_active F active w a ≡ some true
      → member p (resolved_subaction_paths F a.subaction_paths) ≡ true
      → no_repeats (resolved_subaction_paths F a.subaction_paths) ≡ true
      → (a' : ActionState F) × (find_action F a.handle w'.actions ≡ some a')
        × Synced F (bound_by_hands input w a p) t (data_at p a) (data_at p a')
  sync_actions-data_at input active t w w' r a p attached e found on here once =
      let (a', found', now) =
        sync_actions-synced_data input active t w w' r a p attached e found on here once in
      (
        a',
        found',
        subst (Synced F (bound_by_hands input w a p) t (data_at p a)) (sym now)
            (synced_data-Synced F (bound_by_hands input w a p) t (data_at p a)),
      )
