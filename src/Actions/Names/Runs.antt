-- ===== src/Actions/Names/Runs.antt =====
-- runtime/src/EntryPoint.cpp: no call makes a second object with a name that is taken.
use open_xr_osx.Base.{
  ℕ, ◌≡◌, refl, sym, ap, subst, ◌∙◌, inl, inr, Bool, true, false, Bool-cases, Option-cases, not,
  ◌&&◌, ◌||◌, Option, none, some, List, [], ◌∷◌, map, arith, if◌then◌else◌, if-elim, All, same,
  Text, ltb, length,
}
use open_xr_osx.Xr.{Result, actionset_not_attached}
use open_xr_osx.Actions.Strings.{is_valid_single_level_path_name}
use open_xr_osx.Actions.State.{
  Scalars, ActionSetState, ActionState, ActionCreateInfo, World, duplicate_set, duplicate_action,
  check_subaction_paths, find_set, find_action, create_action_set, create_action,
  destroy_action_set, destroy_action, add_set, add_action, create_in, is_attached_action_set_handle,
  or_else,
}
use open_xr_osx.Actions.Aggregation.{Aggregate, InputManager, is_action_set_active}
use open_xr_osx.Actions.Sync.{
  apply_paths, resolved_subaction_paths, apply_actions, sync_hands, sync_actions,
}
use open_xr_osx.Actions.Bindings.{intern_path, cleanup_runtime_state}
use open_xr_osx.Actions.Sync.Fold.{and_then-some, if_not-true}
use open_xr_osx.Actions.Calls.{
  Call, set_created, set_destroyed, action_created, action_destroyed, bindings_suggested,
  sets_attached, synced, profile_asked, path_made, session_destroyed, cleaned_up, step, run, empty,
}
use open_xr_osx.Actions.Memory.Calls.{
  Untouched, suggest-Untouched, attach-Untouched, profile-Untouched, destroy_session-Untouched,
}
use open_xr_osx.Actions.Names.{
  Apart, WellNamed, Unique, set_key, action_key, NamesUnique, Unique-append, map-append_one,
  erase_set-Unique, duplicate_set-Apart, erase_action-Unique, duplicate_action-Apart,
}

not-false : (b : Bool) → not b ≡ false → b ≡ true
not-false true e = refl
not-false false e = cc

module _ (F : Scalars) where
  add_set-NamesUnique :
      (o : Option Result) (n l : Text) (w : World F)
      → (o ≡ none
          → All
              (λ k. Apart k (record { group = 0; name = n; localized_name = l }))
              (map set_key w.action_sets))
      → WellNamed (record { group = 0; name = n; localized_name = l })
      → NamesUnique F w
      → NamesUnique F (add_set F o n l w).0
  add_set-NamesUnique (some r) n l w a v u = u
  add_set-NamesUnique none n l w a v u = record {
    sets_unique =
        subst Unique (sym (map-append_one set_key w.action_sets _))
          (Unique-append (map set_key w.action_sets) _ u.sets_unique (a refl) v);
    actions_unique = u.actions_unique;
  }

  abbrev Kept : World F × Result × Option ℕ → Type 0
  Kept r = NamesUnique F r.0

  create_action_set-NamesUnique :
      (i g t : Bool) (n l : Text) (w : World F)
      → NamesUnique F w
      → NamesUnique F (create_action_set F i g t n l w).0
  unfolding create_action_set
  create_action_set-NamesUnique i g t n l w u =
      if-elim Kept (not i) (λ _. u)
        (λ _.
          if-elim Kept (not g || not t) (λ _. u)
            (λ _.
              if-elim Kept (same n []) (λ _. u)
                (λ _.
                  if-elim Kept (same l []) (λ _. u)
                    (λ named.
                      if-elim Kept (not (is_valid_single_level_path_name n)) (λ _. u)
                        (λ valid.
                          add_set-NamesUnique (duplicate_set n l w.action_sets) n l w
                            (duplicate_set-Apart n l w.action_sets) (not-false _ valid, named)
                            u)))))

  add_action-NamesUnique :
      (o : Option Result) (set : ℕ) (info : ActionCreateInfo F) (w : World F)
      → (o ≡ none
          → All
              (λ k. Apart k (record {
                group = set;
                name = info.action_name;
                localized_name = info.localized_action_name;
              }))
              (map (action_key F) w.actions))
      → WellNamed (record {
        group = set;
        name = info.action_name;
        localized_name = info.localized_action_name;
      })
      → NamesUnique F w
      → NamesUnique F (add_action F o set info w).0
  add_action-NamesUnique (some r) set info w a v u = u
  add_action-NamesUnique none set info w a v u = record {
    sets_unique = u.sets_unique;
    actions_unique =
        subst Unique (sym (map-append_one (action_key F) w.actions _))
          (Unique-append (map (action_key F) w.actions) _ u.actions_unique (a refl) v);
  }

  or_else-none : (o p : Option Result) → or_else F o p ≡ none → p ≡ none
  or_else-none none p e = e
  or_else-none (some r) p e = cc

  create_in-NamesUnique :
      (o : Option ActionSetState) (g t : Bool) (info : ActionCreateInfo F) (w : World F)
      → NamesUnique F w
      → NamesUnique F (create_in F o g t info w).0
  create_in-NamesUnique none g t info w u = u
  create_in-NamesUnique (some s) g t info w u =
      let checked = check_subaction_paths w.runtime [] info.subaction_paths in
      let duplicate =
        duplicate_action F s.handle info.action_name info.localized_action_name w.actions in
      if-elim Kept (not g || not t) (λ _. u)
        (λ _.
          if-elim Kept (is_attached_action_set_handle F s.handle w) (λ _. u)
            (λ _.
              if-elim Kept (same info.action_name []) (λ _. u)
                (λ _.
                  if-elim Kept (same info.localized_action_name []) (λ _. u)
                    (λ named.
                      if-elim Kept (not (is_valid_single_level_path_name info.action_name)) (λ _. u)
                        (λ valid.
                          if-elim Kept (ltb 0 (length info.subaction_paths) && not info.paths_given)
                            (λ _. u)
                            (λ _.
                              add_action-NamesUnique (or_else F checked duplicate) s.handle info w
                                (λ e.
                                  duplicate_action-Apart F s.handle info.action_name
                                    info.localized_action_name w.actions
                                    (or_else-none checked duplicate e))
                                (not-false _ valid, named) u))))))

  create_action-NamesUnique :
      (set : ℕ) (g t : Bool) (info : ActionCreateInfo F) (w : World F)
      → NamesUnique F w
      → NamesUnique F (create_action F set g t info w).0
  unfolding create_action
  create_action-NamesUnique set g t info w u =
      create_in-NamesUnique (find_set set w.action_sets) g t info w u

  destroy_action_set-NamesUnique :
      (h : ℕ) (w : World F) → NamesUnique F w → NamesUnique F (destroy_action_set F h w).0
  unfolding destroy_action_set
  destroy_action_set-NamesUnique h w u = elim (Option-cases (find_set h w.action_sets)) [
    | inl o ↦ rw o u
    | inr (s, o) ↦ rw o (record {
      sets_unique = erase_set-Unique h w.action_sets u.sets_unique;
      actions_unique = u.actions_unique;
    })
  ]

  destroy_action-NamesUnique :
      (h : ℕ) (w : World F) → NamesUnique F w → NamesUnique F (destroy_action F h w).0
  unfolding destroy_action
  destroy_action-NamesUnique h w u = elim (Option-cases (find_action F h w.actions)) [
    | inl o ↦ rw o u
    | inr (s, o) ↦ rw o (record {
      sets_unique = u.sets_unique;
      actions_unique = erase_action-Unique F h w.actions u.actions_unique;
    })
  ]

  Untouched-NamesUnique : (w w' : World F) → Untouched F w w' → NamesUnique F w → NamesUnique F w'
  Untouched-NamesUnique w w' k u = record {
    sets_unique = rw (k.0) u.sets_unique;
    actions_unique = rw (k.1) u.actions_unique;
  }

  apply_paths-action_key :
      (t : ℕ) (gs : List (Aggregate F)) (ps : List ℕ) (a : ActionState F)
      → action_key F (apply_paths F t gs ps a) ≡ action_key F a
  unfolding apply_paths
  apply_paths-action_key t gs [] a = refl
  apply_paths-action_key t gs (p ∷ ps) a = apply_paths-action_key t gs ps _

  -- A synchronisation renames nothing.
  pub apply_actions-action_key :
      (active : List ℕ) (w : World F) (t : ℕ) (gs : List (Aggregate F))
      (xs ys : List (ActionState F))
      → apply_actions F active w t gs xs ≡ some ys
      → map (action_key F) ys ≡ map (action_key F) xs
  unfolding apply_actions
  apply_actions-action_key active w t gs [] ys e =
      let e' : [] ≡ ys = cc in ap (map (action_key F)) (sym e')
  apply_actions-action_key active w t gs (a ∷ rest) ys e =
      let (on, e1, e2) = and_then-some (is_action_set_active F active w a) _ e in
      let (zs, e3, e4) = and_then-some (apply_actions F active w t gs rest) _ e2 in
      let moved = apply_paths F t gs (resolved_subaction_paths F a.subaction_paths) a in
      let e5 : (if on then moved else a) ∷ zs ≡ ys = cc in
      ap (map (action_key F)) (sym e5)
      ∙ ap (λ k. k ∷ map (action_key F) zs)
          (if-elim (λ b. action_key F b ≡ action_key F a) on
            (λ _. apply_paths-action_key t gs (resolved_subaction_paths F a.subaction_paths) a)
            (λ _. refl))
      ∙ ap (λ ks. action_key F a ∷ ks) (apply_actions-action_key active w t gs rest zs e3)

  unattached_lem :
      (b : Bool) (w w' : World F) (r : Result) (later : Option (World F × Result))
      → b ≡ false
      → (if not b then some (w, actionset_not_attached) else later) ≡ some (w', r)
      → w ≡ w'
  unattached_lem true w w' r later off e = absurd (ground (arith, off))
  unattached_lem false w w' r later off e = cc

  Untouched-step :
      (w v w' : World F) → Untouched F w v → some v ≡ some w' → NamesUnique F w → NamesUnique F w'
  Untouched-step w v w' k e u =
      let e' : v ≡ w' = cc in subst (NamesUnique F) e' (Untouched-NamesUnique w v k u)

  sync_actions-NamesUnique :
      (i : Option (InputManager F)) (g : Bool) (hs : List ℕ) (t : ℕ) (w w' : World F) (r : Result)
      → sync_actions F i g hs t w ≡ some (w', r)
      → NamesUnique F w
      → NamesUnique F w'
  unfolding sync_actions
  sync_actions-NamesUnique none g hs t w w' r e u =
      let e' : w ≡ w' = cc in subst (NamesUnique F) e' u
  sync_actions-NamesUnique (some input) false hs t w w' r e u =
      let e' : w ≡ w' = cc in subst (NamesUnique F) e' u
  sync_actions-NamesUnique (some input) true hs t w w' r e u =
      elim (Bool-cases w.action_sets_attached) [
        | inr off ↦ subst (NamesUnique F) (unattached_lem w.action_sets_attached w w' r _ off e) u
        | inl on ↦
            let (p, e1, e2) =
              and_then-some (sync_hands F input hs w) _
                (if_not-true w.action_sets_attached _ _ on e) in
            let (ys, e3, e4) = and_then-some (apply_actions F hs w t p.1 w.actions) _ e2 in
            let e5 : record w { runtime = p.0; actions = ys } ≡ w' = cc in
            subst (NamesUnique F) e5 (record {
              sets_unique = u.sets_unique;
              actions_unique =
                  subst Unique (sym (apply_actions-action_key hs w t p.1 w.actions ys e3))
                    u.actions_unique;
            })
      ]

  step-NamesUnique :
      (c : Call F) (w w' : World F) → step F c w ≡ some w' → NamesUnique F w → NamesUnique F w'
  unfolding step cleanup_runtime_state
  step-NamesUnique (set_created i g t n l) w w' e u =
      let e' : (create_action_set F i g t n l w).0 ≡ w' = cc in
      subst (NamesUnique F) e' (create_action_set-NamesUnique i g t n l w u)
  step-NamesUnique (set_destroyed h) w w' e u =
      let e' : (destroy_action_set F h w).0 ≡ w' = cc in
      subst (NamesUnique F) e' (destroy_action_set-NamesUnique h w u)
  step-NamesUnique (action_created s g t info) w w' e u =
      let e' : (create_action F s g t info w).0 ≡ w' = cc in
      subst (NamesUnique F) e' (create_action-NamesUnique s g t info w u)
  step-NamesUnique (action_destroyed h) w w' e u =
      let e' : (destroy_action F h w).0 ≡ w' = cc in
      subst (NamesUnique F) e' (destroy_action-NamesUnique h w u)
  step-NamesUnique (bindings_suggested i g t l p bs) w w' e u =
      Untouched-step w _ w' (suggest-Untouched F i g t l p bs w) e u
  step-NamesUnique (sets_attached s g hs) w w' e u =
      Untouched-step w _ w' (attach-Untouched F s g hs w) e u
  step-NamesUnique (synced i g hs t) w w' e u =
      let (q, e1, e2) = and_then-some (sync_actions F i g hs t w) _ e in
      let e3 : q.0 ≡ w' = cc in
      subst (NamesUnique F) e3 (sync_actions-NamesUnique i g hs t w q.0 q.1 e1 u)
  step-NamesUnique (profile_asked p g top) w w' e u =
      Untouched-step w _ w' (profile-Untouched F p g top w) e u
  step-NamesUnique (path_made text) w w' e u =
      Untouched-step w (record w { runtime = (intern_path text w.runtime).0 }) w' (refl, refl) e u
  step-NamesUnique (session_destroyed s) w w' e u =
      Untouched-step w _ w' (destroy_session-Untouched F s w) e u
  step-NamesUnique cleaned_up w w' e u =
      let e' : cleanup_runtime_state F w ≡ w' = cc in
      subst (NamesUnique F) e' (record { sets_unique = tt; actions_unique = tt })

  run_lem :
      (cs : List (Call F)) (w w' : World F)
      → run F cs w ≡ some w'
      → NamesUnique F w
      → NamesUnique F w'
  unfolding run
  run_lem [] w w' e u = let e' : w ≡ w' = cc in subst (NamesUnique F) e' u
  run_lem (c ∷ cs) w w' e u =
      let (w1, e1, e2) = and_then-some (step F c w) (run F cs) e in
      run_lem cs w1 w' e2 (step-NamesUnique c w w1 e1 u)

  -- After any calls, no two action sets share a name or a localized name, and no two actions of one
  -- set do; every name is one level of a path, and no localized name is empty.
  pub run-NamesUnique :
      (cs : List (Call F)) (w : World F) → run F cs (empty F) ≡ some w → NamesUnique F w
  run-NamesUnique cs w e =
      run_lem cs (empty F) w e (record { sets_unique = tt; actions_unique = tt })
