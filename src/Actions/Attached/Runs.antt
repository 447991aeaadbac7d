-- ===== src/Actions/Attached/Runs.antt =====
-- The calls on actions of runtime/src/EntryPoint.cpp, any sequence of them after an attachment.
use open_xr_osx.Base.{
  ℕ, ◌≡◌, refl, sym, ap, subst, ◌∙◌, Bool, true, false, not, ◌&&◌, ◌||◌, Option, none, some, List,
  [], ◌∷◌, map, arith, ◌==◌, if-elim, Text, length,
}
use open_xr_osx.Xr.{Result}
use open_xr_osx.Instance.{Instance}
use open_xr_osx.Actions.State.{
  Scalars, get_path_string, World, create_action_set, create_action, destroy_action_set,
  destroy_action,
}
use open_xr_osx.Actions.Bindings.{
  store_bindings, collect_bindings, suggest_interaction_profile_bindings,
  attach_session_action_sets, destroy_session, intern_path,
}
use open_xr_osx.Actions.Aggregation.{Hand, InputManager}
use open_xr_osx.Actions.Sync.{sync_actions, sync_hands, apply_actions}
use open_xr_osx.Actions.Sync.Fold.{and_then-some, if_not-true}
use open_xr_osx.Actions.Query.{get_current_interaction_profile}
use open_xr_osx.Actions.Names.{action_key}
use open_xr_osx.Actions.Names.Runs.{apply_actions-action_key}
use open_xr_osx.Actions.Calls.{
  Call, set_created, set_destroyed, action_created, action_destroyed, bindings_suggested,
  sets_attached, synced, profile_asked, path_made, session_destroyed, cleaned_up, step, run,
}
use open_xr_osx.Actions.Attached.{
  count_group, Frozen-refl, Frozen-trans, with_actions, create_action-Frozen,
  create_action_set-Frozen, destroy_action-Frozen, destroy_action_set-Frozen, detaches, Frozen,
}

module _ (F : Scalars) (gone : ℕ → Bool) where
  abbrev Same : World F → World F × Result → Type 0
  Same w r = r.0 ≡ w

  -- Both calls refuse, and change nothing.
  suggest_lem :
      (i : Option Instance) (g t l : Bool) (p : ℕ) (bs : List (ℕ × ℕ)) (w : World F)
      → w.action_sets_attached ≡ true
      → (suggest_interaction_profile_bindings F i g t l p bs w).0 ≡ w
  unfolding suggest_interaction_profile_bindings
  suggest_lem none g t l p bs w on = refl
  suggest_lem (some i) g t l p bs w on =
      let text = get_path_string p w.runtime in
      let stored = store_bindings F p (collect_bindings F i text w.actions bs w.runtime) w in
      if-elim (Same w) (not g || not t) (λ _. refl)
        (λ _.
          if-elim (Same w) ((length bs == 0) || not l) (λ _. refl)
            (λ _.
              if-elim (Same w) w.action_sets_attached (λ _. refl)
                (λ off. absurd (ground (arith, on, off)))))

  attach_lem :
      (s g : Bool) (hs : List ℕ) (w : World F)
      → w.action_sets_attached ≡ true
      → (attach_session_action_sets F s g hs w).0 ≡ w
  unfolding attach_session_action_sets
  attach_lem s g hs w on =
      if-elim (Same w) (not s) (λ _. refl)
        (λ _.
          if-elim (Same w) (not g || (length hs == 0)) (λ _. refl)
            (λ _.
              if-elim (Same w) w.action_sets_attached (λ _. refl)
                (λ off. absurd (ground (arith, on, off)))))

  profile-Frozen :
      (q : Option (Hand → Text)) (g : Bool) (top : ℕ) (w : World F)
      → w.action_sets_attached ≡ true
      → Frozen F gone w (get_current_interaction_profile F q g top w).0
  unfolding get_current_interaction_profile
  profile-Frozen none g top w on = Frozen-refl F gone w on
  profile-Frozen (some profile_of) g top w on =
      let v = (get_current_interaction_profile F (some profile_of) g top w).0 in
      with_actions F gone w v on (ground arith) (ground arith) (ground arith) (λ h m.
        let e : v.actions ≡ w.actions = ground arith in
        omega (arith, ap (λ xs. count_group h (map (action_key F) xs)) e))

  sync_actions-Frozen :
      (i : Option (InputManager F)) (g : Bool) (hs : List ℕ) (t : ℕ) (w v : World F) (r : Result)
      → w.action_sets_attached ≡ true
      → sync_actions F i g hs t w ≡ some (v, r)
      → Frozen F gone w v
  unfolding sync_actions
  sync_actions-Frozen none g hs t w v r on e =
      let e' : w ≡ v = cc in subst (Frozen F gone w) e' (Frozen-refl F gone w on)
  sync_actions-Frozen (some input) false hs t w v r on e =
      let e' : w ≡ v = cc in subst (Frozen F gone w) e' (Frozen-refl F gone w on)
  sync_actions-Frozen (some input) true hs t w v r on e =
      let (p, e1, e2) =
        and_then-some (sync_hands F input hs w) _ (if_not-true w.action_sets_attached _ _ on e) in
      let (ys, e3, e4) = and_then-some (apply_actions F hs w t p.1 w.actions) _ e2 in
      let e5 : record w { runtime = p.0; actions = ys } ≡ v = cc in
      subst (Frozen F gone w) e5 (
        with_actions F gone w (record w { runtime = p.0; actions = ys }) on refl refl refl
          (λ h m.
            omega
              (arith, ap (count_group h) (apply_actions-action_key F hs w t p.1 w.actions ys e3))))

  step-Frozen :
      (c : Call F) (w v : World F)
      → detaches F gone c ≡ false
      → w.action_sets_attached ≡ true
      → step F c w ≡ some v
      → Frozen F gone w v
  unfolding step destroy_session
  step-Frozen (set_created i g t n l) w v d on e =
      let e' : (create_action_set F i g t n l w).0 ≡ v = cc in
      subst (Frozen F gone w) e' (create_action_set-Frozen F gone i g t n l w on)
  step-Frozen (set_destroyed h) w v d on e =
      let e' : (destroy_action_set F h w).0 ≡ v = cc in
      subst (Frozen F gone w) e' (destroy_action_set-Frozen F gone h w (ground (arith, d)) on)
  step-Frozen (action_created s g t info) w v d on e =
      let e' : (create_action F s g t info w).0 ≡ v = cc in
      subst (Frozen F gone w) e' (create_action-Frozen F gone s g t info w on)
  step-Frozen (action_destroyed h) w v d on e =
      let e' : (destroy_action F h w).0 ≡ v = cc in
      subst (Frozen F gone w) e' (destroy_action-Frozen F gone h w on)
  step-Frozen (bindings_suggested i g t l p bs) w v d on e =
      let e' : (suggest_interaction_profile_bindings F i g t l p bs w).0 ≡ v = cc in
      subst (Frozen F gone w) (sym (suggest_lem i g t l p bs w on) ∙ e') (Frozen-refl F gone w on)
  step-Frozen (sets_attached s g hs) w v d on e =
      let e' : (attach_session_action_sets F s g hs w).0 ≡ v = cc in
      subst (Frozen F gone w) (sym (attach_lem s g hs w on) ∙ e') (Frozen-refl F gone w on)
  step-Frozen (synced i g hs t) w v d on e =
      let (q, e1, e2) = and_then-some (sync_actions F i g hs t w) _ e in
      let e3 : q.0 ≡ v = cc in
      subst (Frozen F gone w) e3 (sync_actions-Frozen i g hs t w q.0 q.1 on e1)
  step-Frozen (profile_asked q g top) w v d on e =
      let e' : (get_current_interaction_profile F q g top w).0 ≡ v = cc in
      subst (Frozen F gone w) e' (profile-Frozen q g top w on)
  step-Frozen (path_made text) w v d on e =
      let e' : record w { runtime = (intern_path text w.runtime).0 } ≡ v = cc in
      subst (Frozen F gone w) e' (
        with_actions F gone w (record w { runtime = (intern_path text w.runtime).0 }) on refl refl
          refl (λ h m. omega arith))
  step-Frozen (session_destroyed true) w v d on e = cc
  step-Frozen (session_destroyed false) w v d on e =
      let e' : w ≡ v = cc in subst (Frozen F gone w) e' (Frozen-refl F gone w on)
  step-Frozen cleaned_up w v d on e = cc

  abbrev pub keeps_attached : List (Call F) → Bool
  keeps_attached [] = true
  keeps_attached (c ∷ cs) = not (detaches F gone c) && keeps_attached cs

  -- From a state with attached sets, calls of which none destroys the session or the instance, and
  -- which destroy no other sets than those of `gone`, leave every attached set that is not one of
  -- `gone` attached, and the suggested bindings as they are; no set is attached anew, and no action
  -- is added to a set that stays attached.
  pub run-Frozen :
      (cs : List (Call F)) (w v : World F)
      → keeps_attached cs ≡ true
      → w.action_sets_attached ≡ true
      → run F cs w ≡ some v
      → Frozen F gone w v
  unfolding run
  run-Frozen [] w v k on e =
      let e' : w ≡ v = cc in subst (Frozen F gone w) e' (Frozen-refl F gone w on)
  run-Frozen (c ∷ cs) w v k on e =
      let (u, e1, e2) = and_then-some (step F c w) (run F cs) e in
      let first = step-Frozen c w u (ground (arith, k)) on e1 in
      Frozen-trans F gone w u v first
        (run-Frozen cs u v (ground (arith, k)) first.still_attached e2)
