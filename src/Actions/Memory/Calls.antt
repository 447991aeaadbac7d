-- ===== src/Actions/Memory/Calls.antt =====
-- runtime/src/EntryPoint.cpp: what each call leaves of the sets and of the actions that point to
-- them.
use open_xr_osx.Base.{
  ℕ, ◌≡◌, refl, ap, ◌∙◌, ◌⊎◌, inl, inr, Bool, true, false, Option-cases, not, ◌&&◌, ◌||◌, Option,
  none, some, List, [], arith, ◌==◌, if-elim, All-append, same, Text, ltb, length,
}
use open_xr_osx.Xr.{Result}
use open_xr_osx.Instance.{Instance}
use open_xr_osx.Runtime.{Runtime}
use open_xr_osx.Actions.State.{
  Scalars, duplicate_set, get_path_string, is_attached_action_set_handle, ActionSetState,
  ActionCreateInfo, World, find_set, find_action, create_action_set, create_action,
  destroy_action_set, destroy_action, add_set, add_action, create_in, SuggestedBinding,
}
use open_xr_osx.Actions.Strings.{is_valid_single_level_path_name, is_known_interaction_profile_path}
use open_xr_osx.Actions.Bindings.{
  suggest_interaction_profile_bindings, attach_session_action_sets, destroy_session, is_set,
  store_bindings, collect_bindings,
}
use open_xr_osx.Actions.Aggregation.{Hand}
use open_xr_osx.Actions.Query.{get_current_interaction_profile}
use open_xr_osx.Actions.Calls.{has_action_in}
use open_xr_osx.Actions.Memory.{
  HasSet, Alive, All-mono, find_set-handle, find_set-append, erase_action-HasSet, erase_set-HasSet,
}

find_set-again :
    (h : ℕ) (ss : List ActionSetState) (s : ActionSetState)
    → find_set h ss ≡ some s
    → is_set (find_set s.handle ss) ≡ true
find_set-again h ss s e = ap (λ k. is_set (find_set k ss)) (find_set-handle h ss s e) ∙ ap is_set e

module _ (F : Scalars) where
  -- A call that leaves the sets and the actions as they are, or refuses.
  abbrev pub Untouched : World F → World F → Type 0
  Untouched w w' = (w'.action_sets ≡ w.action_sets) × (w'.actions ≡ w.actions)

  abbrev Kept : World F × Result × Option ℕ → Type 0
  Kept r = Alive F r.0

  abbrev Same : World F → World F × Result → Type 0
  Same w r = Untouched w r.0

  pub Untouched-Alive : (w w' : World F) → Untouched w w' → Alive F w → Alive F w'
  Untouched-Alive w w' u g = rw (u.0, u.1) g

  add_set-Alive :
      (o : Option Result) (n l : Text) (w : World F) → Alive F w → Alive F (add_set F o n l w).0
  add_set-Alive (some r) n l w g = g
  add_set-Alive none n l w g =
      All-mono F (HasSet F w.action_sets) (HasSet F (add_set F none n l w).0.action_sets) w.actions
        (λ a h. find_set-append a.action_set w.action_sets _ h) g

  pub create_action_set-Alive :
      (i g t : Bool) (n l : Text) (w : World F)
      → Alive F w
      → Alive F (create_action_set F i g t n l w).0
  unfolding create_action_set
  create_action_set-Alive i g t n l w alive =
      if-elim Kept (not i) (λ _. alive)
        (λ _.
          if-elim Kept (not g || not t) (λ _. alive)
            (λ _.
              if-elim Kept (same n []) (λ _. alive)
                (λ _.
                  if-elim Kept (same l []) (λ _. alive)
                    (λ _.
                      if-elim Kept (not (is_valid_single_level_path_name n)) (λ _. alive)
                        (λ _. add_set-Alive (duplicate_set n l w.action_sets) n l w alive)))))

  add_action-Alive :
      (o : Option Result) (set : ℕ) (info : ActionCreateInfo F) (w : World F)
      → is_set (find_set set w.action_sets) ≡ true
      → Alive F w
      → Alive F (add_action F o set info w).0
  add_action-Alive (some r) set info w found g = g
  add_action-Alive none set info w found g =
      All-append (HasSet F w.action_sets) w.actions _ g (found, tt)

  create_in-Alive :
      (o : Option ActionSetState) (g t : Bool) (info : ActionCreateInfo F) (w : World F)
      → ((s : ActionSetState) → o ≡ some s → is_set (find_set s.handle w.action_sets) ≡ true)
      → Alive F w
      → Alive F (create_in F o g t info w).0
  create_in-Alive none g t info w found alive = alive
  create_in-Alive (some s) g t info w found alive =
      if-elim Kept (not g || not t) (λ _. alive)
        (λ _.
          if-elim Kept (is_attached_action_set_handle F s.handle w) (λ _. alive)
            (λ _.
              if-elim Kept (same info.action_name []) (λ _. alive)
                (λ _.
                  if-elim Kept (same info.localized_action_name []) (λ _. alive)
                    (λ _.
                      if-elim Kept (not (is_valid_single_level_path_name info.action_name))
                        (λ _. alive)
                        (λ _.
                          if-elim Kept (ltb 0 (length info.subaction_paths) && not info.paths_given)
                            (λ _. alive)
                            (λ _. add_action-Alive _ s.handle info w (found s refl) alive))))))

  pub create_action-Alive :
      (set : ℕ) (g t : Bool) (info : ActionCreateInfo F) (w : World F)
      → Alive F w
      → Alive F (create_action F set g t info w).0
  unfolding create_action
  create_action-Alive set g t info w alive =
      create_in-Alive (find_set set w.action_sets) g t info w
        (λ s e. find_set-again set w.action_sets s e) alive

  pub destroy_action_set-Alive :
      (h : ℕ) (w : World F)
      → has_action_in F h w.actions ≡ false
      → Alive F w
      → Alive F (destroy_action_set F h w).0
  unfolding destroy_action_set
  destroy_action_set-Alive h w e alive = elim (Option-cases (find_set h w.action_sets)) [
    | inl o ↦ rw o alive
    | inr (s, o) ↦ rw o (erase_set-HasSet F h w.action_sets w.actions e alive)
  ]

  pub destroy_action-Alive : (h : ℕ) (w : World F) → Alive F w → Alive F (destroy_action F h w).0
  unfolding destroy_action
  destroy_action-Alive h w alive = elim (Option-cases (find_action F h w.actions)) [
    | inl o ↦ rw o alive
    | inr (s, o) ↦ rw o (erase_action-HasSet F h w.action_sets w.actions alive)
  ]

  store-Untouched :
      (p : ℕ) (q : Runtime × (Result ⊎ List SuggestedBinding)) (w : World F)
      → Untouched w (store_bindings F p q w).0
  store-Untouched p (r, inl refusal) w = (refl, refl)
  store-Untouched p (r, inr bindings) w = (refl, refl)

  pub suggest-Untouched :
      (i : Option Instance) (g t l : Bool) (p : ℕ) (bs : List (ℕ × ℕ)) (w : World F)
      → Untouched w (suggest_interaction_profile_bindings F i g t l p bs w).0
  unfolding suggest_interaction_profile_bindings
  suggest-Untouched none g t l p bs w = (refl, refl)
  suggest-Untouched (some i) g t l p bs w =
      let text = get_path_string p w.runtime in
      if-elim (Same w) (not g || not t) (λ _. (refl, refl))
        (λ _.
          if-elim (Same w) ((length bs == 0) || not l) (λ _. (refl, refl))
            (λ _.
              if-elim (Same w) (w.action_sets_attached) (λ _. (refl, refl))
                (λ _.
                  if-elim (Same w) (same text []) (λ _. (refl, refl))
                    (λ _.
                      if-elim (Same w) (not (is_known_interaction_profile_path i text))
                        (λ _. (refl, refl))
                        (λ _.
                          store-Untouched p (collect_bindings F i text w.actions bs w.runtime)
                            w)))))

  pub attach-Untouched :
      (s g : Bool) (hs : List ℕ) (w : World F)
      → Untouched w (attach_session_action_sets F s g hs w).0
  unfolding attach_session_action_sets
  attach-Untouched s g hs w = ground arith

  pub profile-Untouched :
      (p : Option (Hand → Text)) (g : Bool) (top : ℕ) (w : World F)
      → Untouched w (get_current_interaction_profile F p g top w).0
  unfolding get_current_interaction_profile
  profile-Untouched none g top w = (refl, refl)
  profile-Untouched (some q) g top w = ground arith

  pub destroy_session-Untouched : (s : Bool) (w : World F) → Untouched w (destroy_session F s w).0
  unfolding destroy_session
  destroy_session-Untouched s w = ground arith
