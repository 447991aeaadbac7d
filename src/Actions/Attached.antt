-- ===== src/Actions/Attached.antt =====
-- runtime/src/EntryPoint.cpp: while action sets are attached, bindings, attached sets and the
-- actions in them are fixed.
use open_xr_osx.Base.{
  ℕ, ◌+◌, ◌≤◌, ◌≡◌, refl, sym, ap, subst, ◌∙◌, inl, inr, Bool, true, false, Bool-cases,
  Option-cases, not, ◌&&◌, ◌||◌, Option, none, some, List, [], ◌∷◌, ◌++◌, map, arith, ◌==◌,
  if◌then◌else◌, if-elim, same, Text, ltb, length,
}
use open_xr_osx.Xr.{Result}
use open_xr_osx.Instance.{Instance}
use open_xr_osx.Actions.Strings.{is_valid_single_level_path_name}
use open_xr_osx.Actions.State.{
  Scalars, get_path_string, ActionSetState, ActionState, ActionCreateInfo, World, member,
  remove_all, find_set, find_action, erase_action, create_action_set, create_action,
  destroy_action_set, destroy_action, add_set, add_action, create_in, duplicate_set,
  is_attached_action_set_handle, check_subaction_paths, duplicate_action, or_else,
}
use open_xr_osx.Actions.Bindings.{
  store_bindings, collect_bindings, suggest_interaction_profile_bindings,
  attach_session_action_sets, destroy_session, intern_path,
}
use open_xr_osx.Actions.Aggregation.{Hand, InputManager}
use open_xr_osx.Actions.Sync.{sync_actions, sync_hands, apply_actions}
use open_xr_osx.Actions.Sync.Fold.{and_then-some, if_not-true}
use open_xr_osx.Actions.Query.{get_current_interaction_profile}
use open_xr_osx.Actions.Names.{Key, action_key, map-append_one}
use open_xr_osx.Actions.Names.Runs.{apply_actions-action_key}
use open_xr_osx.Actions.Calls.{
  Call, set_created, set_destroyed, action_created, action_destroyed, bindings_suggested,
  sets_attached, synced, profile_asked, path_made, session_destroyed, cleaned_up, step, run,
}
pub mod Runs

-- How many of the keys are in the group.
unfoldable pub count_group : ℕ → List Key → ℕ
count_group h [] = 0
count_group h (k ∷ ks) = (if k.group == h then 1 else 0) + count_group h ks

count_group-append_one :
    (h : ℕ) (ks : List Key) (k : Key)
    → count_group h (ks ++ k ∷ []) ≡ count_group h ks + (if k.group == h then 1 else 0)
unfolding count_group
count_group-append_one h [] k = omega arith
count_group-append_one h (l ∷ ls) k = omega (arith, count_group-append_one h ls k)

member-remove_all : (g h : ℕ) (hs : List ℕ) → member g (remove_all h hs) ≡ true → member g hs ≡ true
unfolding member remove_all
member-remove_all g h [] e = e
member-remove_all g h (x ∷ xs) e = ground (arith, member-remove_all g h xs, e)

remove_all-member :
    (g h : ℕ) (hs : List ℕ)
    → (h == g) ≡ false
    → member g hs ≡ true
    → member g (remove_all h hs) ≡ true
unfolding member remove_all
remove_all-member g h [] other e = e
remove_all-member g h (x ∷ xs) other e = ground (arith, remove_all-member g h xs other, e, other)

module _ (F : Scalars) where
  -- How many actions of the set there are.
  abbrev pub actions_in : ℕ → World F → ℕ
  actions_in h w = count_group h (map (action_key F) w.actions)

module _ (F : Scalars) (gone : ℕ → Bool) where
  other_handle : (g h : ℕ) → gone g ≡ false → gone h ≡ true → (h == g) ≡ false
  other_handle g h s out = elim (Bool-cases (h == g)) [
    | inr other ↦ other
    | inl same_handle ↦
        let e : h ≡ g = ground (arith, same_handle) in absurd (cc (ap gone e, s, out))
  ]

  -- The calls that end the attachment: of all sets, or of one that must stay.
  abbrev pub detaches : Call F → Bool
  detaches (session_destroyed s) = s
  detaches cleaned_up = true
  detaches (set_created i g t n l) = false
  detaches (set_destroyed h) = not (gone h)
  detaches (action_created s g t info) = false
  detaches (action_destroyed h) = false
  detaches (bindings_suggested i g t l p bs) = false
  detaches (sets_attached s g hs) = false
  detaches (synced i g hs t) = false
  detaches (profile_asked p g top) = false
  detaches (path_made text) = false

  -- What was fixed when the sets were attached, in `w`, still holds in `v`. Only sets that are
  -- `gone` may have been destroyed.
  pub record Frozen (w v : World F) : Type 0 where
    pub still_attached : v.action_sets_attached ≡ true
    pub same_bindings : v.suggested_bindings ≡ w.suggested_bindings
    pub same_sets :
        (h : ℕ)
        → gone h ≡ false
        → member h w.attached_handles ≡ true
        → member h v.attached_handles ≡ true
    pub no_more_sets :
        (h : ℕ) → member h v.attached_handles ≡ true → member h w.attached_handles ≡ true
    pub no_more_actions :
        (h : ℕ) → member h v.attached_handles ≡ true → actions_in F h v ≤ actions_in F h w

  pub Frozen-refl : (w : World F) → w.action_sets_attached ≡ true → Frozen w w
  Frozen-refl w e = record {
    still_attached = e;
    same_bindings = refl;
    same_sets = λ h s m. m;
    no_more_sets = λ h m. m;
    no_more_actions = λ h m. omega arith;
  }

  pub Frozen-trans : (u v w : World F) → Frozen u v → Frozen v w → Frozen u w
  Frozen-trans u v w f g = record {
    still_attached = g.still_attached;
    same_bindings = g.same_bindings ∙ f.same_bindings;
    same_sets = λ h s m. g.same_sets h s (f.same_sets h s m);
    no_more_sets = λ h m. f.no_more_sets h (g.no_more_sets h m);
    no_more_actions =
        λ h m. omega (arith, g.no_more_actions h m, f.no_more_actions h (g.no_more_sets h m));
  }

  abbrev Kept : World F → World F × Result × Option ℕ → Type 0
  Kept w r = Frozen w r.0

  -- Only the sets, the actions or the runtime change.
  pub with_actions :
      (w v : World F)
      → w.action_sets_attached ≡ true
      → v.action_sets_attached ≡ w.action_sets_attached
      → v.suggested_bindings ≡ w.suggested_bindings
      → v.attached_handles ≡ w.attached_handles
      → ((h : ℕ) → member h w.attached_handles ≡ true → actions_in F h v ≤ actions_in F h w)
      → Frozen w v
  with_actions w v on a b c d = record {
    still_attached = a ∙ on;
    same_bindings = b;
    same_sets = λ h s m. ap (member h) c ∙ m;
    no_more_sets = λ h m. sym (ap (member h) c) ∙ m;
    no_more_actions = λ h m. d h (sym (ap (member h) c) ∙ m);
  }

  other_group :
      (set h : ℕ) (w : World F)
      → w.action_sets_attached ≡ true
      → is_attached_action_set_handle F set w ≡ false
      → member h w.attached_handles ≡ true
      → ◌≡◌ {A = ℕ} (if set == h then 1 else 0) 0
  unfolding is_attached_action_set_handle
  other_group set h w on free m = elim (Bool-cases (set == h)) [
    | inr other ↦ rw other refl
    | inl same_set ↦
        let e : set ≡ h = ground (arith, same_set) in
        let m' : member set w.attached_handles ≡ true =
          ap (λ k. member k w.attached_handles) e ∙ m in
        absurd (ground (arith, on, free, m'))
  ]

  add_action-Frozen :
      (o : Option Result) (set : ℕ) (info : ActionCreateInfo F) (w : World F)
      → w.action_sets_attached ≡ true
      → is_attached_action_set_handle F set w ≡ false
      → Frozen w (add_action F o set info w).0
  add_action-Frozen (some r) set info w on free = Frozen-refl w on
  add_action-Frozen none set info w on free =
      with_actions w (add_action F none set info w).0 on refl refl refl (λ h m. omega (
        arith,
        ap (count_group h) (map-append_one (action_key F) w.actions _),
        count_group-append_one h (map (action_key F) w.actions) _,
        other_group set h w on free m,
      ))

  create_in-Frozen :
      (o : Option ActionSetState) (g t : Bool) (info : ActionCreateInfo F) (w : World F)
      → w.action_sets_attached ≡ true
      → Frozen w (create_in F o g t info w).0
  create_in-Frozen none g t info w on = Frozen-refl w on
  create_in-Frozen (some s) g t info w on =
      let same_world = Frozen-refl w on in
      let refusal =
        or_else F (check_subaction_paths w.runtime [] info.subaction_paths)
          (duplicate_action F s.handle info.action_name info.localized_action_name w.actions) in
      if-elim (Kept w) (not g || not t) (λ _. same_world)
        (λ _.
          if-elim (Kept w) (is_attached_action_set_handle F s.handle w) (λ _. same_world)
            (λ free.
              if-elim (Kept w) (same info.action_name []) (λ _. same_world)
                (λ _.
                  if-elim (Kept w) (same info.localized_action_name []) (λ _. same_world)
                    (λ _.
                      if-elim (Kept w) (not (is_valid_single_level_path_name info.action_name))
                        (λ _. same_world)
                        (λ _.
                          if-elim (Kept w)
                            (ltb 0 (length info.subaction_paths) && not info.paths_given)
                            (λ _. same_world)
                            (λ _. add_action-Frozen refusal s.handle info w on free))))))

  pub create_action-Frozen :
      (set : ℕ) (g t : Bool) (info : ActionCreateInfo F) (w : World F)
      → w.action_sets_attached ≡ true
      → Frozen w (create_action F set g t info w).0
  unfolding create_action
  create_action-Frozen set g t info w on =
      create_in-Frozen (find_set set w.action_sets) g t info w on

  add_set-Frozen :
      (o : Option Result) (n l : Text) (w : World F)
      → w.action_sets_attached ≡ true
      → Frozen w (add_set F o n l w).0
  add_set-Frozen (some r) n l w on = Frozen-refl w on
  add_set-Frozen none n l w on =
      with_actions w (add_set F none n l w).0 on refl refl refl (λ h m. omega arith)

  pub create_action_set-Frozen :
      (i g t : Bool) (n l : Text) (w : World F)
      → w.action_sets_attached ≡ true
      → Frozen w (create_action_set F i g t n l w).0
  unfolding create_action_set
  create_action_set-Frozen i g t n l w on =
      let same_world = Frozen-refl w on in
      if-elim (Kept w) (not i) (λ _. same_world)
        (λ _.
          if-elim (Kept w) (not g || not t) (λ _. same_world)
            (λ _.
              if-elim (Kept w) (same n []) (λ _. same_world)
                (λ _.
                  if-elim (Kept w) (same l []) (λ _. same_world)
                    (λ _.
                      if-elim (Kept w) (not (is_valid_single_level_path_name n)) (λ _. same_world)
                        (λ _. add_set-Frozen (duplicate_set n l w.action_sets) n l w on)))))

  erase_action-count_group :
      (g h : ℕ) (xs : List (ActionState F))
      → count_group g (map (action_key F) (erase_action F h xs))
        ≤ count_group g (map (action_key F) xs)
  unfolding count_group erase_action
  erase_action-count_group g h [] = omega arith
  erase_action-count_group g h (x ∷ xs) = ground (arith, erase_action-count_group g h xs)

  pub destroy_action-Frozen :
      (h : ℕ) (w : World F) → w.action_sets_attached ≡ true → Frozen w (destroy_action F h w).0
  unfolding destroy_action
  destroy_action-Frozen h w on = elim (Option-cases (find_action F h w.actions)) [
    | inl o ↦ rw o (Frozen-refl w on)
    | inr (a, o) ↦
        rw o (with_actions w _ on refl refl refl (λ g m. erase_action-count_group g h w.actions))
  ]

  pub destroy_action_set-Frozen :
      (h : ℕ) (w : World F)
      → gone h ≡ true
      → w.action_sets_attached ≡ true
      → Frozen w (destroy_action_set F h w).0
  unfolding destroy_action_set
  destroy_action_set-Frozen h w out on = elim (Option-cases (find_set h w.action_sets)) [
    | inl o ↦ rw o (Frozen-refl w on)
    | inr (a, o) ↦ rw o (record {
      still_attached = on;
      same_bindings = refl;
      same_sets = λ g s m. remove_all-member g h w.attached_handles (other_handle g h s out) m;
      no_more_sets = λ g m. member-remove_all g h w.attached_handles m;
      no_more_actions = λ g m. omega arith;
    })
  ]
