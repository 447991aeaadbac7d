-- ===== src/Actions/Names.antt =====
-- runtime/src/EntryPoint.cpp: the names of action sets, and of the actions of a set.
pub mod Runs
use open_xr_osx.Base.{
  ℕ, ◌≡◌, refl, sym, ap, subst, ◌∙◌, ◌⊎◌, inl, inr, Bool, true, false, Bool-cases, Option-cases,
  not, ◌&&◌, ◌||◌, Option, none, some, List, [], ◌∷◌, ◌++◌, map, arith, ◌==◌, if◌then◌else◌,
  if-elim, All, All-append, same, Text, ltb, length,
}
use open_xr_osx.Xr.{Result}
use open_xr_osx.Actions.Strings.{is_valid_single_level_path_name}
use open_xr_osx.Actions.State.{
  Scalars, ActionSetState, ActionState, ActionCreateInfo, World, duplicate_set, duplicate_action,
  check_subaction_paths, erase_set, erase_action, find_set, find_action, create_action_set,
  create_action, destroy_action_set, destroy_action, add_set, add_action, create_in,
  is_attached_action_set_handle, or_else,
}
use open_xr_osx.Actions.Aggregation.{Aggregate, InputManager, and_then, is_action_set_active}
use open_xr_osx.Actions.Sync.{
  apply_paths, resolved_subaction_paths, apply_actions, sync_hands, sync_actions,
}
use open_xr_osx.Actions.Calls.{
  Call, set_created, set_destroyed, action_created, action_destroyed, bindings_suggested,
  sets_attached, synced, profile_asked, session_destroyed, cleaned_up, step, run, empty,
}
use open_xr_osx.Actions.Memory.Calls.{
  Untouched, suggest-Untouched, attach-Untouched, profile-Untouched, destroy_session-Untouched,
}

-- What must be unique: the set that an action is in (0 for a set), the name and the localized name.
pub record Key : Type 0 where
  pub group : ℕ
  pub name : Text
  pub localized_name : Text

-- Two keys of one group share no name.
abbrev pub Apart : Key → Key → Type 0
Apart k l =
    ((k.group == l.group) ≡ false)
    ⊎ ((same k.name l.name ≡ false) × (same k.localized_name l.localized_name ≡ false))

-- A name is one level of a path, and the localized name is not empty.
abbrev pub WellNamed : Key → Type 0
WellNamed k = (is_valid_single_level_path_name k.name ≡ true) × (same k.localized_name [] ≡ false)

abbrev pub Unique : List Key → Type 0
Unique [] = Unit
Unique (k ∷ ks) = WellNamed k × All (Apart k) ks × Unique ks

abbrev pub set_key : ActionSetState → Key
set_key s = record { group = 0; name = s.name; localized_name = s.localized_name }

pub Unique-append :
    (ks : List Key) (k : Key)
    → Unique ks
    → All (λ l. Apart l k) ks
    → WellNamed k
    → Unique (ks ++ k ∷ [])
Unique-append [] k u a w = (w, tt, tt)
Unique-append (l ∷ ls) k u a w =
    (u.0, All-append (Apart l) ls (k ∷ []) u.1 (a.0, tt), Unique-append ls k u.2 a.1 w)

pub map-append_one {ℓ κ} :
    {A : Type ℓ} {B : Type κ} (f : A → B) (xs : List A) (y : A)
    → map f (xs ++ y ∷ []) ≡ map f xs ++ f y ∷ []
map-append_one f [] y = refl
map-append_one f (x ∷ xs) y = ap (λ r. f x ∷ r) (map-append_one f xs y)

erase_set-All :
    (P : Key → Type 0) (h : ℕ) (ss : List ActionSetState)
    → All P (map set_key ss)
    → All P (map set_key (erase_set h ss))
unfolding erase_set
erase_set-All P h [] a = tt
erase_set-All P h (s ∷ ss) a =
    if-elim (λ r. All P (map set_key r)) (s.handle == h) (λ _. a.1)
      (λ _. (a.0, erase_set-All P h ss a.1))

pub erase_set-Unique :
    (h : ℕ) (ss : List ActionSetState)
    → Unique (map set_key ss)
    → Unique (map set_key (erase_set h ss))
unfolding erase_set
erase_set-Unique h [] u = tt
erase_set-Unique h (s ∷ ss) u =
    if-elim (λ r. Unique (map set_key r)) (s.handle == h) (λ _. u.2)
      (λ _. (u.0, erase_set-All (Apart (set_key s)) h ss u.1, erase_set-Unique h ss u.2))

pub duplicate_set-Apart :
    (n l : Text) (ss : List ActionSetState)
    → duplicate_set n l ss ≡ none
    → All (λ k. Apart k (record { group = 0; name = n; localized_name = l })) (map set_key ss)
unfolding duplicate_set
duplicate_set-Apart n l [] e = tt
duplicate_set-Apart n l (s ∷ ss) e = elim (Bool-cases (same s.name n)) [
  | inl c ↦ absurd (ground (arith, e, c))
  | inr c ↦ elim (Bool-cases (same s.localized_name l)) [
    | inl d ↦ absurd (ground (arith, e, c, d))
    | inr d ↦ (inr (c, d), duplicate_set-Apart n l ss (ground (arith, e, c, d)))
  ]
]

module _ (F : Scalars) where
  abbrev pub action_key : ActionState F → Key
  action_key a = record { group = a.action_set; name = a.name; localized_name = a.localized_name }

  erase_action-All :
      (P : Key → Type 0) (h : ℕ) (xs : List (ActionState F))
      → All P (map action_key xs)
      → All P (map action_key (erase_action F h xs))
  unfolding erase_action
  erase_action-All P h [] a = tt
  erase_action-All P h (x ∷ xs) a =
      if-elim (λ r. All P (map action_key r)) (x.handle == h) (λ _. a.1)
        (λ _. (a.0, erase_action-All P h xs a.1))

  pub erase_action-Unique :
      (h : ℕ) (xs : List (ActionState F))
      → Unique (map action_key xs)
      → Unique (map action_key (erase_action F h xs))
  unfolding erase_action
  erase_action-Unique h [] u = tt
  erase_action-Unique h (x ∷ xs) u =
      if-elim (λ r. Unique (map action_key r)) (x.handle == h) (λ _. u.2)
        (λ _. (u.0, erase_action-All (Apart (action_key x)) h xs u.1, erase_action-Unique h xs u.2))

  pub duplicate_action-Apart :
      (set : ℕ) (n l : Text) (xs : List (ActionState F))
      → duplicate_action F set n l xs ≡ none
      → All
          (λ k. Apart k (record { group = set; name = n; localized_name = l }))
          (map action_key xs)
  unfolding duplicate_action
  duplicate_action-Apart set n l [] e = tt
  duplicate_action-Apart set n l (x ∷ xs) e = elim (Bool-cases (x.action_set == set)) [
    | inr g ↦ (inl g, duplicate_action-Apart set n l xs (ground (arith, e, g)))
    | inl g ↦ elim (Bool-cases (same x.name n)) [
      | inl c ↦ absurd (ground (arith, e, g, c))
      | inr c ↦ elim (Bool-cases (same x.localized_name l)) [
        | inl d ↦ absurd (ground (arith, e, g, c, d))
        | inr d ↦ (inr (c, d), duplicate_action-Apart set n l xs (ground (arith, e, g, c, d)))
      ]
    ]
  ]

  -- The names of all that there is.
  pub record NamesUnique (w : World F) : Type 0 where
    pub sets_unique : Unique (map set_key w.action_sets)
    pub actions_unique : Unique (map action_key w.actions)
