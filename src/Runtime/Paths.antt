-- ===== src/Runtime/Paths.antt =====
-- Runtime.cpp: a path stands for one string, for good.
use open_xr_osx.Base.{
  ℕ, ◌+◌, ◌%◌, ◌^◌, ◌≤◌, ◌<◌, ◌≡◌, ◌↔◌, refl, sym, ap, ◌∙◌, true, false, Option, none, some, List,
  [], ◌∷◌, arith, ◌==◌, length, Bool-cases, ◌⊎◌, inl, inr, subst, same, same_eq, same_self,
}
use open_xr_osx.Xr.{success}
use open_xr_osx.Runtime.{
  Runtime, fresh, is_path_format, find_string, find_path, intern, string_to_path_call,
  path_to_string_found, path_to_string_call,
}

-- Both maps list the same pairs, newest first, with smaller numbers behind greater ones.
pub data Paired : ℕ → List (ℕ × List ℕ) → List (List ℕ × ℕ) → Type 0 where
  no_paths : Paired 1 [] []
  one_more :
      {n : ℕ} {ps : List (ℕ × List ℕ)} {sp : List (List ℕ × ℕ)} (s : List ℕ)
      → Paired n ps sp
      → find_string s sp ≡ none
      → Paired (n + 1) ((n, s) ∷ ps) ((s, n) ∷ sp)

-- What a pair of maps says of a string: nothing, or a path that leads back to it.
abbrev HasPath : ℕ → List (ℕ × List ℕ) → List (List ℕ × ℕ) → List ℕ → Type 0
HasPath n ps sp str =
    (p : ℕ) × (find_string str sp ≡ some p) × (find_path p ps ≡ some str) × (p < n)

module _ (n : ℕ) (ps : List (ℕ × List ℕ)) (s str : List ℕ) where
  find_path_first : n ≡ n → find_path n ((n, s) ∷ ps) ≡ some s
  unfolding find_path
  find_path_first e = rw here refl
    where
      here : (n == n) ≡ true
      here = ground arith

  find_path_later : (p : ℕ) → p < n → find_path p ((n, s) ∷ ps) ≡ find_path p ps
  unfolding find_path
  find_path_later p lt = rw other refl
    where
      other : (n == p) ≡ false
      other = ground arith

find_string_first :
    (s : List ℕ) (n : ℕ) (sp : List (List ℕ × ℕ)) → find_string s ((s, n) ∷ sp) ≡ some n
unfolding find_string
find_string_first s n sp = rw (same_self s) refl

strings_known :
    {n : ℕ} {ps : List (ℕ × List ℕ)} {sp : List (List ℕ × ℕ)}
    → Paired n ps sp
    → (str : List ℕ) → (find_string str sp ≡ none) ⊎ HasPath n ps sp str
unfolding find_string
strings_known no_paths str = inl refl
strings_known (one_more {n} {ps} {sp} s paired new) str = elim (Bool-cases (same s str)) [
  | inl e ↦
      inr (n, rw e refl, find_path_first n ps s str refl ∙ ap some (same_eq s str e), omega arith)
  | inr e ↦ elim (strings_known paired str) [
    | inl missing ↦ inl (rw e missing)
    | inr (p, found, back, lt) ↦
        inr (p, rw e found, find_path_later n ps s str p lt ∙ back, omega arith)
  ]
]

pub Inv : Runtime → Type 0
Inv r = Paired r.next_path r.path_to_string r.string_to_path

pub fresh-Inv : Inv fresh
unfolding fresh Inv
fresh-Inv = no_paths

-- Interning a string leaves a path that leads back to it, and all earlier ones.
pub record Interned (str : List ℕ) (r : Runtime) (r' : Runtime) (p : ℕ) : Type 0 where
  pub inv : Inv r'
  pub found : find_string str r'.string_to_path ≡ some p
  pub back : find_path p r'.path_to_string ≡ some str
  pub kept :
      (q : ℕ) (s : List ℕ)
      → q < r.next_path
      → find_path q r.path_to_string ≡ some s
      → find_path q r'.path_to_string ≡ some s
  pub below : p < r'.next_path
  pub grows : r'.next_path ≤ r.next_path + 1

intern_known :
    (str : List ℕ) (r : Runtime)
    → Inv r
    → HasPath r.next_path r.path_to_string r.string_to_path str
    → Interned str r
        (intern (find_string str r.string_to_path) str r).0
        (intern (find_string str r.string_to_path) str r).1
unfolding intern
intern_known str r h (p, found, back, lt) =
    subst (λ o. Interned str r (intern o str r).0 (intern o str r).1) (sym found)
      (record {
        inv = h;
        found = found;
        back = back;
        kept = λ q s lt e. e;
        below = lt;
        grows = omega arith;
      })

intern_new :
    (str : List ℕ) (r : Runtime)
    → Inv r
    → r.next_path + 1 < 2 ^ 64
    → find_string str r.string_to_path ≡ none
    → Interned str r
        (intern (find_string str r.string_to_path) str r).0
        (intern (find_string str r.string_to_path) str r).1
unfolding intern Inv
intern_new str r h small missing =
    subst (λ o. Interned str r (intern o str r).0 (intern o str r).1) (sym missing)
      (record {
        inv =
            subst
              (λ n.
                Paired n ((r.next_path, str) ∷ r.path_to_string)
                  ((str, r.next_path) ∷ r.string_to_path))
              next (one_more str h missing);
        found = find_string_first str r.next_path r.string_to_path;
        back = find_path_first r.next_path r.path_to_string str str refl;
        kept = λ q s lt e. find_path_later r.next_path r.path_to_string str str q lt ∙ e;
        below = omega (arith, next);
        grows = omega arith;
      })
  where
    next : r.next_path + 1 ≡ (r.next_path + 1) % 2 ^ 64
    next = omega arith

interned :
    (str : List ℕ) (r : Runtime)
    → Inv r
    → r.next_path + 1 < 2 ^ 64
    → Interned str r
        (intern (find_string str r.string_to_path) str r).0
        (intern (find_string str r.string_to_path) str r).1
unfolding Inv
interned str r h small = elim (strings_known h str) [
  | inl missing ↦ intern_new str r h small missing
  | inr known ↦ intern_known str r h known
]

success_call :
    (max_length : ℕ) (str : List ℕ) (r : Runtime)
    → is_path_format max_length str ≡ true
    → string_to_path_call max_length true str r ≡ (
      (intern (find_string str r.string_to_path) str r).0,
      success,
      some (intern (find_string str r.string_to_path) str r).1,
    )
unfolding string_to_path_call
success_call max_length str r format = ground (arith, format)

path_to_string_known :
    (p capacity : ℕ) (str : List ℕ) (r : Runtime)
    → find_path p r.path_to_string ≡ some str
    → length str + 1 < 2 ^ 32
    → length str < capacity
    → path_to_string_call p capacity true r ≡ (success, some (length str + 1), some str)
unfolding path_to_string_call path_to_string_found
path_to_string_known p capacity str r back short fits =
    ap (λ o. path_to_string_found o capacity) back ∙ ground arith

-- A well-formed string is given a path, and `PathToString` with enough room writes that string for
-- it again; the maps stay in order. Fewer than 2^64 - 1 paths are in use.
pub string_to_path-path_to_string :
    (max_length capacity : ℕ) (str : List ℕ) (r : Runtime)
    → Inv r
    → r.next_path + 1 < 2 ^ 64
    → is_path_format max_length str ≡ true
    → length str + 1 < 2 ^ 32
    → length str < capacity
    → (r' : Runtime) × (p : ℕ) × (string_to_path_call max_length true str r ≡ (r', success, some p))
      × Inv r'
      × (path_to_string_call p capacity true r' ≡ (success, some (length str + 1), some str))
string_to_path-path_to_string max_length capacity str r h small format short fits =
    let i = interned str r h small in
    (
      (intern (find_string str r.string_to_path) str r).0,
      (intern (find_string str r.string_to_path) str r).1,
      success_call max_length str r format,
      i.inv,
      path_to_string_known _ capacity str _ i.back short fits,
    )

intern_again :
    (str : List ℕ) (r : Runtime) (p : ℕ)
    → find_string str r.string_to_path ≡ some p
    → (intern (find_string str r.string_to_path) str r).1 ≡ p
unfolding intern
intern_again str r p found = ap (λ o. (intern o str r).1) found

get : List ℕ → Option (List ℕ) → List ℕ
get d none = d
get d (some s) = s

some_eq : (d s t : List ℕ) → some s ≡ some t → s ≡ t
unfolding get
some_eq d s t e = ap (get d) e

-- Two strings that are interned one after the other get the same path if and only if they are the
-- same.
intern_iff :
    (first second : List ℕ) (r : Runtime)
    → Inv r
    → r.next_path + 2 < 2 ^ 64
    → ((intern (find_string first r.string_to_path) first r).1
        ≡ (intern
            (find_string second
              (intern (find_string first r.string_to_path) first r).0.string_to_path)
            second
            (intern (find_string first r.string_to_path) first r).0).1)
      ↔ (first ≡ second)
intern_iff first second r h small = (there, back)
  where
    r1 : Runtime
    r1 = (intern (find_string first r.string_to_path) first r).0

    p1 : ℕ
    p1 = (intern (find_string first r.string_to_path) first r).1

    i1 : Interned first r r1 p1
    i1 = interned first r h (omega arith)

    r2 : Runtime
    r2 = (intern (find_string second r1.string_to_path) second r1).0

    p2 : ℕ
    p2 = (intern (find_string second r1.string_to_path) second r1).1

    i2 : Interned second r1 r2 p2
    i2 = interned second r1 i1.inv (omega (arith, i1.grows))

    there : p1 ≡ p2 → first ≡ second
    there e = some_eq first first second (
        sym (i2.kept p1 first i1.below i1.back)
        ∙ ap (λ q. find_path q r2.path_to_string) e
        ∙ i2.back)

    back : first ≡ second → p1 ≡ p2
    back e =
        sym
          (intern_again second r1 p1 (ap (λ s. find_string s r1.string_to_path) (sym e) ∙ i1.found))
