-- ===== src/Swapchain/Order.antt =====
-- Swapchain.mm: the acquired images as a list of indices, and the states of all images.
use open_xr_osx.Base.{
  ℕ, zero, suc, ◌+◌, ◌<◌, ◌≡◌, refl, ap, ◌∙◌, Bool, true, false, ◌||◌, List, [], ◌∷◌, ◌++◌, arith,
  ◌==◌, if◌then◌else◌, length, get_or, set, replicate, All, All-append, get_or-replicate,
}
use open_xr_osx.Swapchain.{ImageState, available, acquired, waited, is_available}

unfoldable pub elem : ℕ → List ℕ → Bool
elem i [] = false
elem i (x ∷ xs) = (x == i) || elem i xs

abbrev pub Distinct : List ℕ → Type 0
Distinct [] = Unit
Distinct (x ∷ xs) = (elem x xs ≡ false) × Distinct xs

-- The images that the application has.
unfoldable pub busy : List ImageState → ℕ
busy [] = 0
busy (x ∷ xs) = (if is_available x then 0 else 1) + busy xs

abbrev pub tail : List ℕ → List ℕ
tail [] = []
tail (x ∷ xs) = xs

pub busy-set :
    (xs : List ImageState) (i : ℕ) (v : ImageState)
    → i < length xs
    → busy (set xs i v) + (if is_available (get_or xs i waited) then 0 else 1)
      ≡ busy xs + (if is_available v then 0 else 1)
unfolding busy
busy-set [] i v h = absurd (omega arith)
busy-set (x ∷ xs) zero v h = omega arith
busy-set (x ∷ xs) (suc i) v h = omega (arith, busy-set xs i v (omega arith))

pub busy_free :
    (xs : List ImageState)
    → busy xs < length xs
    → (i : ℕ) × (i < length xs) × (is_available (get_or xs i waited) ≡ true)
unfolding busy
busy_free [] h = absurd (omega arith)
busy_free (available ∷ xs) h = (0, omega arith, refl)
busy_free (acquired ∷ xs) h = let (i, lt, e) = busy_free xs (omega arith) in (suc i, omega arith, e)
busy_free (waited ∷ xs) h = let (i, lt, e) = busy_free xs (omega arith) in (suc i, omega arith, e)

pub elem-append : (i : ℕ) (xs ys : List ℕ) → elem i (xs ++ ys) ≡ (elem i xs || elem i ys)
unfolding elem
elem-append i [] ys = refl
elem-append i (x ∷ xs) ys = ground (arith, elem-append i xs ys)

pub Distinct-append :
    (xs : List ℕ) (y : ℕ) → Distinct xs → elem y xs ≡ false → Distinct (xs ++ y ∷ [])
unfolding elem
Distinct-append [] y d out = (refl, tt)
Distinct-append (x ∷ xs) y d out = (
  elem-append x xs (y ∷ []) ∙ ground (arith, d.0),
  Distinct-append xs y d.1 (ground (arith, out)),
)

pub All-elem :
    {P Q : ℕ → Type 0} (xs : List ℕ)
    → ((j : ℕ) → elem j xs ≡ true → P j → Q j)
    → All P xs
    → All Q xs
unfolding elem
All-elem [] f ps = tt
All-elem (x ∷ xs) f ps =
    (f x (ground arith) ps.0, All-elem xs (λ j e p. f j (ground (arith, e)) p) ps.1)

pub All-tail : (P : ℕ → Type 0) (xs : List ℕ) → All P xs → All P (tail xs)
All-tail P [] ps = tt
All-tail P (x ∷ xs) ps = ps.1

pub All-tail_append :
    (P : ℕ → Type 0) (xs : List ℕ) (i : ℕ) → All P (tail xs) → P i → All P (tail (xs ++ i ∷ []))
All-tail_append P [] i ps p = tt
All-tail_append P (x ∷ xs) i ps p = All-append P xs (i ∷ []) ps (p, tt)

pub get_or-replicate_available :
    (n i : ℕ) → i < n → is_available (get_or (replicate n available) i waited) ≡ true
get_or-replicate_available n i lt = ap is_available (get_or-replicate n i available waited lt)
