-- ===== src/Base/Strings.antt =====
-- Texts as lists of byte values, with the searches of `std::string` on them.
use Prim.Native.String.{String}
use Prim.Native.Char.{code}
use Prim.Native.Nat.{ℕ, ◌+◌}
use mathlib.Core.Bool.{Bool, true, false, ◌&&◌, ◌||◌}
use mathlib.Core.Path.{◌≡◌, refl, ap, ◌∙◌}
use native.Mathlib.Omega.{arith}
use mathlib.Core.List.{List, [], ◌∷◌, map}
use open_xr_osx.Base.Tests.{◌==◌, leb, if◌then◌else◌}

abbrev pub Text : Type 0
Text = List ℕ

-- The bytes of an ASCII text.
abbrev pub codes : String → Text
codes String.[] = []
codes (String.◌∷◌ c s) = code c ∷ codes s

-- `std::string::operator==`
unfoldable pub same : Text → Text → Bool
same [] [] = true
same [] (y ∷ ys) = false
same (x ∷ xs) [] = false
same (x ∷ xs) (y ∷ ys) = (x == y) && same xs ys

pub same_eq : (xs ys : List ℕ) → same xs ys ≡ true → xs ≡ ys
unfolding same
same_eq [] [] e = refl
same_eq [] (y ∷ ys) e = absurd (ground (arith, e))
same_eq (x ∷ xs) [] e = absurd (ground (arith, e))
same_eq (x ∷ xs) (y ∷ ys) e =
    ap (λ z. z ∷ xs) {x = x} {y = y} (ground (arith, e))
    ∙ ap (λ zs. y ∷ zs) (same_eq xs ys (ground (arith, e)))

pub same_self : (xs : List ℕ) → same xs xs ≡ true
unfolding same
same_self [] = refl
same_self (x ∷ xs) = ground (arith, same_self xs)

-- Whether a text begins with another.
unfoldable pub has_prefix : Text → Text → Bool
has_prefix [] s = true
has_prefix (p ∷ ps) [] = false
has_prefix (p ∷ ps) (c ∷ cs) = (p == c) && has_prefix ps cs

-- `s.find(needle) != npos`
unfoldable pub contains : Text → Text → Bool
unfolding has_prefix
contains needle [] = has_prefix needle []
contains needle (c ∷ cs) = has_prefix needle (c ∷ cs) || contains needle cs

-- `std::tolower` in the C locale, for every character
unfoldable pub lower : Text → Text
lower = map (λ c. if leb 65 c && leb c 90 then c + 32 else c)
