-- ===== src/Session/Labels.antt =====
-- Session.cpp: the debug labels are a stack with one label on top of it.
use open_xr_osx.Base.{◌≡◌, refl, sym, ap, ◌∙◌, List, [], ◌∷◌, ◌++◌, String}
use open_xr_osx.Session.{
  Session, pop_back, begin_label_region, end_label_region, insert_label, reversed, get_labels,
}

unfoldable pub pop : List String → List String
pop [] = []
pop (x ∷ xs) = xs

reversed-append : (xs : List String) (x : String) → reversed (xs ++ x ∷ []) ≡ x ∷ reversed xs
unfolding reversed
reversed-append [] x = refl
reversed-append (y ∷ xs) x = ap (λ r. r ++ y ∷ []) (reversed-append xs x)

pop-append :
    (xs : List String) (y z : String)
    → pop ((xs ++ y ∷ []) ++ z ∷ []) ≡ pop (xs ++ y ∷ []) ++ z ∷ []
unfolding pop
pop-append [] y z = refl
pop-append (x ∷ xs) y z = refl

reversed-pop_back : (xs : List String) → reversed (pop_back xs) ≡ pop (reversed xs)
unfolding reversed pop_back pop
reversed-pop_back [] = refl
reversed-pop_back (x ∷ []) = refl
reversed-pop_back (x ∷ y ∷ ys) =
    ap (λ r. r ++ x ∷ []) (reversed-pop_back (y ∷ ys)) ∙ sym (pop-append (reversed ys) y x)

-- The labels that a debug message is given, innermost first, are a stack: beginning a region puts
-- its label on top of the regions, ending one takes the innermost region away, and both forget the
-- inserted label, which stands on top of the regions until then or until the next one.
pub get_labels-stack :
    (s : Session) (name : String)
    → (get_labels (begin_label_region name s) ≡ name ∷ reversed s.label_regions)
      × (get_labels (end_label_region s) ≡ pop (reversed s.label_regions))
      × (get_labels (end_label_region (begin_label_region name s)) ≡ reversed s.label_regions)
      × (get_labels (insert_label name s) ≡ name ∷ reversed s.label_regions)
unfolding get_labels begin_label_region end_label_region insert_label pop
get_labels-stack s name = (
  reversed-append s.label_regions name,
  reversed-pop_back s.label_regions,
  reversed-pop_back (s.label_regions ++ name ∷ []) ∙ ap pop (reversed-append s.label_regions name),
  refl,
)
