-- ===== src/Instance/Names.antt =====
-- Instance.cpp: the debug names.
use open_xr_osx.Base.{ℕ, ◌≡◌, ◌&&◌, Option, none, some, List, [], ◌∷◌, arith, if◌then◌else◌, ◌==◌}
use open_xr_osx.Instance.{Instance, Named, erase_name, set_object_name, find_name, get_object_name}

erased :
    (t h t' h' : ℕ) (ns : List Named)
    → find_name t' h' (erase_name t h ns)
      ≡ (if (t == t') && (h == h') then [] else find_name t' h' ns)
unfolding find_name erase_name
erased t h t' h' [] = ground arith
erased t h t' h' (n ∷ ns) = ground (arith, erased t h t' h' ns)

-- A name that is given, none where it is null.
given_name : Option (List ℕ) → List ℕ
given_name none = []
given_name (some name) = name

-- The name of an object is the one that was set last, where a null or empty name removes it, and
-- setting it changes the name of no other object.
get_object_name-set_object_name :
    (t h t' h' : ℕ) (name : Option (List ℕ)) (i : Instance)
    → get_object_name t' h' (set_object_name t h name i)
      ≡ (if (t == t') && (h == h') then given_name name else get_object_name t' h' i)
unfolding get_object_name set_object_name given_name find_name
get_object_name-set_object_name t h t' h' none i = erased t h t' h' i.debug_names
get_object_name-set_object_name t h t' h' (some []) i = erased t h t' h' i.debug_names
get_object_name-set_object_name t h t' h' (some (c ∷ cs)) i =
    ground (arith, erased t h t' h' i.debug_names)
