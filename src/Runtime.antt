-- ===== src/Runtime.antt =====
-- runtime/src/Runtime.h and Runtime.cpp: handles, and paths as numbers. A string is the list of its
-- character codes; the maps of the source are association lists, in which a key is added only where
-- it was missing. An object behind a handle is a number.
pub mod Paths
use open_xr_osx.Base.{
  ℕ, zero, suc, ◌+◌, ◌%◌, ◌^◌, Bool, true, false, not, ◌&&◌, ◌||◌, Option, none, some, List, [],
  ◌∷◌, ◌++◌, ltb, leb, ◌==◌, if◌then◌else◌, length, same,
}
use open_xr_osx.Protocol.{u32}
use open_xr_osx.Xr.{
  Result, success, validation_failure, path_format_invalid, path_invalid, size_insufficient,
}

pub record Runtime : Type 0 where
  pub next_handle : ℕ  -- uint64
  pub handles : List (ℕ × ℕ)
  pub next_path : ℕ  -- uint64
  pub path_to_string : List (ℕ × List ℕ)
  pub string_to_path : List (List ℕ × ℕ)

unfoldable pub fresh : Runtime
fresh = record {
  next_handle = 1;
  handles = [];
  next_path = 1;
  path_to_string = [];
  string_to_path = [];
}

-- The key is new, as the counter only grows.
unfoldable pub register_handle : ℕ → Runtime → Runtime × ℕ
register_handle object r = (
  record r {
    next_handle = (r.next_handle + 1) % 2 ^ 64;
    handles = (r.next_handle, object) ∷ r.handles;
  },
  r.next_handle,
)

unfoldable pub lookup : ℕ → List (ℕ × ℕ) → Option ℕ
lookup h [] = none
lookup h ((h', object) ∷ hs) = if h' == h then some object else lookup h hs

unfoldable pub from_handle : ℕ → Runtime → Option ℕ
from_handle h r = lookup h r.handles

unfoldable pub without : ℕ → List (ℕ × ℕ) → List (ℕ × ℕ)
without h [] = []
without h ((h', object) ∷ hs) =
    let rest = without h hs in if h' == h then rest else (h', object) ∷ rest

unfoldable pub remove_handle : ℕ → Runtime → Runtime
remove_handle h r = record r { handles = without h r.handles }

abbrev pub slash : ℕ
slash = 47

abbrev pub dot : ℕ
dot = 46

unfoldable pub starts_with_slash : List ℕ → Bool
starts_with_slash [] = false
starts_with_slash (c ∷ cs) = c == slash

-- `str.back() == '/'`
unfoldable pub ends_with_slash : List ℕ → Bool
ends_with_slash [] = false
ends_with_slash (c ∷ []) = c == slash
ends_with_slash (c ∷ d ∷ ds) = ends_with_slash (d ∷ ds)

-- `str.find("//") != npos`
unfoldable pub has_double_slash : List ℕ → Bool
has_double_slash [] = false
has_double_slash (c ∷ []) = false
has_double_slash (c ∷ d ∷ ds) = ((c == slash) && (d == slash)) || has_double_slash (d ∷ ds)

-- `segment.empty() || segment == "." || segment == ".."`
unfoldable pub bad_segment : List ℕ → Bool
unfolding same
bad_segment segment =
    (length segment == 0) || (same segment (dot ∷ []) || same segment (dot ∷ dot ∷ []))

-- The loop over the segments: the characters before the next slash are in the first argument. There
-- is a last segment behind the last slash, which may be empty.
unfoldable pub has_bad_segment : List ℕ → List ℕ → Bool
has_bad_segment segment [] = bad_segment segment
has_bad_segment segment (c ∷ cs) =
    if c == slash
    then bad_segment segment || has_bad_segment [] cs
    else has_bad_segment (segment ++ c ∷ []) cs

-- `std::islower`, `std::isdigit`, `_`, `-` and `.`
unfoldable pub is_path_char : ℕ → Bool
is_path_char c =
    (leb 97 c && leb c 122) || ((leb 48 c && leb c 57) || ((c == 95) || ((c == 45) || (c == dot))))

-- `for (char ch : str)`
unfoldable pub has_bad_char : List ℕ → Bool
has_bad_char [] = false
has_bad_char (c ∷ cs) = (not (c == slash) && not (is_path_char c)) || has_bad_char cs

unfoldable pub rest_of : List ℕ → List ℕ
rest_of [] = []
rest_of (c ∷ cs) = cs

-- The checks of `StringToPath`; `max_length` is `XR_MAX_PATH_LENGTH`.
unfoldable pub is_path_format : ℕ → List ℕ → Bool
is_path_format max_length str =
    if (length str == 0) || (leb max_length (length str) || not (starts_with_slash str))
    then false
    else if ltb 1 (length str) && ends_with_slash str
    then false
    else if has_double_slash str
    then false
    else if has_bad_segment [] (rest_of str)
    then false
    else not (has_bad_char str)

unfoldable pub find_string : List ℕ → List (List ℕ × ℕ) → Option ℕ
find_string str [] = none
find_string str ((s, p) ∷ sp) = if same s str then some p else find_string str sp

unfoldable pub find_path : ℕ → List (ℕ × List ℕ) → Option (List ℕ)
find_path path [] = none
find_path path ((p, s) ∷ ps) = if p == path then some s else find_path path ps

-- From `auto it = stringToPath_.find(str)` on.
unfoldable pub intern : Option ℕ → List ℕ → Runtime → Runtime × ℕ
intern (some p) str r = (r, p)
intern none str r = (
  record r {
    next_path = (r.next_path + 1) % 2 ^ 64;
    string_to_path = (str, r.next_path) ∷ r.string_to_path;
    path_to_string = (r.next_path, str) ∷ r.path_to_string;
  },
  r.next_path,
)

-- `given` is that no pointer is null.
unfoldable pub string_to_path_call : ℕ → Bool → List ℕ → Runtime → Runtime × Result × Option ℕ
string_to_path_call max_length given str r =
    let (r', p) = intern (find_string str r.string_to_path) str r in
    if not given
    then (r, validation_failure, none)
    else if not (is_path_format max_length str)
    then (r, path_format_invalid, none)
    else (r', success, some p)

-- The result, the count that is written, and the characters that are written.
unfoldable pub path_to_string_found : Option (List ℕ) → ℕ → Result × Option ℕ × Option (List ℕ)
path_to_string_found none capacity = (path_invalid, none, none)
path_to_string_found (some str) capacity =
    let needed = u32 (length str + 1) in
    if capacity == 0
    then (success, some needed, none)
    else if ltb capacity needed
    then (size_insufficient, some needed, none)
    else (success, some needed, some str)

unfoldable pub path_to_string_call : ℕ → ℕ → Bool → Runtime → Result × Option ℕ × Option (List ℕ)
path_to_string_call path capacity given r =
    if not given
    then (validation_failure, none, none)
    else path_to_string_found (find_path path r.path_to_string) capacity
