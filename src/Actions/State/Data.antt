-- ===== src/Actions/State/Data.antt =====
-- runtime/src/ActionSet.h and EntryPoint.cpp: the data of action sets and actions, and the lookups in
-- the lists of them.
use open_xr_osx.Base.{
  ℕ, Bool, false, not, ◌&&◌, ◌||◌, Option, none, some, List, [], ◌∷◌, ◌==◌, if◌then◌else◌, Text,
  same,
}
use open_xr_osx.Xr.{
  Result, path_invalid, path_unsupported, name_duplicated, localized_name_duplicated,
}
use open_xr_osx.Runtime.{Runtime, find_path}
use open_xr_osx.Actions.Strings.{is_supported_action_subaction_path}

-- `float` with what the code asks of it: whether two differ by more than 0.0001, and whether one
-- has the larger absolute value.
pub record Scalars : Type 1 where
  pub Float : Type 0
  pub zero_float : Float
  pub max_float : Float → Float → Float
  pub differs : Float → Float → Bool
  pub larger : Float → Float → Bool

pub data ActionType : Type 0 where
  boolean_input float_input vector2f_input pose_input vibration_output : ActionType

pub record ActionSetState : Type 0 where
  pub handle : ℕ
  pub name : Text
  pub localized_name : Text

pub record SuggestedBinding : Type 0 where
  pub action_handle : ℕ
  pub binding_path : ℕ
  pub top_level_path : ℕ
  pub binding_path_string : Text
  pub component_path : Text

-- `Runtime::GetPathString`
abbrev pub text_or_empty : Option Text → Text
text_or_empty none = []
text_or_empty (some t) = t

unfoldable pub get_path_string : ℕ → Runtime → Text
unfolding find_path
get_path_string path r = text_or_empty (find_path path r.path_to_string)

-- `std::find(…) != end()`
unfoldable pub member : ℕ → List ℕ → Bool
member h [] = false
member h (x ∷ xs) = (x == h) || member h xs

-- `std::remove`
unfoldable pub remove_all : ℕ → List ℕ → List ℕ
remove_all h [] = []
remove_all h (x ∷ xs) = let rest = remove_all h xs in if x == h then rest else x ∷ rest

-- The set behind a handle or a pointer.
unfoldable pub find_set : ℕ → List ActionSetState → Option ActionSetState
find_set h [] = none
find_set h (s ∷ ss) = if s.handle == h then some s else find_set h ss

-- `gActionSets.erase(it)` at the first set with the handle.
unfoldable pub erase_set : ℕ → List ActionSetState → List ActionSetState
erase_set h [] = []
erase_set h (s ∷ ss) = if s.handle == h then ss else s ∷ erase_set h ss

-- The loop over the objects that are there.
unfoldable pub duplicate_set : (name localized_name : Text) → List ActionSetState → Option Result
unfolding same
duplicate_set name localized_name [] = none
duplicate_set name localized_name (s ∷ ss) =
    if same s.name name
    then some name_duplicated
    else if same s.localized_name localized_name
    then some localized_name_duplicated
    else duplicate_set name localized_name ss

-- The loop over `subactionPaths`.
unfoldable pub check_subaction_paths : Runtime → (seen paths : List ℕ) → Option Result
unfolding get_path_string member is_supported_action_subaction_path same
check_subaction_paths r seen [] = none
check_subaction_paths r seen (p ∷ ps) =
    let text = get_path_string p r in
    if same text []
    then some path_invalid
    else if not (is_supported_action_subaction_path text) || member p seen
    then some path_unsupported
    else check_subaction_paths r (p ∷ seen) ps

module _ (F : Scalars) where
  open F use {Float, zero_float}

  pub record Vector2 : Type 0 where
    pub x : Float
    pub y : Float

  abbrev pub zero_vector : Vector2
  zero_vector = record { x = zero_float; y = zero_float }

  pub record SubactionData : Type 0 where
    pub is_active : Bool
    pub bool_value : Bool
    pub bool_changed : Bool
    pub float_value : Float
    pub float_changed : Bool
    pub vector2f_value : Vector2
    pub vector2f_changed : Bool
    pub pose_active : Bool
    pub pose_source_path : ℕ
    pub last_change_time : ℕ
    pub bound_sources : List ℕ

  -- `= {}`
  abbrev pub no_data : SubactionData
  no_data = record {
    is_active = false;
    bool_value = false;
    bool_changed = false;
    float_value = zero_float;
    float_changed = false;
    vector2f_value = zero_vector;
    vector2f_changed = false;
    pose_active = false;
    pose_source_path = 0;
    last_change_time = 0;
    bound_sources = [];
  }

  pub record ActionState : Type 0 where
    pub handle : ℕ
    pub action_set : ℕ
    pub name : Text
    pub localized_name : Text
    pub action_type : ActionType
    pub subaction_paths : List ℕ
    pub subaction_data : List (ℕ × SubactionData)

  -- The globals of EntryPoint.cpp for actions, with the runtime's handles and paths.
  pub record World : Type 0 where
    pub runtime : Runtime
    pub action_sets : List ActionSetState
    pub actions : List ActionState
    pub suggested_bindings : List (ℕ × List SuggestedBinding)
    pub action_sets_attached : Bool
    pub attached_handles : List ℕ

  unfoldable pub find_action : ℕ → List ActionState → Option ActionState
  find_action h [] = none
  find_action h (a ∷ rest) = if a.handle == h then some a else find_action h rest

  unfoldable pub erase_action : ℕ → List ActionState → List ActionState
  erase_action h [] = []
  erase_action h (a ∷ rest) = if a.handle == h then rest else a ∷ erase_action h rest

  unfoldable pub duplicate_action :
      (set : ℕ) (name localized_name : Text) → List ActionState → Option Result
  unfolding same
  duplicate_action set name localized_name [] = none
  duplicate_action set name localized_name (a ∷ rest) =
      if not (a.action_set == set)
      then duplicate_action set name localized_name rest
      else if same a.name name
      then some name_duplicated
      else if same a.localized_name localized_name
      then some localized_name_duplicated
      else duplicate_action set name localized_name rest

  unfoldable pub is_attached_action_set_handle : ℕ → World → Bool
  unfolding member
  is_attached_action_set_handle h w = w.action_sets_attached && member h w.attached_handles
