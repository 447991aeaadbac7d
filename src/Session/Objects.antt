-- ===== src/Session/Objects.antt =====
-- Session.cpp: the debug labels, swapchains and spaces of a session, and `LocateViews`.
use open_xr_osx.Base.{
  ℕ, Bool, true, false, not, ◌||◌, Option, none, some, List, [], ◌∷◌, ◌++◌, ltb, ◌==◌,
  if◌then◌else◌, String, ℤ, is_nonpositive,
}
use open_xr_osx.Xr.{
  Result, success, validation_failure, handle_invalid, view_configuration_type_unsupported,
  time_invalid, pose_invalid, reference_space_unsupported, size_insufficient,
}
use open_xr_osx.Swapchain.{Swapchain}
use open_xr_osx.Layers.{owns_space}
use open_xr_osx.Session.State.{Session}

unfoldable pub begin_label_region : String → Session → Session
begin_label_region name s = record s {
  inserted_label = none;
  label_regions = s.label_regions ++ name ∷ [];
}

-- `pop_back`, where there is something to pop
unfoldable pub pop_back : List String → List String
pop_back [] = []
pop_back (x ∷ []) = []
pop_back (x ∷ y ∷ ys) = x ∷ pop_back (y ∷ ys)

unfoldable pub end_label_region : Session → Session
unfolding pop_back
end_label_region s = record s { label_regions = pop_back s.label_regions; inserted_label = none }

unfoldable pub insert_label : String → Session → Session
insert_label name s = record s { inserted_label = some name }

unfoldable pub reversed : List String → List String
reversed [] = []
reversed (x ∷ xs) = reversed xs ++ x ∷ []

unfoldable pub get_labels : Session → List String
unfolding reversed
get_labels s = elim s.inserted_label [
  | none ↦ reversed s.label_regions
  | some name ↦ name ∷ reversed s.label_regions
]

-- A new swapchain gets the next handle of the runtime; `none` is a null pointer.
unfoldable pub create_swapchain : ℕ → Option Swapchain → Session → Session × Result
create_swapchain handle none s = (s, validation_failure)
create_swapchain handle (some created) s =
    (record s { swapchains = s.swapchains ++ (handle, created) ∷ [] }, success)

-- The first entry with the handle goes; `none` if there is no such entry.
unfoldable pub erase : ℕ → List (ℕ × Swapchain) → Option (List (ℕ × Swapchain))
erase handle [] = none
erase handle ((h, s) ∷ ss) =
    let rest = erase handle ss in
    if h == handle then some ss else elim rest [ none ↦ none | some ss' ↦ some ((h, s) ∷ ss') ]

unfoldable pub keep_swapchains : Option (List (ℕ × Swapchain)) → Session → Session × Result
keep_swapchains none s = (s, handle_invalid)
keep_swapchains (some ss) s = (record s { swapchains = ss }, success)

unfoldable pub destroy_swapchain : ℕ → Session → Session × Result
destroy_swapchain handle s = keep_swapchains (erase handle s.swapchains) s

-- `XrReferenceSpaceType`, as far as the source names it.
pub data ReferenceSpaceType : Type 0 where
  view_space : ReferenceSpaceType
  local_space : ReferenceSpaceType
  stage_space : ReferenceSpaceType
  local_floor_space : ReferenceSpaceType
  other_space : ReferenceSpaceType

-- `switch (createInfo->referenceSpaceType)`
unfoldable pub is_space_supported : Bool → ReferenceSpaceType → Bool
is_space_supported supports_local_floor view_space = true
is_space_supported supports_local_floor local_space = true
is_space_supported supports_local_floor stage_space = true
is_space_supported supports_local_floor local_floor_space = supports_local_floor
is_space_supported supports_local_floor other_space = false

-- `given` is that no pointer is null; the new space gets the next handle of the runtime.
unfoldable pub create_reference_space :
    ℕ → Bool → Bool → Bool → ReferenceSpaceType → Session → Session × Result
create_reference_space handle given valid_pose supports_local_floor space_type s =
    if not given
    then (s, validation_failure)
    else if not valid_pose
    then (s, pose_invalid)
    else if not (is_space_supported supports_local_floor space_type)
    then (s, reference_space_unsupported)
    else (record s { spaces = s.spaces ++ handle ∷ [] }, success)

unfoldable pub create_action_space : ℕ → Bool → Session → Session × Result
create_action_space handle given s =
    if not given
    then (s, validation_failure)
    else (record s { spaces = s.spaces ++ handle ∷ [] }, success)

-- Without its first such entry; `none` if there is none.
unfoldable pub erase_space : ℕ → List ℕ → Option (List ℕ)
erase_space handle [] = none
erase_space handle (h ∷ hs) =
    let rest = erase_space handle hs in
    if h == handle then some hs else elim rest [ none ↦ none | some hs' ↦ some (h ∷ hs') ]

unfoldable pub keep_spaces : Option (List ℕ) → Session → Session × Result
keep_spaces none s = (s, handle_invalid)
keep_spaces (some hs) s = (record s { spaces = hs }, success)

unfoldable pub destroy_space : ℕ → Session → Session × Result
destroy_space handle s = keep_spaces (erase_space handle s.spaces) s

-- `LocateViews`: `given` is that the info and both outputs are not null, `right_types` that their
-- types are right, `stereo` that the view configuration is the stereo one, and `views_given` that
-- the array is not null. The result comes with the count that is written, if any; the views
-- themselves are the input manager's.
unfoldable pub locate_views :
    (given right_types : Bool) (display_time : ℤ) (stereo : Bool) (space : ℕ) (capacity : ℕ)
    (views_given : Bool)
    → Session
    → Result × Option ℕ
locate_views given right_types display_time stereo space capacity views_given s =
    if not given || not right_types
    then (validation_failure, none)
    else if is_nonpositive display_time
    then (time_invalid, none)
    else if not stereo
    then (view_configuration_type_unsupported, none)
    else if not (owns_space space s.spaces)
    then (handle_invalid, none)
    else if capacity == 0
    then (success, some 2)
    else if not views_given
    then (validation_failure, some 2)
    else if ltb capacity 2
    then (size_insufficient, some 2)
    else (success, some 2)
