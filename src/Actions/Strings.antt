-- ===== src/Actions/Strings.antt =====
-- runtime/src/EntryPoint.cpp: the names of actions and the paths of their bindings.
use open_xr_osx.Base.{
  ℕ, ◌+◌, ◌-◌, Bool, true, false, not, ◌&&◌, ◌||◌, Option, none, some, List, [], ◌∷◌, ◌++◌, ltb,
  leb, ◌==◌, if◌then◌else◌, length, drop, Text, codes, same, contains, has_prefix,
}
use open_xr_osx.Instance.{Instance, is_extension_enabled}
use open_xr_osx.Runtime.{is_path_char}

unfoldable pub all_path_chars : Text → Bool
unfolding is_path_char
all_path_chars [] = true
all_path_chars (c ∷ cs) = is_path_char c && all_path_chars cs

unfoldable pub is_valid_single_level_path_name : Text → Bool
unfolding all_path_chars
is_valid_single_level_path_name [] = false
is_valid_single_level_path_name (c ∷ cs) = all_path_chars (c ∷ cs)

abbrev pub left_hand : Text
left_hand = codes "/user/hand/left"

abbrev pub right_hand : Text
right_hand = codes "/user/hand/right"

abbrev pub input_marker : Text
input_marker = codes "/input/"

abbrev pub output_marker : Text
output_marker = codes "/output/"

unfoldable pub is_supported_action_subaction_path : Text → Bool
unfolding same
is_supported_action_subaction_path path =
    same path left_hand || (same path right_hand || same path (codes "/user/gamepad"))

-- `std::unordered_set<std::string>::contains`
unfoldable pub is_among : List Text → Text → Bool
unfolding same
is_among [] t = false
is_among (u ∷ us) t = same u t || is_among us t

abbrev profiles10 : List Text
profiles10 =
    codes "/interaction_profiles/khr/simple_controller"
    ∷ codes "/interaction_profiles/google/daydream_controller"
    ∷ codes "/interaction_profiles/htc/vive_controller"
    ∷ codes "/interaction_profiles/htc/vive_pro"
    ∷ codes "/interaction_profiles/microsoft/motion_controller"
    ∷ codes "/interaction_profiles/microsoft/xbox_controller"
    ∷ codes "/interaction_profiles/oculus/go_controller"
    ∷ codes "/interaction_profiles/oculus/touch_controller"
    ∷ codes "/interaction_profiles/valve/index_controller"
    ∷ []

abbrev profiles11 : List Text
profiles11 =
    codes "/interaction_profiles/bytedance/pico_neo3_controller"
    ∷ codes "/interaction_profiles/bytedance/pico4_controller"
    ∷ codes "/interaction_profiles/bytedance/pico_g3_controller"
    ∷ codes "/interaction_profiles/hp/mixed_reality_controller"
    ∷ codes "/interaction_profiles/htc/vive_cosmos_controller"
    ∷ codes "/interaction_profiles/htc/vive_focus3_controller"
    ∷ codes "/interaction_profiles/meta/touch_controller_rift_cv1"
    ∷ codes "/interaction_profiles/meta/touch_controller_quest_1_rift_s"
    ∷ codes "/interaction_profiles/meta/touch_controller_quest_2"
    ∷ codes "/interaction_profiles/meta/touch_plus_controller"
    ∷ codes "/interaction_profiles/meta/touch_pro_controller"
    ∷ codes "/interaction_profiles/ml/ml2_controller"
    ∷ codes "/interaction_profiles/samsung/odyssey_controller"
    ∷ []

abbrev pub hand_interaction_profile : Text
hand_interaction_profile = codes "/interaction_profiles/ext/hand_interaction_ext"

-- `XR_EXT_HAND_INTERACTION_EXTENSION_NAME`
abbrev pub hand_interaction_extension : Text
hand_interaction_extension = codes "XR_EXT_hand_interaction"

-- `XR_MAKE_VERSION(1, 1, 0)`: the major number stands above 48 bits, the minor number above 32.
abbrev pub version_1_1 : ℕ
version_1_1 = 0x1000100000000

unfoldable pub is_known_interaction_profile_path : Instance → Text → Bool
unfolding is_among same is_extension_enabled
is_known_interaction_profile_path i profile_path =
    if is_among profiles10 profile_path
    then true
    else if same profile_path hand_interaction_profile
    then is_extension_enabled hand_interaction_extension i.enabled_extensions
    else leb version_1_1 i.api_version && is_among profiles11 profile_path

-- What stands before the first occurrence of a text (`find`, `substr`), and behind it.
unfoldable pub split_at : Text → Text → Option (Text × Text)
unfolding has_prefix
split_at marker [] = none
split_at marker (c ∷ cs) =
    let rest = split_at marker cs in
    if has_prefix marker (c ∷ cs)
    then some ([], drop (length marker) (c ∷ cs))
    else elim rest [ none ↦ none | some (before, behind) ↦ some (c ∷ before, behind) ]

-- Of the two markers the one that comes first counts.
abbrev first_of : Option (Text × Text) → Option (Text × Text) → Option (Text × Text)
first_of none output = output
first_of (some input) none = some input
first_of (some input) (some output) =
    if leb (length input.0) (length output.0) then some input else some output

-- `parseComponent`: the top level path and the component path.
unfoldable pub parse_component : Text → Option (Text × Text)
unfolding split_at
parse_component path = first_of (split_at input_marker path) (split_at output_marker path)

-- `std::count(path.begin(), path.end(), '/')`
unfoldable pub count_slashes : Text → ℕ
count_slashes [] = 0
count_slashes (c ∷ cs) = (if c == b'/' then 1 else 0) + count_slashes cs

-- `path.ends_with(suffix)`
unfoldable pub ends_with : Text → Text → Bool
unfolding same
ends_with suffix s =
    leb (length suffix) (length s) && same (drop (length s - length suffix) s) suffix

abbrev pub is_hand : Text → Bool
is_hand top = same top left_hand || same top right_hand

abbrev hand_components : List Text
hand_components =
    codes "pinch_ext/pose"
    ∷ codes "pinch_ext/value"
    ∷ codes "pinch_ext/ready_ext"
    ∷ codes "poke_ext/pose"
    ∷ codes "grasp_ext/ready_ext"
    ∷ codes "grasp_ext/value"
    ∷ codes "aim_activate_ext/ready_ext"
    ∷ codes "aim_activate_ext/value"
    ∷ []

abbrev hand_profile_components : List Text
hand_profile_components =
    codes "aim/pose" ∷ codes "grip/pose" ∷ codes "grip_surface/pose" ∷ hand_components

-- The checks of a path that was parsed.
unfoldable pub is_valid_component :
    Instance → (profile_path binding_path top_level_path component_path : Text) → Bool
unfolding same is_among is_extension_enabled contains ends_with count_slashes
is_valid_component i profile_path binding_path top component =
    let is_11 = leb version_1_1 i.api_version in
    if same component []
    then false
    else if not (
        same top left_hand
        || (same top right_hand
            || (same top (codes "/user/gamepad") || same top (codes "/user/head"))))
    then false
    else if same component (codes "haptic")
    then same binding_path (top ++ codes "/output/haptic")
    else if same component (codes "palm_ext/pose")
    then false
    else if (same component (codes "trigger/proximity")
          || same component (codes "thumb_resting_surfaces/proximity"))
        && not is_11
    then false
    else if ends_with (codes "/proximity_fb") component
    then false
    else if contains (codes "/dpad_") component
    then false
    else if is_among hand_components component
    then is_hand top && is_extension_enabled hand_interaction_extension i.enabled_extensions
    else if ltb 2 (count_slashes component + 1)
    then false
    else if same profile_path hand_interaction_profile
    then if same component (codes "grip_surface/pose")
      then is_hand top && is_11
      else is_hand top && is_among hand_profile_components component
    else if same component (codes "grip_surface/pose") && not is_11
    then false
    else true

abbrev checked_component :
    Instance → (profile_path binding_path : Text) → Option (Text × Text) → Bool
checked_component i profile_path binding_path none = false
checked_component i profile_path binding_path (some (top, component)) =
    is_valid_component i profile_path binding_path top component

unfoldable pub is_valid_binding_path_for_profile :
    Instance → (profile_path binding_path : Text) → Bool
unfolding parse_component is_valid_component
is_valid_binding_path_for_profile i profile_path binding_path =
    checked_component i profile_path binding_path (parse_component binding_path)

abbrev behind_or_empty : Option (Text × Text) → Text
behind_or_empty none = []
behind_or_empty (some (before, behind)) = behind

unfoldable pub component_from_binding_path : Text → Text
unfolding split_at
component_from_binding_path path = behind_or_empty (split_at input_marker path)

abbrev before_or_empty : Option (Text × Text) → Text
before_or_empty none = []
before_or_empty (some (before, behind)) = before

-- `topLevelPathString`
unfoldable pub top_level_of_binding : Text → Text
unfolding split_at same
top_level_of_binding path =
    let top = before_or_empty (split_at input_marker path) in
    if same top [] then before_or_empty (split_at output_marker path) else top
