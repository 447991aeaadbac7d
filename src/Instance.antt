-- ===== src/Instance.antt =====
-- runtime/src/Instance.h and Instance.cpp: the system, the enumerations, the event queue and the
-- debug names. A handle is a number, and a string is the list of its character codes. The constants
-- that are written into property structs are left out.
pub mod Queue
pub mod Names
pub mod Enumerations
use open_xr_osx.Base.{
  ℕ, zero, suc, Bool, true, false, not, ◌&&◌, ◌||◌, Option, none, some, List, [], ◌∷◌, ◌++◌, ltb,
  leb, ◌==◌, if◌then◌else◌, length, same,
}
use open_xr_osx.Xr.{
  Result, success, event_unavailable, validation_failure, form_factor_unsupported, system_invalid,
  view_configuration_type_unsupported, size_insufficient, SessionState,
}

-- An event by its `type`.
pub data Event : Type 0 where
  session_state_changed : ℕ → SessionState → Event
  other_event : ℕ → Event

-- `DebugUtilsObjectKey` with the name.
pub record Named : Type 0 where
  pub object_type : ℕ
  pub object_handle : ℕ
  pub name : List ℕ

pub record Instance : Type 0 where
  pub system_requested : Bool
  pub api_version : ℕ
  pub enabled_extensions : List (List ℕ)
  pub event_queue : List Event
  pub debug_names : List Named
  pub metal_requirements_queried : Bool

-- `given` is that no pointer is null; the id that is written is 1.
unfoldable pub get_system : (given head_mounted : Bool) → Instance → Instance × Result × Option ℕ
get_system given head_mounted i =
    if not given
    then (i, validation_failure, none)
    else if not head_mounted
    then (i, form_factor_unsupported, none)
    else (record i { system_requested = true }, success, some 1)

unfoldable pub is_extension_enabled : List ℕ → List (List ℕ) → Bool
is_extension_enabled name [] = false
is_extension_enabled name (e ∷ es) = same e name || is_extension_enabled name es

-- The result, and whether hand tracking is said to be supported; `hand_tracking` is its extension's
-- name.
unfoldable pub get_system_properties :
    (system_id : ℕ) (given : Bool) (hand_tracking : List ℕ) → Instance → Result × Option Bool
get_system_properties system_id given hand_tracking i =
    if not (system_id == 1) || not i.system_requested
    then (system_invalid, none)
    else if not given
    then (validation_failure, none)
    else (success, some (is_extension_enabled hand_tracking i.enabled_extensions))

unfoldable pub is_system_id_valid : ℕ → Instance → Bool
is_system_id_valid system_id i = i.system_requested && (system_id == 1)

-- `version` is `XR_MAKE_VERSION(1, 1, 0)`.
unfoldable pub supports_local_floor : ℕ → Instance → Bool
supports_local_floor version i = leb version i.api_version

unfoldable pub mark_metal_requirements_queried : Instance → Instance
mark_metal_requirements_queried i = record i { metal_requirements_queried = true }

-- The calls that fill an array: the result, the count that is written, and how many entries are.
pub record Filled : Type 0 where
  pub result : Result
  pub count : Option ℕ
  pub written : ℕ

-- The common end of the enumerations.
unfoldable pub fill : (count capacity : ℕ) → Filled
fill count capacity =
    if capacity == 0
    then record { result = success; count = some count; written = 0 }
    else if ltb capacity count
    then record { result = size_insufficient; count = some count; written = 0 }
    else record { result = success; count = some count; written = count }

unfoldable pub enumerate_view_configurations : (system_id capacity : ℕ) → Filled
unfolding fill
enumerate_view_configurations system_id capacity =
    if not (system_id == 1)
    then record { result = system_invalid; count = none; written = 0 }
    else fill 1 capacity

-- `stereo` is that the view configuration is the stereo one.
unfoldable pub enumerate_for : (count system_id : ℕ) (stereo : Bool) (capacity : ℕ) → Filled
unfolding fill
enumerate_for count system_id stereo capacity =
    if not (system_id == 1)
    then record { result = system_invalid; count = none; written = 0 }
    else if not stereo
    then record { result = view_configuration_type_unsupported; count = none; written = 0 }
    else fill count capacity

unfoldable pub enumerate_view_configuration_views :
    (system_id : ℕ) (stereo : Bool) (capacity : ℕ) → Filled
unfolding enumerate_for
enumerate_view_configuration_views system_id stereo capacity =
    enumerate_for 2 system_id stereo capacity

unfoldable pub enumerate_environment_blend_modes :
    (system_id : ℕ) (stereo : Bool) (capacity : ℕ) → Filled
unfolding enumerate_for
enumerate_environment_blend_modes system_id stereo capacity =
    enumerate_for 1 system_id stereo capacity

unfoldable pub push_event : Event → Instance → Instance
push_event e i = record i { event_queue = i.event_queue ++ e ∷ [] }

unfoldable pub poll_from : List Event → Instance → Instance × Result × Option Event
poll_from [] i = (i, event_unavailable, none)
poll_from (e ∷ es) i = (record i { event_queue = es }, success, some e)

unfoldable pub poll_event : Instance → Instance × Result × Option Event
unfolding poll_from
poll_event i = poll_from i.event_queue i

-- The predicate of `std::erase_if`.
unfoldable pub is_of_session : ℕ → Event → Bool
is_of_session session (session_state_changed s state) = s == session
is_of_session session (other_event content) = false

unfoldable pub erase_events : ℕ → List Event → List Event
erase_events session [] = []
erase_events session (e ∷ es) =
    let rest = erase_events session es in if is_of_session session e then rest else e ∷ rest

unfoldable pub remove_events_for_session : ℕ → Instance → Instance
remove_events_for_session session i = record i { event_queue = erase_events session i.event_queue }

abbrev pub has_key : ℕ → ℕ → Named → Bool
has_key object_type object_handle n =
    (n.object_type == object_type) && (n.object_handle == object_handle)

unfoldable pub erase_name : ℕ → ℕ → List Named → List Named
erase_name object_type object_handle [] = []
erase_name object_type object_handle (n ∷ ns) =
    let rest = erase_name object_type object_handle ns in
    if has_key object_type object_handle n then rest else n ∷ rest

-- A null name is `none`. Assigning to a key replaces its name.
unfoldable pub set_object_name : ℕ → ℕ → Option (List ℕ) → Instance → Instance
set_object_name object_type object_handle none i = record i {
  debug_names = erase_name object_type object_handle i.debug_names;
}
set_object_name object_type object_handle (some []) i = record i {
  debug_names = erase_name object_type object_handle i.debug_names;
}
set_object_name object_type object_handle (some (c ∷ cs)) i = record i {
  debug_names =
      record { object_type = object_type; object_handle = object_handle; name = c ∷ cs }
      ∷ erase_name object_type object_handle i.debug_names;
}

unfoldable pub find_name : ℕ → ℕ → List Named → List ℕ
find_name object_type object_handle [] = []
find_name object_type object_handle (n ∷ ns) =
    let rest = find_name object_type object_handle ns in
    if has_key object_type object_handle n then n.name else rest

unfoldable pub get_object_name : ℕ → ℕ → Instance → List ℕ
get_object_name object_type object_handle i = find_name object_type object_handle i.debug_names
