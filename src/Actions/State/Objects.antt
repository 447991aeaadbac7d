-- ===== src/Actions/State/Objects.antt =====
-- runtime/src/EntryPoint.cpp: OxrCreateActionSet, OxrDestroyActionSet, OxrCreateAction and
-- OxrDestroyAction.
use open_xr_osx.Base.{
  ℕ, Bool, not, ◌&&◌, ◌||◌, Option, none, some, List, [], ◌∷◌, ◌++◌, ltb, if◌then◌else◌, length,
  Text, same,
}
use open_xr_osx.Xr.{
  Result, success, validation_failure, handle_invalid, path_format_invalid, name_invalid,
  localized_name_invalid, actionsets_already_attached,
}
use open_xr_osx.Runtime.{register_handle, remove_handle}
use open_xr_osx.Actions.Strings.{is_valid_single_level_path_name}
use open_xr_osx.Actions.State.Data.{
  Scalars, ActionType, ActionSetState, World, ActionState, remove_all, find_set, erase_set,
  duplicate_set, check_subaction_paths, find_action, erase_action, duplicate_action,
  is_attached_action_set_handle,
}

module _ (F : Scalars) where
  -- The set is made unless there is a result that refuses it.
  abbrev pub add_set :
      Option Result → (name localized_name : Text) → World F → World F × Result × Option ℕ
  add_set (some r) name localized_name w = (w, r, none)
  add_set none name localized_name w =
      let (runtime', h) = register_handle w.runtime.next_handle w.runtime in
      (
        record w {
          runtime = runtime';
          action_sets =
              w.action_sets
              ++ record { handle = h; name = name; localized_name = localized_name } ∷ [];
        },
        success,
        some h,
      )

  unfoldable pub create_action_set :
      (has_instance given typed : Bool) (name localized_name : Text)
      → World F
      → World F × Result × Option ℕ
  unfolding same is_valid_single_level_path_name duplicate_set register_handle
  create_action_set has_instance given typed name localized_name w =
      if not has_instance
      then (w, handle_invalid, none)
      else if not given || not typed
      then (w, validation_failure, none)
      else if same name []
      then (w, name_invalid, none)
      else if same localized_name []
      then (w, localized_name_invalid, none)
      else if not (is_valid_single_level_path_name name)
      then (w, path_format_invalid, none)
      else add_set (duplicate_set name localized_name w.action_sets) name localized_name w

  abbrev pub remove_set : Option ActionSetState → ℕ → World F → World F × Result
  remove_set none h w = (w, handle_invalid)
  remove_set (some s) h w = (
    record w {
      runtime = remove_handle h w.runtime;
      action_sets = erase_set h w.action_sets;
      attached_handles = remove_all h w.attached_handles;
    },
    success,
  )

  -- The actions of the set stay.
  unfoldable pub destroy_action_set : ℕ → World F → World F × Result
  unfolding find_set erase_set remove_all remove_handle
  destroy_action_set h w = remove_set (find_set h w.action_sets) h w

  pub record ActionCreateInfo : Type 0 where
    pub action_name : Text
    pub localized_action_name : Text
    pub action_type : ActionType
    pub subaction_paths : List ℕ
    pub paths_given : Bool

  abbrev pub add_action :
      Option Result → (set : ℕ) → ActionCreateInfo → World F → World F × Result × Option ℕ
  add_action (some r) set info w = (w, r, none)
  add_action none set info w =
      let (runtime', h) = register_handle w.runtime.next_handle w.runtime in
      (
        record w {
          runtime = runtime';
          actions =
              w.actions
              ++ record {
                handle = h;
                action_set = set;
                name = info.action_name;
                localized_name = info.localized_action_name;
                action_type = info.action_type;
                subaction_paths = info.subaction_paths;
                subaction_data = [];
              }
                ∷ [];
        },
        success,
        some h,
      )

  -- The first of two results that is there.
  abbrev pub or_else : Option Result → Option Result → Option Result
  or_else (some r) o = some r
  or_else none o = o

  abbrev pub create_in :
      Option ActionSetState
      → (given typed : Bool) → ActionCreateInfo
      → World F
      → World F × Result × Option ℕ
  create_in none given typed info w = (w, handle_invalid, none)
  create_in (some s) given typed info w =
      if not given || not typed
      then (w, validation_failure, none)
      else if is_attached_action_set_handle F s.handle w
      then (w, actionsets_already_attached, none)
      else if same info.action_name []
      then (w, name_invalid, none)
      else if same info.localized_action_name []
      then (w, localized_name_invalid, none)
      else if not (is_valid_single_level_path_name info.action_name)
      then (w, path_format_invalid, none)
      else if ltb 0 (length info.subaction_paths) && not info.paths_given
      then (w, validation_failure, none)
      else add_action
          (or_else (check_subaction_paths w.runtime [] info.subaction_paths)
            (duplicate_action F s.handle info.action_name info.localized_action_name w.actions))
          s.handle info w

  unfoldable pub create_action :
      (set : ℕ) (given typed : Bool) → ActionCreateInfo → World F → World F × Result × Option ℕ
  unfolding find_set is_attached_action_set_handle same is_valid_single_level_path_name
      check_subaction_paths duplicate_action register_handle
  create_action set given typed info w = create_in (find_set set w.action_sets) given typed info w

  abbrev pub remove_action : Option (ActionState F) → ℕ → World F → World F × Result
  remove_action none h w = (w, handle_invalid)
  remove_action (some a) h w = (
    record w { runtime = remove_handle h w.runtime; actions = erase_action F h w.actions },
    success,
  )

  unfoldable pub destroy_action : ℕ → World F → World F × Result
  unfolding find_action erase_action remove_handle
  destroy_action h w = remove_action (find_action F h w.actions) h w
