-- ===== src/Config/Reload.antt =====
-- runtime/src/Config.cpp: when the configuration is read again. A file is what the system says of
-- it (whether it exists, its write time or an error, its text or that it does not open), and times
-- are in milliseconds. Starting the log capture of the headset depends on two system calls.
pub mod Current
use open_xr_osx.Base.{
  ℕ, ◌-◌, Bool, true, false, not, ◌&&◌, ◌||◌, Option, none, some, ltb, ◌==◌, if◌then◌else◌, Text,
}
use open_xr_osx.Config.Setting.{Floats, ConfigValues, default_values, parse_config_toml}

-- The two places of the file.
pub data Place : Type 0 where
  preferred : Place
  legacy : Place

abbrev pub same_place : Place → Place → Bool
same_place preferred preferred = true
same_place preferred legacy = false
same_place legacy preferred = false
same_place legacy legacy = true

pub record File : Type 0 where
  pub file_exists : Bool
  pub write_time : Option ℕ
  pub text : Option Text

-- The files at one moment, and whether `popen` and `fopen` work then.
pub record System : Type 0 where
  pub file_at : Place → File
  pub popen_works : Bool
  pub fopen_works : Bool

-- The process that is read, the file that is written, and whether the thread runs.
pub record Logcat : Type 0 where
  pub has_process : Bool
  pub has_file : Bool
  pub running : Bool

unfoldable pub start_logcat_capture : System → Logcat → Logcat
start_logcat_capture sys l =
    if l.running || l.has_process
    then l
    else if not sys.popen_works
    then l
    else if not sys.fopen_works
    then record l { has_process = false; has_file = false }
    else record { has_process = true; has_file = true; running = true }

unfoldable pub stop_logcat_capture : Logcat → Logcat
stop_logcat_capture l = record { has_process = false; has_file = false; running = false }

-- The path, and whether the file is there.
unfoldable pub resolve_config_file_path : System → Place × Bool
resolve_config_file_path sys =
    if (sys.file_at preferred).file_exists
    then (preferred, true)
    else if (sys.file_at legacy).file_exists
    then (legacy, true)
    else (preferred, false)

-- `writeTime != lastConfigWriteTime_`, where there is a write time.
abbrev pub time_differs : Option ℕ → ℕ → Bool
time_differs none last = true
time_differs (some t) last = not (t == last)

abbrev pub is_some : Option ℕ → Bool
is_some none = false
is_some (some t) = true

abbrev pub time_or : ℕ → Option ℕ → ℕ
time_or last none = last
time_or last (some t) = t

module _ (F : Floats) where
  pub record Config : Type (0) where
    pub values : ConfigValues F
    pub config_file_path : Place
    pub has_config_file : Bool
    pub has_known_write_time : Bool
    pub last_config_write_time : ℕ
    pub last_reload_check : Option ℕ
    pub logcat : Logcat

  -- `newValues`: the defaults where there is no file or it does not open.
  abbrev pub read_values : Bool → Option Text → ConfigValues F
  read_values false text = default_values F
  read_values true none = default_values F
  read_values true (some text) = parse_config_toml F text (default_values F)

  unfoldable pub load_values : System → ConfigValues F
  unfolding resolve_config_file_path
  load_values sys =
      let resolved = resolve_config_file_path sys in
      read_values resolved.1 (sys.file_at resolved.0).text

  -- `hasWriteTime ? writeTime`, which is only asked for where the file is there.
  unfoldable pub current_write_time : System → Option ℕ
  unfolding resolve_config_file_path
  current_write_time sys =
      let resolved = resolve_config_file_path sys in
      if resolved.1 then (sys.file_at resolved.0).write_time else none

  -- `pathChanged || existenceChanged || writeTimeChanged`
  unfoldable pub has_changed : System → Config → Bool
  unfolding resolve_config_file_path current_write_time
  has_changed sys c =
      let (path, file_exists) = resolve_config_file_path sys in
      let write_time_changed =
        file_exists
        && (not c.has_known_write_time
            || time_differs (current_write_time sys) c.last_config_write_time) in
      not (same_place path c.config_file_path)
      || (not (if file_exists then c.has_config_file else not c.has_config_file)
          || write_time_changed)

  -- The end of `ReloadIfChangedLocked`, behind `values_ = newValues`.
  abbrev pub switch_logcat : (force old new : Bool) → System → Logcat → Logcat
  switch_logcat true old new sys l = l
  switch_logcat false true true sys l = l
  switch_logcat false false false sys l = l
  switch_logcat false false true sys l = start_logcat_capture sys l
  switch_logcat false true false sys l = stop_logcat_capture l

  -- The file is read again.
  unfoldable pub reload : (force : Bool) → System → Config → Config
  unfolding load_values resolve_config_file_path current_write_time start_logcat_capture
      stop_logcat_capture
  reload force sys c =
      let (path, file_exists) = resolve_config_file_path sys in
      let new_values = load_values sys in
      record {
        values = new_values;
        config_file_path = path;
        has_config_file = file_exists;
        has_known_write_time = file_exists && is_some (current_write_time sys);
        last_config_write_time = time_or c.last_config_write_time (current_write_time sys);
        last_reload_check = c.last_reload_check;
        logcat = switch_logcat force c.values.quest_logcat new_values.quest_logcat sys c.logcat;
      }

  unfoldable pub reload_if_changed_locked : (force : Bool) → System → Config → Config
  unfolding reload has_changed
  reload_if_changed_locked force sys c =
      if force || has_changed sys c then reload force sys c else c

  -- The members as they are before the constructor runs.
  abbrev pub blank : Config
  blank = record {
    values = default_values F;
    config_file_path = preferred;
    has_config_file = false;
    has_known_write_time = false;
    last_config_write_time = 0;
    last_reload_check = none;
    logcat = record { has_process = false; has_file = false; running = false };
  }

  -- `Config::Config`
  unfoldable pub construct : System → Config
  unfolding reload_if_changed_locked start_logcat_capture
  construct sys =
      let c = reload_if_changed_locked true sys blank in
      if c.values.quest_logcat then record c { logcat = start_logcat_capture sys c.logcat } else c

  -- The last check was less than 250 ms ago.
  abbrev pub is_throttled : (now : ℕ) → Option ℕ → Bool
  is_throttled now none = false
  is_throttled now (some last) = ltb (now - last) 250

  unfoldable pub refresh_if_needed : (now : ℕ) → System → Config → Config
  unfolding reload_if_changed_locked
  refresh_if_needed now sys c =
      if is_throttled now c.last_reload_check
      then c
      else reload_if_changed_locked false sys (record c { last_reload_check = some now })

  unfoldable pub get_values : (now : ℕ) → System → Config → Config × ConfigValues F
  unfolding refresh_if_needed
  get_values now sys c = let c' = refresh_if_needed now sys c in (c', c'.values)
