-- ===== src/Config/Setting.antt =====
-- runtime/src/Config.cpp: `Trim`, `ParseBool`, `ParseString` and `ParseConfigToml`.
use open_xr_osx.Base.{
  ℕ, zero, suc, ◌+◌, ◌-◌, ◌*◌, ◌^◌, Bool, true, false, ◌&&◌, ◌||◌, Option, none, some, List, [],
  ◌∷◌, ◌++◌, ltb, leb, ◌==◌, if◌then◌else◌, ℤ, pos, negsuc, Text, codes, same, lower,
}

-- `std::stof` and the comparisons with 0.25 and 1.
pub record Floats : Type 1 where
  pub Float : Type 0
  pub stof : Text → Option Float
  pub three_quarters : Float
  pub at_least_quarter : Float → Bool
  pub at_most_one : Float → Bool

-- space, tab, carriage return and line feed
abbrev pub is_blank : ℕ → Bool
is_blank c = (c == 32) || ((c == 9) || ((c == 13) || (c == 10)))

-- From `find_first_not_of` on.
unfoldable pub trim_front : Text → Text
trim_front [] = []
trim_front (c ∷ cs) = if is_blank c then trim_front cs else c ∷ cs

-- Up to `find_last_not_of`.
abbrev pub unless_blank : ℕ → Text → Text
unless_blank c [] = if is_blank c then [] else c ∷ []
unless_blank c (d ∷ ds) = c ∷ d ∷ ds

unfoldable pub trim_back : Text → Text
trim_back [] = []
trim_back (c ∷ cs) = unless_blank c (trim_back cs)

unfoldable pub trim : Text → Text
unfolding trim_front trim_back
trim s = trim_back (trim_front s)

unfoldable pub parse_bool : Text → Bool
unfolding lower same
parse_bool value =
    let low = lower value in
    same low (codes "true") || (same low (codes "1") || same low (codes "yes"))

-- `value.back()`
abbrev pub last_or : ℕ → Text → ℕ
last_or d [] = d
last_or d (c ∷ cs) = last_or c cs

abbrev pub without_last : Text → Text
without_last [] = []
without_last (c ∷ []) = []
without_last (c ∷ d ∷ ds) = c ∷ without_last (d ∷ ds)

-- The text between two quotes.
abbrev pub unquoted : Text → Text
unquoted (c ∷ d ∷ ds) =
    if (c == 34) && (last_or d ds == 34) then without_last (d ∷ ds) else c ∷ d ∷ ds
unquoted s = s

unfoldable pub parse_string : Text → Text
unfolding trim
parse_string value = unquoted (trim value)

-- `std::isspace` in the C locale
abbrev pub is_space : ℕ → Bool
is_space c = (c == 32) || (leb 9 c && leb c 13)

abbrev pub is_digit : ℕ → Bool
is_digit c = leb 48 c && leb c 57

unfoldable pub skip_space : Text → Text
skip_space [] = []
skip_space (c ∷ cs) = if is_space c then skip_space cs else c ∷ cs

-- The value of the digits at the front, behind those that were read; `none` where there is no digit.
unfoldable pub digits_value : Option ℕ → Text → Option ℕ
digits_value read [] = read
digits_value none (c ∷ cs) = if is_digit c then digits_value (some (c - 48)) cs else none
digits_value (some n) (c ∷ cs) =
    if is_digit c then digits_value (some (n * 10 + (c - 48))) cs else some n

-- The sign, and the digits behind it.
abbrev pub signed : Text → Bool × Text
signed [] = (false, [])
signed (c ∷ cs) =
    if c == b'-' then (true, cs) else if c == b'+' then (false, cs) else (false, c ∷ cs)

-- An `int` of 32 bits, or `std::out_of_range`.
abbrev pub to_int : Bool → Option ℕ → Option ℤ
to_int negative none = none
to_int false (some n) = if ltb n (2 ^ 31) then some (pos n) else none
to_int true (some zero) = some (pos 0)
to_int true (some (suc n)) = if ltb n (2 ^ 31) then some (negsuc n) else none

-- `std::stoi`, which takes the number at the front; `none` is an exception.
unfoldable pub stoi : Text → Option ℤ
unfolding skip_space digits_value
stoi s = let t = signed (skip_space s) in to_int t.0 (digits_value none t.1)

-- The number in a range of positive numbers.
abbrev pub in_range : ℕ → ℕ → Option ℤ → ℕ → ℕ
in_range lo hi (some (pos n)) old = if leb lo n && leb n hi then n else old
in_range lo hi _ old = old

module _ (F : Floats) where
  open F use {Float, stof, three_quarters, at_least_quarter, at_most_one}

  pub record ConfigValues : Type 0 where
    pub runtime_enabled : Bool
    pub bitrate_mbps : ℕ
    pub fov_degrees : ℕ
    pub resolution_scale : Float
    pub keyframe_interval_sec : ℕ
    pub encoder_preset : Text
    pub streaming_transport : Text
    pub file_logging : Bool
    pub quest_logcat : Bool

  abbrev pub default_values : ConfigValues
  default_values = record {
    runtime_enabled = true;
    bitrate_mbps = 50;
    fov_degrees = 100;
    resolution_scale = three_quarters;
    keyframe_interval_sec = 2;
    encoder_preset = codes "balanced";
    streaming_transport = codes "auto";
    file_logging = true;
    quest_logcat = false;
  }

  abbrev pub scale_in_range : Option Float → Float → Float
  scale_in_range none old = old
  scale_in_range (some f) old = if at_least_quarter f && at_most_one f then f else old

  abbrev pub one_of : List Text → Text → Text → Text
  one_of [] value old = old
  one_of (t ∷ ts) value old = if same value t then value else one_of ts value old

  -- The chain of `if (key == …)`. A malformed number changes nothing.
  unfoldable pub apply_setting : (key value : Text) → ConfigValues → ConfigValues
  unfolding same parse_bool parse_string stoi
  apply_setting key value v =
      if same key (codes "runtime_enabled")
      then record v { runtime_enabled = parse_bool value }
      else if same key (codes "file_logging")
      then record v { file_logging = parse_bool value }
      else if same key (codes "quest_logcat")
      then record v { quest_logcat = parse_bool value }
      else if same key (codes "bitrate_mbps")
      then record v { bitrate_mbps = in_range 1 200 (stoi value) v.bitrate_mbps }
      else if same key (codes "fov_degrees")
      then record v { fov_degrees = in_range 60 150 (stoi value) v.fov_degrees }
      else if same key (codes "resolution_scale")
      then record v { resolution_scale = scale_in_range (stof value) v.resolution_scale }
      else if same key (codes "keyframe_interval_sec")
      then record v { keyframe_interval_sec = in_range 1 10 (stoi value) v.keyframe_interval_sec }
      else if same key (codes "encoder_preset")
      then record v {
        encoder_preset =
            one_of (codes "quality" ∷ codes "balanced" ∷ codes "speed" ∷ []) (parse_string value)
              v.encoder_preset;
      }
      else if same key (codes "transport")
      then record v {
        streaming_transport =
            one_of (codes "auto" ∷ codes "wifi" ∷ codes "usb_adb" ∷ []) (parse_string value)
              v.streaming_transport;
      }
      else v

  -- `line.find('=')`: what stands before the first, and behind it.
  unfoldable pub split_at_equals : Text → Option (Text × Text)
  split_at_equals [] = none
  split_at_equals (c ∷ cs) =
      let rest = split_at_equals cs in
      if c == b'=' then some ([], cs) else elim rest [ none ↦ none | some (k, v) ↦ some (c ∷ k, v) ]

  abbrev pub set_pair : Option (Text × Text) → ConfigValues → ConfigValues
  set_pair none v = v
  set_pair (some (key, value)) v = apply_setting (trim key) (trim value) v

  -- A trimmed line: empty lines, comments and section headers are skipped.
  unfoldable pub apply_trimmed : Text → ConfigValues → ConfigValues
  unfolding split_at_equals apply_setting trim
  apply_trimmed [] v = v
  apply_trimmed (c ∷ cs) v =
      if (c == b'#') || (c == b'[') then v else set_pair (split_at_equals (c ∷ cs)) v

  unfoldable pub apply_line : Text → ConfigValues → ConfigValues
  unfolding apply_trimmed trim
  apply_line line v = apply_trimmed (trim line) v

  -- The loop over `std::getline`: the characters of the line so far are in the first argument. A
  -- last line need not end with a line feed.
  unfoldable pub parse_lines : Text → Text → ConfigValues → ConfigValues
  unfolding apply_line
  parse_lines line [] v = apply_line line v
  parse_lines line (c ∷ cs) v =
      let ended = parse_lines [] cs (apply_line line v) in
      let longer = parse_lines (line ++ c ∷ []) cs v in if c == 10 then ended else longer

  unfoldable pub parse_config_toml : Text → ConfigValues → ConfigValues
  unfolding parse_lines
  parse_config_toml input defaults = parse_lines [] input defaults
