-- ===== src/Config/Print.antt =====
-- runtime/src/Config.cpp: a configuration that is written out in full is read back.
use open_xr_osx.Base.{
  Bool-cases, ℕ, zero, suc, ◌+◌, ◌/◌, ◌%◌, ◌≤◌, ◌<◌, ◌≡◌, refl, ap, ◌∙◌, Bool, true, false, inl,
  inr, Option, none, some, List, [], ◌∷◌, ◌++◌, arith, ltb, ◌==◌, if◌then◌else◌, Text, codes, same,
  All, All-append, ℤ, pos,
}
use open_xr_osx.Config.Setting.{
  Floats, ConfigValues, in_range, one_of, apply_setting, parse_bool, parse_string, trim, trim_front,
  trim_back, stoi, parse_config_toml, parse_lines, apply_line, apply_trimmed,
}
use open_xr_osx.Config.Ranges.{Among, presets, transports, Valid}
use open_xr_osx.Config.Lines.{
  NotLineFeed, IsKey, IsValue, setting_line, parse_lines-append, parse_lines_one,
  apply_line-setting_line,
}

-- A number below 1000.
unfoldable pub decimal : ℕ → Text
decimal n =
    if ltb n 10
    then (48 + n) ∷ []
    else if ltb n 100
    then (48 + n / 10) ∷ (48 + n % 10) ∷ []
    else (48 + n / 100) ∷ (48 + n / 10 % 10) ∷ (48 + n % 10) ∷ []

abbrev reads_back : ℕ → Option ℤ → Bool
reads_back n (some (pos m)) = n == m
reads_back n _ = false

reads_back_lem : (n : ℕ) (o : Option ℤ) → reads_back n o ≡ true → o ≡ some (pos n)
reads_back_lem n none h = absurd (ground (arith, h))
reads_back_lem n (some (pos m)) h = ground (arith, h)
reads_back_lem n (some (ℤ.negsuc m)) h = absurd (ground (arith, h))

-- The numbers below a bound, each tried.
tried : ℕ → Bool
tried zero = true
tried (suc bound) = if reads_back bound (stoi (decimal bound)) then tried bound else false

tried-201 : tried 201 ≡ true
unfolding tried stoi decimal
tried-201 = refl

tried_lem : (bound n : ℕ) → tried bound ≡ true → n < bound → reads_back n (stoi (decimal n)) ≡ true
unfolding tried
tried_lem zero n t below = elim below [ ]
tried_lem (suc bound) n t below = elim (Bool-cases (n == bound)) [
  | inl e ↦
      ap (λ k. reads_back k (stoi (decimal k))) {x = n} {y = bound} (ground (arith, e))
      ∙ ground arith
  | inr e ↦ tried_lem bound n (ground arith) (ground (arith, e))
]

pub stoi-decimal : (n : ℕ) → n ≤ 200 → stoi (decimal n) ≡ some (pos n)
stoi-decimal n h = reads_back_lem n (stoi (decimal n)) (tried_lem 201 n tried-201 (omega arith))

-- A value that fits in a line.
abbrev pub FitsLine : Text → Type 0
FitsLine w = IsValue w × All NotLineFeed w

decimal-FitsLine : (n : ℕ) → FitsLine (decimal n)
unfolding decimal
decimal-FitsLine n = ground arith

unfoldable pub bool_text : Bool → Text
bool_text true = codes "true"
bool_text false = codes "false"

bool_text-FitsLine : (b : Bool) → FitsLine (bool_text b)
unfolding bool_text
bool_text-FitsLine true = ground arith
bool_text-FitsLine false = ground arith

parse_bool-bool_text : (b : Bool) → parse_bool (bool_text b) ≡ b
unfolding parse_bool bool_text
parse_bool-bool_text true = refl
parse_bool-bool_text false = refl

unfoldable pub quoted : Text → Text
quoted t = 34 ∷ t ++ 34 ∷ []

pub data Entry : Type 0 where
  entry : (key value : Text) → Entry

abbrev pub FitsEntry : Entry → Type 0
FitsEntry (entry key value) = IsKey key × All NotLineFeed key × FitsLine value

abbrev line_of : Entry → Text
line_of (entry key value) = setting_line [] key (32 ∷ []) (32 ∷ []) value []

unfoldable pub print_entries : List Entry → Text
print_entries [] = []
print_entries (e ∷ es) = line_of e ++ 10 ∷ print_entries es

module _ (F : Floats) where
  open F use {Float, stof, at_least_quarter, at_most_one}

  abbrev set_entry : Entry → ConfigValues F → ConfigValues F
  set_entry (entry key value) = apply_setting F key value

  abbrev set_entries : List Entry → ConfigValues F → ConfigValues F
  set_entries [] v = v
  set_entries (e ∷ es) v = set_entries es (set_entry e v)

  line_of-NotLineFeed : (e : Entry) → FitsEntry e → All NotLineFeed (line_of e)
  line_of-NotLineFeed (entry key value) h =
      All-append NotLineFeed (key ++ (32 ∷ b'=' ∷ 32 ∷ value)) []
        (All-append NotLineFeed key (32 ∷ b'=' ∷ 32 ∷ value) h.1 (refl, (refl, (refl, h.2.1)))) tt

  parse_line :
      (e : Entry) (v : ConfigValues F) → FitsEntry e → apply_line F (line_of e) v ≡ set_entry e v
  parse_line (entry key value) v h =
      apply_line-setting_line F [] key (32 ∷ []) (32 ∷ []) value [] v tt h.0 (refl, tt) (refl, tt)
        h.2.0 tt

  parse_lines-print_entries :
      (es : List Entry) (v : ConfigValues F)
      → All FitsEntry es
      → parse_lines F [] (print_entries es) v ≡ set_entries es v
  unfolding print_entries
  parse_lines-print_entries [] v h =
      unfold parse_lines apply_line apply_trimmed trim trim_front trim_back in refl
  parse_lines-print_entries (e ∷ es) v h =
      parse_lines-append F [] (line_of e) (print_entries es) v
      ∙ ap (parse_lines F [] (print_entries es))
          (parse_lines_one F [] (line_of e) v (line_of-NotLineFeed e h.0) ∙ parse_line e v h.0)
      ∙ parse_lines-print_entries es (set_entry e v) h.1

  module _ (show : Float → Text) where
    -- Every setting in the format of the file.
    pub entries : ConfigValues F → List Entry
    entries v =
        entry (codes "runtime_enabled") (bool_text v.runtime_enabled)
        ∷ entry (codes "file_logging") (bool_text v.file_logging)
        ∷ entry (codes "quest_logcat") (bool_text v.quest_logcat)
        ∷ entry (codes "bitrate_mbps") (decimal v.bitrate_mbps)
        ∷ entry (codes "fov_degrees") (decimal v.fov_degrees)
        ∷ entry (codes "resolution_scale") (show v.resolution_scale)
        ∷ entry (codes "keyframe_interval_sec") (decimal v.keyframe_interval_sec)
        ∷ entry (codes "encoder_preset") (quoted v.encoder_preset)
        ∷ entry (codes "transport") (quoted v.streaming_transport)
        ∷ []

    pub print_config : ConfigValues F → Text
    unfolding entries
    print_config v = print_entries (entries v)

    preset-FitsLine : (t : Text) → Among presets t → FitsLine (quoted t)
    unfolding quoted
    preset-FitsLine t (inl e) = rw e (ground arith)
    preset-FitsLine t (inr (inl e)) = rw e (ground arith)
    preset-FitsLine t (inr (inr (inl e))) = rw e (ground arith)
    preset-FitsLine t (inr (inr (inr e))) = absurd e

    transport-FitsLine : (t : Text) → Among transports t → FitsLine (quoted t)
    unfolding quoted
    transport-FitsLine t (inl e) = rw e (ground arith)
    transport-FitsLine t (inr (inl e)) = rw e (ground arith)
    transport-FitsLine t (inr (inr (inl e))) = rw e (ground arith)
    transport-FitsLine t (inr (inr (inr e))) = absurd e

    preset_read :
        (t old : Text) → Among presets t → one_of F presets (parse_string (quoted t)) old ≡ t
    unfolding quoted parse_string same trim_front trim_back trim
    preset_read t old (inl e) = rw e refl
    preset_read t old (inr (inl e)) = rw e refl
    preset_read t old (inr (inr (inl e))) = rw e refl
    preset_read t old (inr (inr (inr e))) = absurd e

    transport_read :
        (t old : Text) → Among transports t → one_of F transports (parse_string (quoted t)) old ≡ t
    unfolding quoted parse_string same trim_front trim_back trim
    transport_read t old (inl e) = rw e refl
    transport_read t old (inr (inl e)) = rw e refl
    transport_read t old (inr (inr (inl e))) = rw e refl
    transport_read t old (inr (inr (inr e))) = absurd e

    in_range_read :
        (lo hi n old : ℕ) → lo ≤ n → n ≤ hi → hi ≤ 200 → in_range lo hi (stoi (decimal n)) old ≡ n
    in_range_read lo hi n old p q r =
        ap (λ z. in_range lo hi z old) (stoi-decimal n (omega arith)) ∙ ground arith

    set_entries-entries :
        (v d : ConfigValues F)
        → Valid F v
        → stof (show v.resolution_scale) ≡ some v.resolution_scale
        → set_entries (entries v) d ≡ v
    unfolding entries apply_setting same
    set_entries-entries v d h f = ground (
      arith,
      parse_bool-bool_text v.runtime_enabled,
      parse_bool-bool_text v.file_logging,
      parse_bool-bool_text v.quest_logcat,
      in_range_read 1 200 v.bitrate_mbps d.bitrate_mbps,
      in_range_read 60 150 v.fov_degrees d.fov_degrees,
      in_range_read 1 10 v.keyframe_interval_sec d.keyframe_interval_sec,
      preset_read v.encoder_preset d.encoder_preset h.preset_known,
      transport_read v.streaming_transport d.streaming_transport h.transport_known,
    )

    entries-Fits :
        (v : ConfigValues F)
        → Valid F v
        → FitsLine (show v.resolution_scale)
        → All FitsEntry (entries v)
    unfolding entries
    entries-Fits v h f =
        let booleans = bool_text-FitsLine in
        (
          (ground arith, ground arith, booleans v.runtime_enabled),
          (
            (ground arith, ground arith, booleans v.file_logging),
            (
              (ground arith, ground arith, booleans v.quest_logcat),
              (
                (ground arith, ground arith, decimal-FitsLine v.bitrate_mbps),
                (
                  (ground arith, ground arith, decimal-FitsLine v.fov_degrees),
                  (
                    (ground arith, ground arith, f),
                    (
                      (ground arith, ground arith, decimal-FitsLine v.keyframe_interval_sec),
                      (
                        (
                          ground arith,
                          ground arith,
                          preset-FitsLine v.encoder_preset h.preset_known,
                        ),
                        (
                          (
                            ground arith,
                            ground arith,
                            transport-FitsLine v.streaming_transport h.transport_known,
                          ),
                          tt,
                        ),
                      ),
                    ),
                  ),
                ),
              ),
            ),
          ),
        )

    -- A configuration in range that is written out, one setting to a line, is read back from the
    -- file, whatever the defaults are, if the scale fits in a line and `std::stof` reads it back.
    pub parse_config_toml-print_config :
        (v d : ConfigValues F)
        → Valid F v
        → FitsLine (show v.resolution_scale)
        → stof (show v.resolution_scale) ≡ some v.resolution_scale
        → parse_config_toml F (print_config v) d ≡ v
    unfolding parse_config_toml print_config
    parse_config_toml-print_config v d h f r =
        parse_lines-print_entries (entries v) d (entries-Fits v h f) ∙ set_entries-entries v d h r
