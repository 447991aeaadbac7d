-- ===== src/Examples/Settings.antt =====
-- The configuration and the status file at concrete inputs. The scale is a number of hundredths.
use open_xr_osx.Base.{
  inl, inr, ℕ, ◌≡◌, refl, true, Option, none, some, List, [], ◌∷◌, ◌++◌, arith, leb, ltb, Text,
  codes, not, ◌||◌, ap, if◌then◌else◌,
}
use open_xr_osx.StatusText.{
  Doubles, no_stats, quote, json_escape, device_type_for_client_name, tail_text, show_integer,
}
use open_xr_osx.Status.{Moment}
use open_xr_osx.Status.Json.{read_string, read_string-json_escape}
use open_xr_osx.Status.Published.{Call, streaming_began, stats_sampled, Published}
use open_xr_osx.Config.Setting.{
  Floats, ConfigValues, default_values, digits_value, apply_setting, parse_config_toml,
}
use open_xr_osx.Config.Ranges.{Valid, parse_config_toml-Valid}
use open_xr_osx.Config.Lines.{setting_line, parse_config_toml-setting_line}
use open_xr_osx.Config.Print.{decimal, print_config, parse_config_toml-print_config, FitsLine}
use open_xr_osx.Config.Reload.{Place, preferred, legacy, System, construct, get_values, load_values}
use open_xr_osx.Config.Reload.Current.{Recorded, visit, get_values-current}

-- "a", a line feed, a quote and the control character 1
abbrev odd : Text
odd = 97 ∷ 10 ∷ 34 ∷ 1 ∷ []

read_string-json_escape_example :
    read_string (json_escape odd ++ (quote ∷ 44 ∷ [])) ≡ some (odd, 44 ∷ [])
read_string-json_escape_example = read_string-json_escape odd (44 ∷ [])

quest_type : device_type_for_client_name (codes "Meta Quest 3") ≡ codes "quest"
unfolding device_type_for_client_name
quest_type = refl

-- Numbers of halves.
abbrev halves : Doubles
halves = record {
  Double = ℕ;
  zero_double = 0;
  show_double = λ n. if ltb n 2 then codes "0.5" else codes "1";
}

abbrev moment : Moment
moment = record { can_write = true; process_id = 4321; now_ms = 1700000000123 }

abbrev calls : List (Call halves)
calls =
    streaming_began moment (codes "wifi") (codes "Meta Quest 3")
    ∷ stats_sampled moment 7 (record (no_stats halves) { refresh_rate_hz = 72 })
    ∷ []

-- The numbers of a file without statistics.
tail_lem :
    tail_text halves 4321 17000 none
    ≡ codes ",\n  \"process_id\": 4321,\n  \"updated_at_unix_ms\": 17000\n}\n"
unfolding tail_text show_integer
tail_lem = refl

abbrev hundredths : Floats
hundredths = record {
  Float = ℕ;
  stof = digits_value none;
  three_quarters = 75;
  at_least_quarter = leb 25;
  at_most_one = λ n. leb n 100;
}

abbrev values : ConfigValues hundredths
values = default_values hundredths

values-Valid : Valid hundredths values
values-Valid = record {
  bitrate_range = (omega arith, omega arith);
  fov_range = (omega arith, omega arith);
  scale_range = (refl, refl);
  keyframe_range = (omega arith, omega arith);
  preset_known = inr (inl refl);
  transport_known = inl refl;
}

abbrev too_high : Text
too_high = codes "bitrate_mbps = 500"

abbrev lower_bitrate : Text
lower_bitrate = codes "# Wi-Fi" ++ 10 ∷ codes "bitrate_mbps= 30 # Mbps"

too_high_lem : (parse_config_toml hundredths too_high values).bitrate_mbps ≡ 50
unfolding parse_config_toml
too_high_lem = refl

lower_bitrate_lem : (parse_config_toml hundredths lower_bitrate values).bitrate_mbps ≡ 30
unfolding parse_config_toml
lower_bitrate_lem = refl

parse_config_toml-Valid_example : Valid hundredths (parse_config_toml hundredths too_high values)
parse_config_toml-Valid_example = parse_config_toml-Valid hundredths too_high values values-Valid

parse_config_toml-setting_line_example :
    parse_config_toml hundredths
      (too_high
        ++ 10
          ∷ (setting_line (32 ∷ []) (codes "transport") (9 ∷ []) [] (codes "wifi") []
              ++ 10 ∷ too_high))
      values
    ≡ parse_config_toml hundredths too_high (
        apply_setting hundredths
          (codes "transport")
          (codes "wifi")
          (parse_config_toml hundredths too_high values))
parse_config_toml-setting_line_example =
    parse_config_toml-setting_line hundredths too_high (32 ∷ []) (codes "transport") (9 ∷ []) []
      (codes "wifi") [] too_high values (refl, tt) (ground arith) (refl, tt) tt (ground arith) tt
      (ground arith)

decimal_75_FitsLine : FitsLine (decimal 75)
unfolding decimal
decimal_75_FitsLine = ground arith

decimal_75_read : digits_value none (decimal 75) ≡ some 75
unfolding decimal digits_value
decimal_75_read = refl

parse_config_toml-print_config_example :
    parse_config_toml hundredths (print_config hundredths decimal values) values ≡ values
parse_config_toml-print_config_example =
    parse_config_toml-print_config hundredths decimal values values values-Valid decimal_75_FitsLine
      decimal_75_read

-- The file says `too_high` at time 1 and asks for less at time 2.
abbrev history : Place → ℕ → Option Text
history legacy t = none
history preferred t = some (if leb t 1 then too_high else lower_bitrate)

abbrev disk : ℕ → System
disk t = record {
  file_at = λ p. record { file_exists = true; write_time = some t; text = history p t };
  popen_works = true;
  fopen_works = true;
}

disk-Recorded : (t : ℕ) → Recorded history (disk t)
disk-Recorded t p u e = ap (history p) {x = t} {y = u} (ground (arith, e))

get_values-current_example :
    ((get_values hundredths 900
        (disk 2)
        (visit hundredths history ((500, disk 1) ∷ []) (construct hundredths (disk 1)))).1
      ≡ load_values hundredths (disk 2))
    × ((not
            (get_values hundredths 900 (disk 2) (
              visit hundredths history
                ((500, disk 1) ∷ [])
                (construct hundredths (disk 1)))).0.logcat.running
          || (get_values hundredths 900 (disk 2) (
              visit hundredths history
                ((500, disk 1) ∷ [])
                (construct hundredths (disk 1)))).1.quest_logcat)
        ≡ true)
unfolding visit get_values construct parse_config_toml
get_values-current_example =
    get_values-current hundredths history (disk 1) ((500, disk 1) ∷ []) 900 (disk 2)
      (disk-Recorded 1) (disk-Recorded 1, tt) (disk-Recorded 2) refl
