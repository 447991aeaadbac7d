-- ===== src/Config/Ranges.antt =====
-- runtime/src/Config.cpp: whatever the file holds, the values are in range.
use open_xr_osx.Base.{
  ℕ, ◌≤◌, ◌≡◌, ◌⊎◌, inl, inr, true, Option, none, some, List, [], ◌∷◌, ◌++◌, arith, ◌==◌, if-elim,
  ◌||◌, ℤ, pos, negsuc, Text, codes, same, same_eq,
}
use open_xr_osx.Config.Setting.{
  Floats, ConfigValues, in_range, scale_in_range, one_of, apply_setting, split_at_equals, set_pair,
  apply_trimmed, trim, apply_line, parse_lines, parse_config_toml, parse_string, stoi,
}

-- The text is in the list.
abbrev pub Among : List Text → Text → Type 0
Among [] t = ⊥
Among (u ∷ us) t = (t ≡ u) ⊎ Among us t

abbrev pub presets : List Text
presets = codes "quality" ∷ codes "balanced" ∷ codes "speed" ∷ []

abbrev pub transports : List Text
transports = codes "auto" ∷ codes "wifi" ∷ codes "usb_adb" ∷ []

in_range-le :
    (lo hi : ℕ) (z : Option ℤ) (old : ℕ)
    → lo ≤ old
    → old ≤ hi
    → (lo ≤ in_range lo hi z old) × (in_range lo hi z old ≤ hi)
in_range-le lo hi none old p q = (p, q)
in_range-le lo hi (some (pos n)) old p q = ground arith
in_range-le lo hi (some (negsuc n)) old p q = (p, q)

module _ (F : Floats) where
  open F use {Float, stof, at_least_quarter, at_most_one}

  one_of-Among :
      (ts us : List Text) (value old : Text)
      → ((t : Text) → Among ts t → Among us t)
      → Among us old
      → Among us (one_of F ts value old)
  one_of-Among [] us value old sub h = h
  one_of-Among (t ∷ ts) us value old sub h =
      if-elim (Among us) (same value t) (λ e. sub value (inl (same_eq value t e)))
        (λ _. one_of-Among ts us value old (λ u k. sub u (inr k)) h)

  -- What the runtime relies on.
  pub record Valid (v : ConfigValues F) : Type 0 where
    pub bitrate_range : (1 ≤ v.bitrate_mbps) × (v.bitrate_mbps ≤ 200)
    pub fov_range : (60 ≤ v.fov_degrees) × (v.fov_degrees ≤ 150)
    pub scale_range :
        (at_least_quarter v.resolution_scale ≡ true) × (at_most_one v.resolution_scale ≡ true)
    pub keyframe_range : (1 ≤ v.keyframe_interval_sec) × (v.keyframe_interval_sec ≤ 10)
    pub preset_known : Among presets v.encoder_preset
    pub transport_known : Among transports v.streaming_transport

  scale_in_range-Valid :
      (o : Option Float) (old : Float)
      → (at_least_quarter old ≡ true) × (at_most_one old ≡ true)
      → (at_least_quarter (scale_in_range F o old) ≡ true)
        × (at_most_one (scale_in_range F o old) ≡ true)
  scale_in_range-Valid none old h = h
  scale_in_range-Valid (some f) old h = ground arith

  apply_setting-Valid :
      (key value : Text) (v : ConfigValues F) → Valid v → Valid (apply_setting F key value v)
  unfolding apply_setting
  apply_setting-Valid key value v h =
      if-elim Valid (same key (codes "runtime_enabled"))
        (λ _. record {
          bitrate_range = h.bitrate_range;
          fov_range = h.fov_range;
          scale_range = h.scale_range;
          keyframe_range = h.keyframe_range;
          preset_known = h.preset_known;
          transport_known = h.transport_known;
        })
        (λ _.
          if-elim Valid (same key (codes "file_logging"))
            (λ _. record {
              bitrate_range = h.bitrate_range;
              fov_range = h.fov_range;
              scale_range = h.scale_range;
              keyframe_range = h.keyframe_range;
              preset_known = h.preset_known;
              transport_known = h.transport_known;
            })
            (λ _.
              if-elim Valid (same key (codes "quest_logcat"))
                (λ _. record {
                  bitrate_range = h.bitrate_range;
                  fov_range = h.fov_range;
                  scale_range = h.scale_range;
                  keyframe_range = h.keyframe_range;
                  preset_known = h.preset_known;
                  transport_known = h.transport_known;
                })
                (λ _.
                  if-elim Valid (same key (codes "bitrate_mbps"))
                    (λ _. record {
                      bitrate_range =
                          in_range-le 1 200 (stoi value) v.bitrate_mbps h.bitrate_range.0
                            h.bitrate_range.1;
                      fov_range = h.fov_range;
                      scale_range = h.scale_range;
                      keyframe_range = h.keyframe_range;
                      preset_known = h.preset_known;
                      transport_known = h.transport_known;
                    })
                    (λ _.
                      if-elim Valid (same key (codes "fov_degrees"))
                        (λ _. record {
                          bitrate_range = h.bitrate_range;
                          fov_range =
                              in_range-le 60 150 (stoi value) v.fov_degrees h.fov_range.0
                                h.fov_range.1;
                          scale_range = h.scale_range;
                          keyframe_range = h.keyframe_range;
                          preset_known = h.preset_known;
                          transport_known = h.transport_known;
                        })
                        (λ _.
                          if-elim Valid (same key (codes "resolution_scale"))
                            (λ _. record {
                              bitrate_range = h.bitrate_range;
                              fov_range = h.fov_range;
                              scale_range =
                                  scale_in_range-Valid (stof value) v.resolution_scale
                                    h.scale_range;
                              keyframe_range = h.keyframe_range;
                              preset_known = h.preset_known;
                              transport_known = h.transport_known;
                            })
                            (λ _.
                              if-elim Valid (same key (codes "keyframe_interval_sec"))
                                (λ _. record {
                                  bitrate_range = h.bitrate_range;
                                  fov_range = h.fov_range;
                                  scale_range = h.scale_range;
                                  keyframe_range =
                                      in_range-le 1 10 (stoi value) v.keyframe_interval_sec
                                        h.keyframe_range.0 h.keyframe_range.1;
                                  preset_known = h.preset_known;
                                  transport_known = h.transport_known;
                                })
                                (λ _.
                                  if-elim Valid (same key (codes "encoder_preset"))
                                    (λ _. record {
                                      bitrate_range = h.bitrate_range;
                                      fov_range = h.fov_range;
                                      scale_range = h.scale_range;
                                      keyframe_range = h.keyframe_range;
                                      preset_known =
                                          one_of-Among presets presets (parse_string value)
                                            v.encoder_preset (λ t k. k) h.preset_known;
                                      transport_known = h.transport_known;
                                    })
                                    (λ _.
                                      if-elim Valid (same key (codes "transport"))
                                        (λ _. record {
                                          bitrate_range = h.bitrate_range;
                                          fov_range = h.fov_range;
                                          scale_range = h.scale_range;
                                          keyframe_range = h.keyframe_range;
                                          preset_known = h.preset_known;
                                          transport_known =
                                              one_of-Among transports transports
                                                (parse_string value) v.streaming_transport
                                                (λ t k. k) h.transport_known;
                                        })
                                        (λ _. h)))))))))

  set_pair-Valid :
      (pair : Option (Text × Text)) (v : ConfigValues F) → Valid v → Valid (set_pair F pair v)
  set_pair-Valid none v h = h
  set_pair-Valid (some (key, value)) v h = apply_setting-Valid (trim key) (trim value) v h

  apply_trimmed-Valid :
      (line : Text) (v : ConfigValues F) → Valid v → Valid (apply_trimmed F line v)
  unfolding apply_trimmed
  apply_trimmed-Valid [] v h = h
  apply_trimmed-Valid (c ∷ cs) v h =
      if-elim Valid ((c == b'#') || (c == b'[')) (λ _. h)
        (λ _. set_pair-Valid (split_at_equals F (c ∷ cs)) v h)

  parse_lines-Valid :
      (line input : Text) (v : ConfigValues F) → Valid v → Valid (parse_lines F line input v)
  unfolding parse_lines apply_line
  parse_lines-Valid line [] v h = apply_trimmed-Valid (trim line) v h
  parse_lines-Valid line (c ∷ cs) v h =
      let ended =
        parse_lines-Valid [] cs (apply_line F line v) (apply_trimmed-Valid (trim line) v h) in
      let longer = parse_lines-Valid (line ++ c ∷ []) cs v h in
      if-elim Valid (c == 10) (λ _. ended) (λ _. longer)

  -- Whatever a configuration file holds, its values are within the ranges that the runtime accepts
  -- if the defaults are.
  pub parse_config_toml-Valid :
      (input : Text) (defaults : ConfigValues F)
      → Valid defaults
      → Valid (parse_config_toml F input defaults)
  unfolding parse_config_toml
  parse_config_toml-Valid input defaults = parse_lines-Valid [] input defaults
