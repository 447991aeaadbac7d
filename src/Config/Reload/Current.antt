-- ===== src/Config/Reload/Current.antt =====
-- runtime/src/Config.cpp: the values are those of the file.
use open_xr_osx.Base.{
  ℕ, ◌≡◌, refl, ap, sym, ◌∙◌, Bool, true, false, Bool-cases, inl, inr, not, ◌&&◌, ◌||◌, Option,
  none, some, List, [], ◌∷◌, arith, if◌then◌else◌, if-elim, Text, All,
}
use open_xr_osx.Config.Setting.{Floats, default_values}
use open_xr_osx.Config.Reload.{
  Place, preferred, legacy, same_place, System, Logcat, start_logcat_capture, stop_logcat_capture,
  resolve_config_file_path, Config, blank, is_some, time_or, time_differs, read_values,
  switch_logcat, load_values, current_write_time, has_changed, reload, reload_if_changed_locked,
  construct, is_throttled, refresh_if_needed, get_values,
}

-- A write time stands for the text of a file: `history` gives the text for each.
abbrev pub Recorded : (Place → ℕ → Option Text) → System → Type 0
Recorded history sys =
    (p : Place) (t : ℕ) → (sys.file_at p).write_time ≡ some t → (sys.file_at p).text ≡ history p t

module _ (F : Floats) (history : Place → ℕ → Option Text) where
  -- The values are those of the file whose place and write time are remembered, and the log capture
  -- runs only where they ask for it.
  pub record Synced (c : Config F) : Type 0 where
    pub without_file : c.has_config_file ≡ false → c.values ≡ default_values F
    pub with_file :
        c.has_config_file ≡ true
        → c.has_known_write_time ≡ true
        → c.values ≡ read_values F true (history c.config_file_path c.last_config_write_time)
    pub capture_wanted : c.logcat.running ≡ true → c.values.quest_logcat ≡ true

  abbrev changed : Place → Bool → Option ℕ → Config F → Bool
  changed p b time c =
      not (same_place p c.config_file_path)
      || (not (if b then c.has_config_file else not c.has_config_file)
          || (b && (not c.has_known_write_time || time_differs time c.last_config_write_time)))

  same_place_eq : (p q : Place) → same_place p q ≡ true → p ≡ q
  same_place_eq preferred preferred e = refl
  same_place_eq preferred legacy e = cc
  same_place_eq legacy preferred e = cc
  same_place_eq legacy legacy e = refl

  unchanged_lem :
      (p : Place) (b : Bool) (time : Option ℕ) (text : Option Text) (c : Config F)
      → ((t : ℕ) → time ≡ some t → text ≡ history p t)
      → Synced c
      → changed p b (if b then time else none) c ≡ false
      → read_values F b text ≡ c.values
  unchanged_lem p false time text c h s e = ground (arith, s.without_file)
  unchanged_lem p true none text c h s e = absurd (ground arith)
  unchanged_lem p true (some t) text c h s e =
      ap (read_values F true) (
        h t refl
        ∙ ap (λ q. history q t) (same_place_eq p c.config_file_path (ground arith))
        ∙ ap (history c.config_file_path) {x = t} {y = c.last_config_write_time} (ground arith))
      ∙ sym (s.with_file (ground arith) (ground arith))

  -- What `reload` remembers is what it read.
  reload-Synced_lem :
      (p : Place) (b : Bool) (time : Option ℕ) (text : Option Text) (last : ℕ)
      → ((t : ℕ) → time ≡ some t → text ≡ history p t)
      → (b && is_some (if b then time else none)) ≡ true
      → read_values F b text
        ≡ read_values F true (history p (time_or last (if b then time else none)))
  reload-Synced_lem p false time text last h e = cc
  reload-Synced_lem p true none text last h e = cc
  reload-Synced_lem p true (some t) text last h e = ap (read_values F true) (h t refl)

  switch_logcat-running :
      (old new : Bool) (sys : System) (l : Logcat)
      → (l.running ≡ true → old ≡ true)
      → (switch_logcat F false old new sys l).running ≡ true
      → new ≡ true
  unfolding stop_logcat_capture
  switch_logcat-running true true sys l h e = refl
  switch_logcat-running false true sys l h e = refl
  switch_logcat-running false false sys l h e = h e
  switch_logcat-running true false sys l h e = e

  reload-Synced :
      (sys : System) (c : Config F)
      → Recorded history sys
      → Synced c
      → Synced (reload F false sys c)
  unfolding reload load_values current_write_time
  reload-Synced sys c r s =
      let (p, b) = resolve_config_file_path sys in
      let f = sys.file_at p in
      record {
        without_file = λ e. ap (λ b'. read_values F b' f.text) e;
        with_file =
            λ e k. reload-Synced_lem p b f.write_time f.text c.last_config_write_time (r p) k;
        capture_wanted =
            switch_logcat-running c.values.quest_logcat (load_values F sys).quest_logcat sys
              c.logcat s.capture_wanted;
      }

  unchanged-load_values :
      (sys : System) (c : Config F)
      → Recorded history sys
      → Synced c
      → has_changed F sys c ≡ false
      → load_values F sys ≡ c.values
  unfolding has_changed load_values current_write_time
  unchanged-load_values sys c r s e =
      let (p, b) = resolve_config_file_path sys in
      let f = sys.file_at p in unchanged_lem p b f.write_time f.text c (r p) s e

  checked-Synced :
      (c : Config F) (now : ℕ) → Synced c → Synced (record c { last_reload_check = some now })
  checked-Synced c now s = record {
    without_file = s.without_file;
    with_file = s.with_file;
    capture_wanted = s.capture_wanted;
  }

  refresh-Synced :
      (now : ℕ) (sys : System) (c : Config F)
      → Recorded history sys
      → Synced c
      → Synced (refresh_if_needed F now sys c)
  unfolding refresh_if_needed reload_if_changed_locked
  refresh-Synced now sys c r s =
      let c' = record c { last_reload_check = some now } in
      if-elim Synced (is_throttled F now c.last_reload_check) (λ _. s)
        (λ _.
          if-elim Synced (has_changed F sys c')
            (λ _. reload-Synced sys c' r (checked-Synced c now s)) (λ _. checked-Synced c now s))

  refresh-values :
      (now : ℕ) (sys : System) (c : Config F)
      → Recorded history sys
      → Synced c
      → is_throttled F now c.last_reload_check ≡ false
      → (refresh_if_needed F now sys c).values ≡ load_values F sys
  unfolding refresh_if_needed reload_if_changed_locked
  refresh-values now sys c r s e =
      let c' = record c { last_reload_check = some now } in
      rw e (elim (Bool-cases (has_changed F sys c')) [
        | inl changed_now ↦ rw changed_now (unfold reload in refl)
        | inr kept ↦ rw kept (sym (unchanged-load_values sys c' r (checked-Synced c now s) kept))
      ])

  construct-Synced : (sys : System) → Recorded history sys → Synced (construct F sys)
  unfolding construct reload_if_changed_locked reload load_values current_write_time
  construct-Synced sys r =
      let (p, b) = resolve_config_file_path sys in
      let f = sys.file_at p in
      let c = reload F true sys (blank F) in
      let started = record c { logcat = start_logcat_capture sys c.logcat } in
      let none_yet = λ (e : b ≡ false). ap (λ b'. read_values F b' f.text) e in
      if-elim Synced c.values.quest_logcat
        (λ wanted. record {
          without_file = λ e. ap (λ b'. read_values F b' f.text) e;
          with_file = λ e k. reload-Synced_lem p b f.write_time f.text 0 (r p) k;
          capture_wanted = λ _. wanted;
        })
        (λ _. record {
          without_file = λ e. ap (λ b'. read_values F b' f.text) e;
          with_file = λ e k. reload-Synced_lem p b f.write_time f.text 0 (r p) k;
          capture_wanted = λ e. cc;
        })

  -- Any number of earlier calls.
  unfoldable pub visit : List (ℕ × System) → Config F → Config F
  visit [] c = c
  visit ((now, sys) ∷ later) c = visit later (get_values F now sys c).0

  visit-Synced :
      (calls : List (ℕ × System)) (c : Config F)
      → All (λ call. Recorded history call.1) calls
      → Synced c
      → Synced (visit calls c)
  unfolding visit get_values
  visit-Synced [] c r s = s
  visit-Synced ((now, sys) ∷ later) c r s =
      visit-Synced later (refresh_if_needed F now sys c) r.1 (refresh-Synced now sys c r.0 s)

  implied : (a b : Bool) → (a ≡ true → b ≡ true) → (not a || b) ≡ true
  implied true b h = h refl
  implied false b h = refl

  -- If a write time stands for the text of a file, then after any earlier calls a call of
  -- `GetValues` that is not less than 250 ms after the last check gives what the file says now, or
  -- the defaults where there is none; and the log capture of the headset runs only while the values
  -- ask for it.
  pub get_values-current :
      (start : System) (calls : List (ℕ × System)) (now : ℕ) (sys : System)
      → Recorded history start
      → All (λ call. Recorded history call.1) calls
      → Recorded history sys
      → is_throttled F now (visit calls (construct F start)).last_reload_check ≡ false
      → ((get_values F now sys (visit calls (construct F start))).1 ≡ load_values F sys)
        × ((not (get_values F now sys (visit calls (construct F start))).0.logcat.running
              || (get_values F now sys (visit calls (construct F start))).1.quest_logcat)
            ≡ true)
  unfolding get_values
  get_values-current start calls now sys r rs k e =
      let c = visit calls (construct F start) in
      let s = visit-Synced calls (construct F start) rs (construct-Synced start r) in
      let after = refresh_if_needed F now sys c in
      (
        refresh-values now sys c k s e,
        implied after.logcat.running after.values.quest_logcat
            (refresh-Synced now sys c k s).capture_wanted,
      )
