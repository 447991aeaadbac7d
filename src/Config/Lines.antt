-- ===== src/Config/Lines.antt =====
-- runtime/src/Config.cpp: what a line of the configuration file means.
use open_xr_osx.Base.{
  ℕ, ◌≡◌, refl, sym, ap, ◌∙◌, true, false, Bool-cases, inl, inr, some, [], ◌∷◌, ◌++◌, append_assoc,
  append-nil, arith, ◌==◌, Text, All, All-append,
}
use open_xr_osx.Config.Setting.{
  Floats, ConfigValues, is_blank, trim_front, trim_back, unless_blank, trim, last_or, apply_setting,
  split_at_equals, set_pair, apply_trimmed, apply_line, parse_lines, parse_config_toml,
}

abbrev pub Blank : ℕ → Type 0
Blank c = is_blank c ≡ true

abbrev pub NotLineFeed : ℕ → Type 0
NotLineFeed c = (c == 10) ≡ false

-- A character of a key.
abbrev pub KeyChar : ℕ → Type 0
KeyChar c = (is_blank c ≡ false) × ((c == b'=') ≡ false)

-- A key begins with no `#` or `[`.
abbrev pub IsKey : Text → Type 0
IsKey [] = ⊥
IsKey (c ∷ cs) = All KeyChar (c ∷ cs) × ((c == b'#') ≡ false) × ((c == b'[') ≡ false)

-- A value neither begins nor ends with a blank.
abbrev pub IsValue : Text → Type 0
IsValue [] = ⊥
IsValue (c ∷ cs) = (is_blank c ≡ false) × (is_blank (last_or c cs) ≡ false)

trim_front-blanks : (pre s : Text) → All Blank pre → trim_front (pre ++ s) ≡ trim_front s
unfolding trim_front
trim_front-blanks [] s h = refl
trim_front-blanks (c ∷ cs) s h = rw (h.0) (trim_front-blanks cs s h.1)

trim_front_kept : (c : ℕ) (cs : Text) → is_blank c ≡ false → trim_front (c ∷ cs) ≡ c ∷ cs
unfolding trim_front
trim_front_kept c cs h = rw h refl

trim_back-Blank : (post : Text) → All Blank post → trim_back post ≡ []
unfolding trim_back
trim_back-Blank [] h = refl
trim_back-Blank (c ∷ cs) h = rw (trim_back-Blank cs h.1) (rw (h.0) refl)

trim_back-blanks : (s post : Text) → All Blank post → trim_back (s ++ post) ≡ trim_back s
unfolding trim_back
trim_back-blanks [] post h = unfold trim_back in trim_back-Blank post h
trim_back-blanks (c ∷ cs) post h = ap (unless_blank c) (trim_back-blanks cs post h)

trim_back_kept : (c : ℕ) (cs : Text) → is_blank (last_or c cs) ≡ false → trim_back (c ∷ cs) ≡ c ∷ cs
unfolding trim_back
trim_back_kept c [] h = rw h refl
trim_back_kept c (d ∷ ds) h = ap (unless_blank c) (trim_back_kept d ds h)

last_or-append : (c d e : ℕ) (xs ys : Text) → last_or c (xs ++ d ∷ ys) ≡ last_or e (d ∷ ys)
last_or-append c d e [] ys = refl
last_or-append c d e (x ∷ xs) ys = last_or-append x d e xs ys

last_or-KeyChar : (c : ℕ) (cs : Text) → All KeyChar (c ∷ cs) → is_blank (last_or c cs) ≡ false
last_or-KeyChar c [] h = h.0.0
last_or-KeyChar c (d ∷ ds) h = last_or-KeyChar d ds h.1

-- Blanks around a text that has none at its ends are cut off.
pub trim_padded :
    (pre s post : Text) → All Blank pre → IsValue s → All Blank post → trim (pre ++ (s ++ post)) ≡ s
unfolding trim
trim_padded pre [] post p v q = absurd v
trim_padded pre (c ∷ cs) post p v q =
    ap trim_back (trim_front-blanks pre ((c ∷ cs) ++ post) p ∙ trim_front_kept c (cs ++ post) v.0)
    ∙ trim_back-blanks (c ∷ cs) post q
    ∙ trim_back_kept c cs v.1

IsKey-IsValue : (key : Text) → IsKey key → IsValue key
IsKey-IsValue [] k = k
IsKey-IsValue (c ∷ cs) k = (k.0.0.0, last_or-KeyChar c cs k.0)

abbrev pub body_of : (key before after value : Text) → Text
body_of key before after value = key ++ (before ++ (b'=' ∷ after ++ value))

-- A line that sets a key, with blanks as they come.
abbrev pub setting_line : (pre key before after value post : Text) → Text
setting_line pre key before after value post = pre ++ (body_of key before after value ++ post)

body-IsValue :
    (key before after value : Text)
    → IsKey key
    → IsValue value
    → IsValue (body_of key before after value)
body-IsValue [] before after value k w = absurd k
body-IsValue (c ∷ cs) before after [] k w = absurd w
body-IsValue (c ∷ cs) before after (x ∷ xs) k w = (
  k.0.0.0,
  ap is_blank {y = last_or x xs} (
        ap (last_or c) {x = cs ++ (before ++ (b'=' ∷ after ++ x ∷ xs))}
          {y = (cs ++ (before ++ b'=' ∷ after)) ++ x ∷ xs} (simp append_assoc)
        ∙ last_or-append c x x (cs ++ (before ++ b'=' ∷ after)) xs)
      ∙ w.1,
)

NotEquals : ℕ → Type 0
NotEquals c = (c == b'=') ≡ false

module _ (F : Floats) where
  split_at_equals_first :
      (k w : Text) → All NotEquals k → split_at_equals F (k ++ b'=' ∷ w) ≡ some (k, w)
  unfolding split_at_equals NotEquals
  split_at_equals_first [] w h = refl
  split_at_equals_first (c ∷ cs) w h = rw (h.0) (rw (split_at_equals_first cs w h.1) refl)

  KeyChar-NotEquals : (k : Text) → All KeyChar k → All NotEquals k
  unfolding NotEquals
  KeyChar-NotEquals [] h = tt
  KeyChar-NotEquals (c ∷ cs) h = (h.0.1, KeyChar-NotEquals cs h.1)

  Blank-NotEquals : (k : Text) → All Blank k → All NotEquals k
  unfolding NotEquals
  Blank-NotEquals [] h = tt
  Blank-NotEquals (c ∷ cs) h = (ground (arith, h.0), Blank-NotEquals cs h.1)

  apply_trimmed-body :
      (key before after value : Text) (v : ConfigValues F)
      → IsKey key
      → All Blank before
      → All Blank after
      → IsValue value
      → apply_trimmed F (body_of key before after value) v ≡ apply_setting F key value v
  unfolding apply_trimmed
  apply_trimmed-body [] before after value v k b a w = absurd k
  apply_trimmed-body (c ∷ cs) before after value v k b a w =
      rw (k.1, k.2)
        (ap (λ t. set_pair F (split_at_equals F t) v)
            (sym (append_assoc (c ∷ cs) before ((b'=' ∷ after) ++ value)))
          ∙ ap (λ o. set_pair F o v)
              (split_at_equals_first ((c ∷ cs) ++ before) (after ++ value) (
                All-append NotEquals (c ∷ cs) before (KeyChar-NotEquals (c ∷ cs) k.0)
                  (Blank-NotEquals before b)))
          ∙ ap (λ t. apply_setting F t (trim (after ++ value)) v)
              (trim_padded [] (c ∷ cs) before tt (IsKey-IsValue (c ∷ cs) k) b)
          ∙ ap (λ t. apply_setting F (c ∷ cs) t v)
              (ap (λ t. trim (after ++ t)) {x = value} {y = value ++ []} (simp append-nil)
                ∙ trim_padded after value [] a w tt))

  -- A line sets its key to its value, whatever blanks stand at its ends and around the equals sign.
  pub apply_line-setting_line :
      (pre key before after value post : Text) (v : ConfigValues F)
      → All Blank pre
      → IsKey key
      → All Blank before
      → All Blank after
      → IsValue value
      → All Blank post
      → apply_line F (setting_line pre key before after value post) v ≡ apply_setting F key value v
  unfolding apply_line
  apply_line-setting_line pre key before after value post v p k b a w q =
      ap (λ line. apply_trimmed F line v)
        (trim_padded pre (body_of key before after value) post p
          (body-IsValue key before after value k w) q)
      ∙ apply_trimmed-body key before after value v k b a w

  pub parse_lines-append :
      (line a b : Text) (v : ConfigValues F)
      → parse_lines F line (a ++ 10 ∷ b) v ≡ parse_lines F [] b (parse_lines F line a v)
  unfolding parse_lines
  parse_lines-append line [] b v = refl
  parse_lines-append line (c ∷ cs) b v = elim (Bool-cases (c == 10)) [
    | inl e ↦ rw e (parse_lines-append [] cs b (apply_line F line v))
    | inr e ↦ rw e (parse_lines-append (line ++ c ∷ []) cs b v)
  ]

  pub parse_lines_one :
      (line s : Text) (v : ConfigValues F)
      → All NotLineFeed s
      → parse_lines F line s v ≡ apply_line F (line ++ s) v
  unfolding parse_lines
  parse_lines_one line [] v h = rw (append-nil) refl
  parse_lines_one line (c ∷ cs) v h =
      rw (h.0) (parse_lines_one (line ++ c ∷ []) cs v h.1 ∙ rw append_assoc refl)

  -- A line that sets a key, in a file: what stands before it gives the values it changes, and what
  -- stands behind it changes its result. So the last valid setting of a key is the one that counts.
  pub parse_config_toml-setting_line :
      (above pre key before after value post below : Text) (defaults : ConfigValues F)
      → All Blank pre
      → IsKey key
      → All Blank before
      → All Blank after
      → IsValue value
      → All Blank post
      → All NotLineFeed (setting_line pre key before after value post)
      → parse_config_toml F
          (above ++ 10 ∷ (setting_line pre key before after value post ++ 10 ∷ below))
          defaults
        ≡ parse_config_toml F below (apply_setting F key value (parse_config_toml F above defaults))
  unfolding parse_config_toml
  parse_config_toml-setting_line above pre key before after value post below d p k b a w q n =
      let line = setting_line pre key before after value post in
      parse_lines-append [] above (line ++ 10 ∷ below) d
      ∙ parse_lines-append [] line below (parse_lines F [] above d)
      ∙ ap (parse_lines F [] below) (
          parse_lines_one [] line (parse_lines F [] above d) n
          ∙ apply_line-setting_line pre key before after value post (parse_lines F [] above d) p k b
              a w q)
