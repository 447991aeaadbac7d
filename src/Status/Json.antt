-- ===== src/Status/Json.antt =====
-- RuntimeStatus.cpp: what a reader of JSON makes of an escaped text.
use open_xr_osx.Base.{
  ℕ, zero, suc, List, ◌+◌, ◌-◌, ◌*◌, ◌/◌, ◌%◌, ◌<◌, ◌≡◌, refl, ap, ◌∙◌, ◌&&◌, Option, none, some,
  [], ◌∷◌, ◌++◌, append_assoc, arith, ltb, leb, ◌==◌, if◌then◌else◌, Text,
}
use open_xr_osx.StatusText.{quote, backslash, escape_char, json_escape, member}

-- Where a reader stands in a string of RFC 8259: in a run of characters, behind a backslash, or
-- behind `\u` and some hexadecimal digits, of which the value and the number that is left are kept.
pub data Mode : Type 0 where
  plain : Mode
  escaped : Mode
  hex : (value left : ℕ) → Mode

pub data Move : Type 0 where
  finish : Move
  emit : ℕ → Move
  goto : Mode → Move
  fail : Move

abbrev hex_value : ℕ → Option ℕ
hex_value c =
    if leb 48 c && leb c 57
    then some (c - 48)
    else if leb 97 c && leb c 102
    then some (c - 87)
    else if leb 65 c && leb c 70
    then some (c - 55)
    else none

abbrev hex_move : ℕ → ℕ → Option ℕ → Move
hex_move value left none = fail
hex_move value left (some d) =
    if left == 1 then emit (value * 16 + d) else goto (hex (value * 16 + d) (left - 1))

-- One character. A control character must be escaped.
unfoldable pub move : Mode → ℕ → Move
move plain c =
    if c == quote
    then finish
    else if c == backslash
    then goto escaped
    else if ltb c 32
    then fail
    else emit c
move escaped c =
    if (c == quote)
    then emit quote
    else if (c == backslash)
    then emit backslash
    else if c == b'/'
    then emit b'/'
    else if c == b'b'
    then emit 8
    else if c == b'f'
    then emit 12
    else if c == b'n'
    then emit 10
    else if c == b'r'
    then emit 13
    else if c == b't'
    then emit 9
    else if c == b'u'
    then goto (hex 0 4)
    else fail
move (hex value left) c = hex_move value left (hex_value c)

abbrev with_char : ℕ → Option (Text × Text) → Option (Text × Text)
with_char c none = none
with_char c (some (text, rest)) = some (c ∷ text, rest)

abbrev follow : Move → Text → (Mode → Option (Text × Text)) → Option (Text × Text)
follow finish rest next = some ([], rest)
follow (emit c) rest next = with_char c (next plain)
follow (goto m) rest next = next m
follow fail rest next = none

-- The text up to the closing quote, and what stands behind it.
unfoldable pub read_from : Mode → Text → Option (Text × Text)
read_from m [] = none
read_from m (c ∷ cs) = follow (move m c) cs (λ m'. read_from m' cs)

unfoldable pub read_string : Text → Option (Text × Text)
read_string = read_from plain

hex_value_digit : (d : ℕ) → d < 16 → hex_value (if ltb d 10 then 48 + d else 87 + d) ≡ some d
hex_value_digit d h = ground arith

-- A control character without a letter of its own.
read_control :
    (hi lo : ℕ) (rest : Text)
    → hi < 16
    → lo < 16
    → read_from
        (hex 0 2)
        ((if ltb hi 10 then 48 + hi else 87 + hi) ∷ (if ltb lo 10 then 48 + lo else 87 + lo) ∷ rest)
      ≡ with_char (hi * 16 + lo) (read_from plain rest)
unfolding read_from move
read_control hi lo rest h k = rw (hex_value_digit hi h) (
    rw (hex_value_digit lo k) (
      ap (λ v. with_char (v * 16 + lo) (read_from plain rest)) {x = 0 + hi} {y = hi} (omega arith)))

read_from-escape_char :
    (c : ℕ) (rest : Text)
    → read_from plain (escape_char c ++ rest) ≡ with_char c (read_from plain rest)
unfolding escape_char read_from move
read_from-escape_char c rest = ground (
  arith,
  read_control (c / 16 % 16) (c % 16) rest,
  ap (λ v. with_char v (read_from plain rest)) {x = c / 16 % 16 * 16 + c % 16} {y = c},
)

read_from-json_escape :
    (s rest : Text) → read_from plain (json_escape s ++ (quote ∷ rest)) ≡ some (s, rest)
unfolding json_escape
read_from-json_escape [] rest = unfold read_from move in refl
read_from-json_escape (c ∷ cs) rest =
    ap (read_from plain) (append_assoc (escape_char c) (json_escape cs) (quote ∷ rest))
    ∙ read_from-escape_char c (json_escape cs ++ (quote ∷ rest))
    ∙ ap (with_char c) (read_from-json_escape cs rest)

-- A reader of JSON gets back the text that `JsonEscape` was given, from its escaped form between
-- quotes, and stops at the closing quote.
pub read_string-json_escape :
    (s rest : Text) → read_string (json_escape s ++ (quote ∷ rest)) ≡ some (s, rest)
unfolding read_string
read_string-json_escape s rest = read_from-json_escape s rest

-- What is left from the next quotation mark on, behind it.
unfoldable pub behind_quote : Text → Text
behind_quote [] = []
behind_quote (c ∷ cs) = if c == quote then cs else behind_quote cs

abbrev pub with_key : Text → Option (Text × Text) → Option ((Text × Text) × Text)
with_key key none = none
with_key key (some (value, rest)) = some ((key, value), rest)

abbrev pub read_value : Option (Text × Text) → Option ((Text × Text) × Text)
read_value none = none
read_value (some (key, rest)) = with_key key (read_string (behind_quote rest))

-- The next member of an object whose value is a text.
unfoldable pub read_member : Text → Option ((Text × Text) × Text)
unfolding read_string behind_quote
read_member text = read_value (read_string (behind_quote text))

abbrev pub with_member :
    (Text × Text) → Option (List (Text × Text) × Text) → Option (List (Text × Text) × Text)
with_member m none = none
with_member m (some (ms, rest)) = some (m ∷ ms, rest)

abbrev pub then_members :
    Option ((Text × Text) × Text)
    → (Text → Option (List (Text × Text) × Text))
    → Option (List (Text × Text) × Text)
then_members none next = none
then_members (some (m, rest)) next = with_member m (next rest)

-- So many members, one after the other, and what stands behind them.
unfoldable pub read_members : ℕ → Text → Option (List (Text × Text) × Text)
unfolding read_member
read_members zero text = some ([], text)
read_members (suc n) text = then_members (read_member text) (read_members n)

-- `before` ends with the key, a colon and the quotation mark of the value.
pub read_members-member :
    (before key value rest : Text) (n : ℕ)
    → ((text : Text) → read_member (before ++ text) ≡ with_key key (read_string text))
    → read_members (suc n) (member before value rest)
      ≡ with_member (key, value) (read_members n rest)
unfolding read_members
read_members-member before key value rest n reads =
    ap (λ m. then_members m (read_members n))
      (reads (json_escape value ++ (quote ∷ rest))
        ∙ ap (with_key key) (read_string-json_escape value rest))
