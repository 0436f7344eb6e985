-- ===== src/ConnForm/Toml.antt =====
-- The reader of the TOML view, `_parseConnTOML` of internal/webui/assets/static/js/conn-form.js. Its
-- regular expressions are written out; a line that opens a `"""` block makes the reader wait for the
-- line that closes it. The names of `Object.prototype` are not keys of the model.
pub mod Tests
pub mod Lines
pub mod Document
use termcp.Base.{
  ℕ, zero, suc, ◌+◌, ◌*◌, ◌-◌, Bool, true, false, not, ◌&&◌, ◌||◌, Option, none, some, List, [],
  ◌∷◌, ◌++◌, reverse, Text, Dict, codes, lookup, insert, ℤ, ◌-ℤ◌, pos, negsuc, is_empty, is_space,
  trim, trim_start, text_eq, any, keep_if, leb, ◌==◌, if◌then◌else◌,
}
use termcp.ConnForm.Escape.{unescape_quotes}

pub data Value : Type 0 where
  str : Text → Value
  num : ℤ → Value
  flag : Bool → Value

-- `cur` is the section that keys go to; none is the root.
pub record Doc : Type 0 where
  pub root : Dict Value
  pub sections : Dict (Dict Value)
  pub cur : Option Text

abbrev pub empty_doc : Doc
empty_doc = record { root = []; sections = []; cur = none }

abbrev pub section_of : Text → Dict (Dict Value) → Dict Value
section_of name m = elim (lookup name m) [ none ↦ [] | some s ↦ s ]

-- `cur[key] = v`.
unfoldable pub put : Text → Value → Doc → Doc
put key v d = elim d.cur [
  | none ↦ record d { root = insert key v d.root }
  | some name ↦ record d {
    sections = insert name (insert key v (section_of name d.sections)) d.sections;
  }
]

-- `cur = sections[name] || (sections[name] = {})`.
unfoldable pub enter : Text → Doc → Doc
enter name d = record d {
  sections = insert name (section_of name d.sections) d.sections;
  cur = some name;
}

-- `s.split('\n')`.
unfoldable pub split_lines : Text → List Text
split_lines [] = [] ∷ []
split_lines (c ∷ s) =
    if c == b'\n'
    then [] ∷ split_lines s
    else elim (split_lines s) [ [] ↦ (c ∷ []) ∷ [] | l ∷ ls ↦ (c ∷ l) ∷ ls ]

abbrev pub is_word : ℕ → Bool
is_word c =
    (leb b'a' c && leb c b'z')
    || (leb b'A' c && leb c b'Z')
    || (leb b'0' c && leb c b'9')
    || c == b'_'

abbrev pub is_digit : ℕ → Bool
is_digit c = leb b'0' c && leb c b'9'

-- What `.` of a regular expression does not match.
abbrev pub is_terminator : ℕ → Bool
is_terminator c = c == b'\n' || c == 13 || c == 0x2028 || c == 0x2029

-- The longest prefix that passes a test, and the rest.
unfoldable pub span : (ℕ → Bool) → Text → Text × Text
span p [] = ([], [])
span p (c ∷ s) = let r = span p s in if p c then (c ∷ r.0, r.1) else ([], c ∷ s)

-- `line.match(/^\[([^\]]+)\]$/)`.
unfoldable pub match_section : Text → Option Text
unfolding span
match_section [] = none
match_section (c ∷ s) =
    let r = span (λ d. not (d == b']')) s in
    if c == b'['
    then (if is_empty r.0 then none else if text_eq r.1 (b']' ∷ []) then some r.0 else none)
    else none

-- `line.match(/^(\w+)\s*=\s*(.*)$/)`.
unfoldable pub match_pair : Text → Option (Text × Text)
unfolding span
match_pair line =
    let r = span is_word line in
    if is_empty r.0 then none else elim (trim_start r.1) [
      | [] ↦ none
      | c ∷ s ↦
          (if c == b'='
            then (if any is_terminator (trim_start s) then none else some (r.0, trim_start s))
            else none)
    ]

abbrev drop : ℕ → Text → Text
drop zero s = s
drop (suc n) [] = []
drop (suc n) (c ∷ s) = drop n s

abbrev starts_with : ℕ → Text → Bool
starts_with c [] = false
starts_with c (d ∷ s) = d == c

abbrev pub starts_triple : Text → Bool
starts_triple (a ∷ b ∷ c ∷ s) = a == b'"' && b == b'"' && c == b'"'
starts_triple _ = false

-- The text before the first `"""`, when there is one.
unfoldable pub before_triple : Text → Option Text
before_triple [] = none
before_triple (c ∷ s) =
    let rest = before_triple s in
    if starts_triple (c ∷ s) then some [] else elim rest [ none ↦ none | some t ↦ some (c ∷ t) ]

-- The text `c ∷ s`, with the reverse of `s` at hand.
unfoldable pub unquote : ℕ → Text → Text → Text
unquote c s [] = c ∷ s
unquote c s (d ∷ t) =
    if c == b'"' && d == b'"' && not (any is_terminator s) then reverse t else c ∷ s

-- `v.replace(/^"(.*)"$/, '$1')`.
unfoldable pub strip_quotes : Text → Text
unfolding unquote
strip_quotes [] = []
strip_quotes (c ∷ s) = unquote c s (reverse s)

unfoldable pub read_digits : ℕ → Text → ℕ
read_digits acc [] = acc
read_digits acc (c ∷ s) = read_digits (acc * 10 + (c - b'0')) s

abbrev all_digits : Text → Bool
all_digits s = if is_empty s then false else not (any (λ c. not (is_digit c)) s)

-- `/^-?\d+$/.test(v)` with `parseInt(v, 10)`.
unfoldable pub read_number : Text → Option ℤ
unfolding read_digits
read_number [] = none
read_number (c ∷ s) =
    if c == b'-'
    then (if all_digits s then some (pos 0 -ℤ pos (read_digits 0 s)) else none)
    else if all_digits (c ∷ s)
    then some (pos (read_digits 0 (c ∷ s)))
    else none

unfoldable pub read_value : Text → Value
unfolding read_number strip_quotes unescape_quotes
read_value v =
    if text_eq v (codes "true")
    then flag true
    else if text_eq v (codes "false")
    then flag false
    else elim (read_number v) [ some n ↦ num n | none ↦ str (unescape_quotes (strip_quotes v)) ]

-- Whether the reader is inside a `"""` block, with its key and the text so far.
pub data Mode : Type 0 where
  between : Mode
  within : Text → Text → Mode

abbrev close_block : Text → Text → Doc → Doc
close_block key body d = put key (str (trim (unescape_quotes body))) d

-- What follows the `=` of a pair.
unfoldable pub read_raw : Text → Text → Doc → Mode × Doc
unfolding put read_value before_triple unescape_quotes
read_raw key raw d =
    if starts_triple raw
    then elim (before_triple (drop 3 raw)) [
      | some body ↦ (between, put key (str (unescape_quotes body)) d)
      | none ↦ (within key (drop 3 raw), d)
    ]
    else (between, put key (read_value (trim raw)) d)

unfoldable pub read_pair : Option (Text × Text) → Doc → Mode × Doc
unfolding read_raw
read_pair none d = (between, d)
read_pair (some (key, raw)) d = read_raw key raw d

-- A line, trimmed, outside of a block.
unfoldable pub read_trimmed : Text → Doc → Mode × Doc
unfolding enter match_section match_pair read_pair trim
read_trimmed line d =
    if is_empty line
    then (between, d)
    else if starts_with b'#' line
    then (between, d)
    else elim (match_section line) [
      | some name ↦ (between, enter (trim name) d)
      | none ↦ read_pair (match_pair line) d
    ]

unfoldable pub read_line : Mode → Text → Doc → Mode × Doc
unfolding read_trimmed before_triple put unescape_quotes trim
read_line between line d = read_trimmed (trim line) d
read_line (within key body) line d = elim (before_triple line) [
  | some last ↦ (between, close_block key (body ++ b'\n' ∷ last) d)
  | none ↦ (within key (body ++ b'\n' ∷ line), d)
]

unfoldable pub read_lines : Mode → List Text → Doc → Doc
unfolding read_line
read_lines between [] d = d
read_lines (within key body) [] d = close_block key body d
read_lines m (line ∷ lines) d = let r = read_line m line d in read_lines r.0 lines r.1

unfoldable pub parse_conn_toml : Text → Doc
unfolding read_lines split_lines
parse_conn_toml toml =
    read_lines between (split_lines (keep_if (λ c. not (c == 13)) toml)) empty_doc
