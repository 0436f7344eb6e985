-- ===== src/Util/CommandLine.antt =====
-- `splitCommandLine` of internal/webui/assets/static/js/util.js: a typed line becomes an argv.
-- A `Cursor` holds the variables of the loop, `read_char` is its body and `finish` what follows it.
pub mod RoundTrip
mod Tests
use termcp.Base.{
  ℕ, Bool, true, false, ◌||◌, Option, none, some, List, [], ◌∷◌, ◌++◌, Text, ◌==◌, if◌then◌else◌,
}

pub record Cursor : Type 0 where
  pub out : List Text
  pub cur : Text
  pub quote : Option ℕ
  pub started : Bool

abbrev pub is_quote : ℕ → Bool
is_quote c = c == b'"' || c == b'\'' || c == 0x60

abbrev pub is_blank : ℕ → Bool
is_blank c = c == b' ' || c == 9

-- Inside a quotation that `q` opened.
read_quoted : ℕ → ℕ → Cursor → Cursor
read_quoted q c k = if c == q then record k { quote = none } else record k { cur = k.cur ++ c ∷ [] }

read_bare : ℕ → Cursor → Cursor
read_bare c k =
    if is_quote c
    then record k { quote = some c; started = true }
    else if is_blank c
    then (if k.started
        then record k { out = k.out ++ k.cur ∷ []; cur = []; started = false }
        else k)
    else record k { cur = k.cur ++ c ∷ []; started = true }

pub read_char : ℕ → Cursor → Cursor
unfolding read_quoted read_bare
read_char c k = elim k.quote [ some q ↦ read_quoted q c k | none ↦ read_bare c k ]

pub scan : Text → Cursor → Cursor
unfolding read_char
scan [] k = k
scan (c ∷ s) k = scan s (read_char c k)

pub finish : Cursor → List Text
finish k = if k.started then k.out ++ k.cur ∷ [] else k.out

abbrev pub start : Cursor
start = record { out = []; cur = []; quote = none; started = false }

unfoldable pub split_command_line : Text → List Text
unfolding scan finish
split_command_line line = finish (scan line start)
