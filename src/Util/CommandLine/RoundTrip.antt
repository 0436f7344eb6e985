-- ===== src/Util/CommandLine/RoundTrip.antt =====
-- The command lines that a human can type, as a grammar, and what `splitCommandLine` makes of them.
use termcp.Base.{
  ℕ, Bool, true, false, none, some, List, [], ◌∷◌, ◌++◌, map, append-nil, append_assoc, ◌≡◌, ◌≢◌,
  refl, ◌⊎◌, inl, inr, arith, Text, All,
}
use termcp.Util.CommandLine.{
  Cursor, is_quote, is_blank, read_char, scan, finish, split_command_line,
}

-- A word is made of bare characters and quoted runs, in any order: `a"b c"'d'`.
pub data Segment : Type 0 where
  bare : ℕ → Segment
  quoted : ℕ → Text → Segment

pub spell : Segment → Text
spell (bare c) = c ∷ []
spell (quoted q t) = q ∷ t ++ q ∷ []

pub meaning : Segment → Text
meaning (bare c) = c ∷ []
meaning (quoted q t) = t

abbrev pub IsLegal : Segment → Type 0
IsLegal (bare c) = (is_quote c ≡ false) × (is_blank c ≡ false)
IsLegal (quoted q t) = (is_quote q ≡ true) × All (λ c. c ≢ q) t

pub spell_word : List Segment → Text
unfolding spell
spell_word [] = []
spell_word (g ∷ gs) = spell g ++ spell_word gs

pub word_meaning : List Segment → Text
unfolding meaning
word_meaning [] = []
word_meaning (g ∷ gs) = meaning g ++ word_meaning gs

abbrev pub IsBlank : Text → Type 0
IsBlank = All (λ c. is_blank c ≡ true)

-- A word and the blanks behind it.
pub record Item : Type 0 where
  pub first : Segment
  pub rest : List Segment
  pub gap : Text

abbrev segments : Item → List Segment
segments i = i.first ∷ i.rest

abbrev pub item_meaning : Item → Text
item_meaning i = word_meaning (segments i)

pub render : List Item → Text
render [] = []
render (i ∷ is) = spell_word (segments i) ++ (i.gap ++ render is)

-- Words are legal, gaps are blank, and only the last gap may be empty.
abbrev pub IsLine : List Item → Type 0
IsLine [] = Unit
IsLine (i ∷ is) = All IsLegal (segments i) × IsBlank i.gap × ((i.gap ≢ []) ⊎ (is ≡ [])) × IsLine is

abbrev inside : List Text → Text → Cursor
inside out cur = record { out = out; cur = cur; quote = none; started = true }

abbrev between : List Text → Cursor
between out = record { out = out; cur = []; quote = none; started = false }

scan-append : (s t : Text) (k : Cursor) → scan (s ++ t) k ≡ scan t (scan s k)
unfolding scan
scan-append [] t k = refl
scan-append (c ∷ s) t k = scan-append s t (read_char c k)

scan_quoted :
    (q : ℕ) (t rest : Text) (out : List Text) (cur : Text)
    → All (λ c. c ≢ q) t
    → scan (t ++ q ∷ rest) (record { out = out; cur = cur; quote = some q; started = true })
      ≡ scan rest (inside out (cur ++ t))
unfolding scan
scan_quoted q [] rest out cur h = ground (arith, append-nil cur)
scan_quoted q (c ∷ t) rest out cur h =
    ground (arith, scan_quoted q t rest out (cur ++ c ∷ []), append_assoc cur (c ∷ []) t)

-- One segment, from inside or before a word.
scan-spell :
    (g : Segment) (rest : Text) (out : List Text) (cur : Text) (started : Bool)
    → IsLegal g
    → scan (spell g ++ rest) (record { out = out; cur = cur; quote = none; started = started })
      ≡ scan rest (inside out (cur ++ meaning g))
unfolding scan spell meaning
scan-spell (bare c) rest out cur started h = ground arith
scan-spell (quoted q t) rest out cur started h =
    ground (arith, scan_quoted q t rest out cur h.1, append_assoc t (q ∷ []) rest)

scan-spell_word :
    (gs : List Segment) (rest : Text) (out : List Text) (cur : Text)
    → All IsLegal gs
    → scan (spell_word gs ++ rest) (inside out cur)
      ≡ scan rest (inside out (cur ++ word_meaning gs))
unfolding spell_word word_meaning
scan-spell_word [] rest out cur h = rw append-nil
scan-spell_word (g ∷ gs) rest out cur h = rw (
  append_assoc (spell g),
  scan-spell g _ out cur true h.0,
  scan-spell_word gs rest out _ h.1,
  append_assoc cur,
)

scan_blank :
    (gap rest : Text) (out : List Text)
    → IsBlank gap
    → scan (gap ++ rest) (between out) ≡ scan rest (between out)
unfolding scan
scan_blank [] rest out h = refl
scan_blank (c ∷ gap) rest out h = ground (arith, scan_blank gap rest out h.1)

scan_gap :
    (gap rest : Text) (out : List Text) (cur : Text)
    → IsBlank gap
    → gap ≢ []
    → scan (gap ++ rest) (inside out cur) ≡ scan rest (between (out ++ cur ∷ []))
unfolding scan
scan_gap [] rest out cur h ne = absurd (ne refl)
scan_gap (c ∷ gap) rest out cur h ne = ground (arith, scan_blank gap rest (out ++ cur ∷ []) h.1)

-- The cursor behind a word.
scan_word :
    (i : Item) (rest : Text) (out : List Text)
    → All IsLegal (segments i)
    → scan (spell_word (segments i) ++ rest) (between out) ≡ scan rest (inside out (item_meaning i))
unfolding spell_word word_meaning
scan_word i rest out h =
    rw (append_assoc (spell i.first), scan-spell i.first _ out [] false h.0)
      (scan-spell_word i.rest rest out (meaning i.first) h.1)

finish_gap :
    (gap : Text) (out : List Text) (cur : Text)
    → IsBlank gap
    → finish (scan (gap ++ []) (inside out cur)) ≡ out ++ cur ∷ []
finish_gap [] out cur h = unfold scan finish in refl
finish_gap (c ∷ gap) out cur h =
    rw (scan_gap (c ∷ gap) [] out cur h (λ e. cc)) (unfold scan finish in refl)

scan-render :
    (is : List Item) (out : List Text)
    → IsLine is
    → finish (scan (render is) (between out)) ≡ out ++ map item_meaning is
unfolding render
scan-render [] out h = unfold scan finish in rw append-nil
scan-render (i ∷ is) out (legal, blank, inl ne, rest) =
    rw (scan_word i _ out legal, scan_gap i.gap _ out _ blank ne, scan-render is _ rest)
      (append_assoc out _ _)
scan-render (i ∷ []) out (legal, blank, inr e, rest) =
    rw (scan_word i _ out legal) (finish_gap i.gap out _ blank)
scan-render (i ∷ j ∷ is) out (legal, blank, inr e, rest) = cc

-- Any line that the grammar spells, with blanks in front of it, is split into the meanings of its
-- words: blanks separate, a quotation keeps the blanks and the other quotes inside it, adjacent
-- segments join into one word, and an empty quotation is an empty argument.
pub split_command_line-render :
    (lead : Text) (is : List Item)
    → IsBlank lead
    → IsLine is
    → split_command_line (lead ++ render is) ≡ map item_meaning is
unfolding split_command_line
split_command_line-render lead is blank line =
    rw (scan_blank lead (render is) [] blank) (scan-render is [] line)
