-- ===== src/ConnForm/Toml/Lines.antt =====
-- The lines that the form writes and the reader of the TOML view:
-- internal/webui/assets/static/js/conn-form.js.
use termcp.Base.{
  ℕ, Bool, true, false, some, [], ◌∷◌, ◌++◌, reverse, reverse-append, reverse-reverse, ◌≡◌, ◌≢◌,
  refl, ap, subst, sym, ◌∙◌, inl, inr, arith, append_assoc, Text, text_eq, is_space, trim,
  trim_start, any, All, ◌==◌, Bool-cases,
}
use termcp.Util.Html.{replace_all}
use termcp.ConnForm.Escape.{
  toml_escape, toml_val, unescape_quotes, doubled, unescape_quotes-toml_escape,
}
use termcp.ConnForm.Toml.{
  Doc, str, put, between, span, match_section, match_pair, read_raw, read_value, read_number,
  strip_quotes, unquote, read_line, read_pair, read_trimmed, is_word, is_terminator, starts_triple,
}

trim_start-solid : (c : ℕ) (s : Text) → is_space c ≡ false → trim_start (c ∷ s) ≡ c ∷ s
trim_start-solid c s e = rw e refl

-- A text between two code units that are not space.
trim-closed :
    (c d : ℕ) (s : Text)
    → is_space c ≡ false
    → is_space d ≡ false
    → trim (c ∷ (s ++ d ∷ [])) ≡ c ∷ (s ++ d ∷ [])
unfolding trim
trim-closed c d s hc hd =
    rw
      (
        trim_start-solid c (s ++ d ∷ []) hc,
        reverse-append (c ∷ s) (d ∷ []),
        trim_start-solid d (reverse (c ∷ s)) hd,
      )
      (ap reverse (sym (reverse-append (c ∷ s) (d ∷ []))) ∙ reverse-reverse ((c ∷ s) ++ d ∷ []))

span-stops :
    (p : ℕ → Bool) (k : Text) (c : ℕ) (s : Text)
    → All (λ d. p d ≡ true) k
    → p c ≡ false
    → span p (k ++ c ∷ s) ≡ (k, c ∷ s)
unfolding span
span-stops p [] c s _ stop = rw stop refl
span-stops p (d ∷ k) c s (h, hs) stop = rw (h, span-stops p k c s hs stop) refl

pub toml_val-quotes : (v : Text) → toml_val v ≡ b'"' ∷ (toml_escape v ++ b'"' ∷ [])
unfolding toml_val toml_escape replace_all
toml_val-quotes [] = refl
toml_val-quotes (c ∷ v) = refl

pub any-snoc :
    (p : ℕ → Bool) (s : Text) (c : ℕ) → any p s ≡ false → p c ≡ false → any p (s ++ c ∷ []) ≡ false
any-snoc p [] c h e = rw e refl
any-snoc p (d ∷ s) c h e = let ih = any-snoc p s c in ground (arith, ih)

unquote_closed :
    (s : Text)
    → any is_terminator (s ++ b'"' ∷ []) ≡ false
    → unquote b'"' (s ++ b'"' ∷ []) (b'"' ∷ reverse s) ≡ s
unfolding unquote
unquote_closed s h = rw h (reverse-reverse s)

strip_quotes-quoted :
    (s : Text) → any is_terminator s ≡ false → strip_quotes (b'"' ∷ (s ++ b'"' ∷ [])) ≡ s
unfolding strip_quotes
strip_quotes-quoted s h =
    ap (unquote b'"' (s ++ b'"' ∷ [])) (reverse-append s (b'"' ∷ []))
    ∙ unquote_closed s (any-snoc is_terminator s b'"' h refl)

read_value-str :
    (s : Text) → read_value (b'"' ∷ s) ≡ str (unescape_quotes (strip_quotes (b'"' ∷ s)))
unfolding read_value text_eq read_number
read_value-str s = refl

read_value-quoted :
    (v : Text)
    → any is_terminator (toml_escape v) ≡ false
    → read_value (toml_val v) ≡ str (doubled v)
read_value-quoted v h =
    ap read_value (toml_val-quotes v)
    ∙ read_value-str (toml_escape v ++ b'"' ∷ [])
    ∙ ap (λ s. str (unescape_quotes s)) (strip_quotes-quoted (toml_escape v) h)
    ∙ ap str (unescape_quotes-toml_escape v)

-- Escaping adds no line break.
pub toml_escape-any :
    (v : Text) → any is_terminator v ≡ false → any is_terminator (toml_escape v) ≡ false
unfolding toml_escape replace_all
toml_escape-any [] h = refl
toml_escape-any (c ∷ v) h = let ih = toml_escape-any v in ground (arith, ih)

starts_triple-second :
    (c : ℕ) (s : Text) → (c == b'"') ≡ false → starts_triple (b'"' ∷ c ∷ s) ≡ false
starts_triple-second c [] e = refl
starts_triple-second c (d ∷ s) e = rw e refl

-- The escaped text does not begin with a quote, so a value is never taken for a block.
toml_val-single : (v : Text) → starts_triple (toml_val v) ≡ false
unfolding toml_val toml_escape replace_all
toml_val-single [] = refl
toml_val-single (c ∷ v) = elim (Bool-cases (c == b'\\')) [
  | inl e ↦ rw e refl
  | inr e ↦ elim (Bool-cases (c == b'"')) [
    | inl f ↦ rw (e, f) refl
    | inr f ↦ rw (e, f) (starts_triple-second c _ f)
  ]
]

abbrev pub IsKey : Text → Type 0
IsKey k = (k ≢ []) × All (λ c. is_word c ≡ true) k

-- `key + ' = ' + raw`.
abbrev pub pair_line : Text → Text → Text
pair_line key raw = key ++ b' ' ∷ b'=' ∷ b' ' ∷ raw

word-plain :
    (c : ℕ)
    → is_word c ≡ true
    → (is_space c ≡ false) × ((c == b'#') ≡ false) × ((c == b'[') ≡ false)
word-plain c h = ground arith

match_pair-line :
    (key : Text) (c : ℕ) (s : Text)
    → IsKey key
    → is_space c ≡ false
    → any is_terminator (c ∷ s) ≡ false
    → match_pair (pair_line key (c ∷ s)) ≡ some (key, c ∷ s)
unfolding match_pair
match_pair-line [] c s (n, h) solid one_line = absurd (n refl)
match_pair-line (k ∷ key) c s (n, h) solid one_line =
    rw (span-stops is_word (k ∷ key) b' ' (b'=' ∷ b' ' ∷ c ∷ s) h refl) (
      rw (trim_start-solid c s solid, one_line)
        (ap (λ r. some (r.0, c ∷ s))
          (span-stops is_word (k ∷ key) b' ' (b'=' ∷ b' ' ∷ c ∷ s) h refl)))

trim-pair_line :
    (key : Text) (s : Text) (c d : ℕ)
    → IsKey key
    → is_space d ≡ false
    → trim (pair_line key (c ∷ (s ++ d ∷ []))) ≡ pair_line key (c ∷ (s ++ d ∷ []))
trim-pair_line [] s c d (n, h) solid = absurd (n refl)
trim-pair_line (k ∷ key) s c d (n, h) solid =
    let inner = key ++ b' ' ∷ b'=' ∷ b' ' ∷ c ∷ s in
    let shape : inner ++ d ∷ [] ≡ key ++ b' ' ∷ b'=' ∷ b' ' ∷ c ∷ (s ++ d ∷ []) =
      append_assoc key (b' ' ∷ b'=' ∷ b' ' ∷ c ∷ s) (d ∷ []) in
    subst (λ t. trim (k ∷ t) ≡ k ∷ t) shape (trim-closed k d inner (word-plain k h.0).0 solid)

read_trimmed-pair :
    (key raw : Text) (d : Doc)
    → IsKey key
    → match_pair (pair_line key raw) ≡ some (key, raw)
    → read_trimmed (pair_line key raw) d ≡ read_raw key raw d
unfolding read_trimmed read_pair match_section
read_trimmed-pair [] raw d (n, h) e = absurd (n refl)
read_trimmed-pair (k ∷ key) raw d (n, h) e =
    rw ((word-plain k h.0).1, (word-plain k h.0).2) (ap (λ o. read_pair o d) e)

trim-toml_val : (v : Text) → trim (toml_val v) ≡ toml_val v
trim-toml_val v = rw (toml_val-quotes v) (trim-closed b'"' b'"' (toml_escape v) refl refl)

trim-line :
    (key v : Text) → IsKey key → trim (pair_line key (toml_val v)) ≡ pair_line key (toml_val v)
trim-line key v k = rw (toml_val-quotes v) (trim-pair_line key (toml_escape v) b'"' b'"' k refl)

read_raw-quoted :
    (key v : Text) (d : Doc)
    → any is_terminator v ≡ false
    → read_raw key (toml_val v) d ≡ (between, put key (str (doubled v)) d)
unfolding read_raw
read_raw-quoted key v d one_line = rw (toml_val-single v) (
    ap (λ s. (between, put key (read_value s) d)) (trim-toml_val v)
    ∙ ap (λ x. (between, put key x d)) (read_value-quoted v (toml_escape-any v one_line)))

match_pair-toml_val :
    (key v : Text)
    → IsKey key
    → any is_terminator v ≡ false
    → match_pair (pair_line key (toml_val v)) ≡ some (key, toml_val v)
match_pair-toml_val key v k one_line =
    let closed = any-snoc is_terminator (toml_escape v) b'"' (toml_escape-any v one_line) refl in
    rw (toml_val-quotes v) (match_pair-line key b'"' (toml_escape v ++ b'"' ∷ []) k refl closed)

-- A line `key = "…"` of the form, whatever the value holds short of a line break, sets the key to
-- the value with each of its backslashes doubled.
pub read_line-quoted :
    (key v : Text) (d : Doc)
    → IsKey key
    → any is_terminator v ≡ false
    → read_line between (pair_line key (toml_val v)) d ≡ (between, put key (str (doubled v)) d)
unfolding read_line
read_line-quoted key v d k one_line =
    ap (λ l. read_trimmed l d) (trim-line key v k)
    ∙ read_trimmed-pair key (toml_val v) d k (match_pair-toml_val key v k one_line)
    ∙ read_raw-quoted key v d one_line
