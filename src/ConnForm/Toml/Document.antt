-- ===== src/ConnForm/Toml/Document.antt =====
-- A whole text of quoted settings, written and read: `_connFormToTOML` joins the lines and
-- `_parseConnTOML` takes them apart, internal/webui/assets/static/js/conn-form.js.
use termcp.Base.{
  ℕ, Bool, true, false, not, Option, none, some, ◌↔◌, sym, lookup, lookup-insert_self, List, [],
  ◌∷◌, ◌++◌, map, ◌≡◌, refl, ap, ◌∙◌, arith, Text, any, keep_if, All, ◌==◌,
}
use termcp.ConnForm.Escape.{toml_val, toml_escape, doubled, HasNoBackslash, doubled_same_iff}
use termcp.ConnForm.Toml.{
  Value, Doc, str, put, between, split_lines, is_terminator, is_word, read_lines, parse_conn_toml,
  empty_doc,
}
use termcp.ConnForm.Toml.Lines.{
  IsKey, pair_line, read_line-quoted, toml_escape-any, toml_val-quotes, any-snoc,
}
use termcp.ConnForm.Form.{join_lines}

split-append :
    (l s : Text) → any is_terminator l ≡ false → split_lines (l ++ b'\n' ∷ s) ≡ l ∷ split_lines s
unfolding split_lines
split-append [] s h = refl
split-append (c ∷ l) s h =
    let plain : (c == b'\n') ≡ false = ground arith in
    let rest : any is_terminator l ≡ false = ground arith in rw (plain, split-append l s rest) refl

split_lines-join_lines :
    (l : Text) (ls : List Text)
    → All (λ k. any is_terminator k ≡ false) (l ∷ ls)
    → split_lines (join_lines (l ∷ ls)) ≡ l ∷ ls ++ [] ∷ []
unfolding join_lines
split_lines-join_lines l [] h = split-append l [] h.0 ∙ unfold split_lines in refl
split_lines-join_lines l (m ∷ ls) h =
    split-append l (join_lines (m ∷ ls)) h.0 ∙ ap (λ r. l ∷ r) (split_lines-join_lines m ls h.1)

-- A key and its value.
abbrev pub Setting : Type 0
Setting = Text × Text

abbrev pub IsSetting : Setting → Type 0
IsSetting kv = IsKey kv.0 × (any is_terminator kv.1 ≡ false)

abbrev pub setting_line : Setting → Text
setting_line kv = pair_line kv.0 (toml_val kv.1)

abbrev pub put_all : List Setting → Doc → Doc
put_all [] d = d
put_all (kv ∷ kvs) d = put_all kvs (put kv.0 (str (doubled kv.1)) d)

read_lines-settings :
    (kvs : List Setting) (d : Doc)
    → All IsSetting kvs
    → read_lines between (map setting_line kvs ++ [] ∷ []) d ≡ put_all kvs d
unfolding read_lines
read_lines-settings [] d h = refl
read_lines-settings (kv ∷ kvs) d h =
    ap (λ r. read_lines r.0 (map setting_line kvs ++ [] ∷ []) r.1)
      (read_line-quoted kv.0 kv.1 d h.0.0 h.0.1)
    ∙ read_lines-settings kvs (put kv.0 (str (doubled kv.1)) d) h.1

any-append :
    (p : ℕ → Bool) (xs ys : Text) → any p xs ≡ false → any p ys ≡ false → any p (xs ++ ys) ≡ false
any-append p [] ys h k = k
any-append p (x ∷ xs) ys h k = let ih = any-append p xs ys in ground (arith, ih)

word-any : (k : Text) → All (λ c. is_word c ≡ true) k → any is_terminator k ≡ false
word-any [] h = refl
word-any (c ∷ k) h =
    let plain : is_terminator c ≡ false = let w = h.0 in ground arith in rw plain (word-any k h.1)

setting_line-any : (kv : Setting) → IsSetting kv → any is_terminator (setting_line kv) ≡ false
setting_line-any kv h = any-append is_terminator kv.0 _ (word-any kv.0 h.0.1) (
    rw (toml_val-quotes kv.1)
      (any-snoc is_terminator (toml_escape kv.1) b'"' (toml_escape-any kv.1 h.1) refl))

settings-any :
    (kvs : List Setting)
    → All IsSetting kvs
    → All (λ l. any is_terminator l ≡ false) (map setting_line kvs)
settings-any [] h = tt
settings-any (kv ∷ kvs) h = (setting_line-any kv h.0, settings-any kvs h.1)

abbrev no_cr : Text → Text
no_cr = keep_if λ c. not (c == 13)

no_cr-same : (l s : Text) → any is_terminator l ≡ false → no_cr (l ++ s) ≡ l ++ no_cr s
no_cr-same [] s h = refl
no_cr-same (c ∷ l) s h =
    let plain : (c == 13) ≡ false = ground arith in
    let rest : any is_terminator l ≡ false = ground arith in
    rw plain (ap (λ r. c ∷ r) (no_cr-same l s rest))

join_lines-no_cr :
    (l : Text) (ls : List Text)
    → All (λ k. any is_terminator k ≡ false) (l ∷ ls)
    → no_cr (join_lines (l ∷ ls)) ≡ join_lines (l ∷ ls)
unfolding join_lines
join_lines-no_cr l [] h = no_cr-same l (b'\n' ∷ []) h.0
join_lines-no_cr l (m ∷ ls) h =
    no_cr-same l (b'\n' ∷ join_lines (m ∷ ls)) h.0
    ∙ ap (λ r. l ++ b'\n' ∷ r) (join_lines-no_cr m ls h.1)

-- A text that consists of quoted settings, joined as the form joins its lines, is read as exactly
-- these settings, in their order, each value with its backslashes doubled. Keys are words, and values
-- have no line break.
pub parse_conn_toml-settings :
    (kv : Setting) (kvs : List Setting)
    → All IsSetting (kv ∷ kvs)
    → parse_conn_toml (join_lines (map setting_line (kv ∷ kvs))) ≡ put_all (kv ∷ kvs) empty_doc
unfolding parse_conn_toml
parse_conn_toml-settings kv kvs h =
    let ls = map setting_line kvs in
    let one = settings-any (kv ∷ kvs) h in
    ap (λ t. read_lines between (split_lines t) empty_doc)
      (join_lines-no_cr (setting_line kv) ls one)
    ∙ ap (λ x. read_lines between x empty_doc) (split_lines-join_lines (setting_line kv) ls one)
    ∙ read_lines-settings (kv ∷ kvs) empty_doc h

str_text : Value → Text
str_text (str s) = s
str_text v = []

-- The value under the key of a document of one setting.
abbrev pub read_back : Text → Text → Option Value
read_back key v = lookup key (parse_conn_toml (join_lines (setting_line (key, v) ∷ []))).root

read_back-doubled :
    (key v : Text)
    → IsKey key
    → any is_terminator v ≡ false
    → read_back key v ≡ some (str (doubled v))
unfolding put
read_back-doubled key v k one_line =
    ap (λ d. lookup key d.root) (parse_conn_toml-settings (key, v) [] ((k, one_line), tt))
    ∙ lookup-insert_self key (str (doubled v)) []

-- In a document of one quoted setting, whose key is a word and whose value has no line break, the value
-- is read back as it was exactly when it holds no backslash.
pub parse_conn_toml-survives :
    (key v : Text)
    → IsKey key
    → any is_terminator v ≡ false
    → (read_back key v ≡ some (str v)) ↔ HasNoBackslash v
unfolding str_text
parse_conn_toml-survives key v k one_line =
    let same = read_back-doubled key v k one_line in
    (
      λ e.
          (doubled_same_iff v).0
            (ap (λ (o : Option Value). elim o [ none ↦ [] | some x ↦ str_text x ]) (sym same ∙ e)),
      λ h. same ∙ ap (λ t. some (str t)) ((doubled_same_iff v).1 h),
    )
