-- ===== src/ConnForm/Form/Defined.antt =====
-- When `_connFormToTOML` of internal/webui/assets/static/js/conn-form.js can throw.
use termcp.Base.{
  ℕ, ◌+◌, Bool, true, false, some, List, [], ◌∷◌, ◌≡◌, refl, inl, inr, arith, Text, All, is_some,
  text_eq, codes, Bool-cases,
}
use termcp.ConnForm.Toml.{Value, str, num, flag}
use termcp.ConnForm.Cards.{JumpCard, truthy}
use termcp.ConnForm.Form.{
  ConnForm, toml_val_of, uses_key, credential_line, optional_line, jump_to_lines, chain_lines,
  conn_form_to_toml,
}

abbrev pub is_str : Value → Bool
is_str (str s) = true
is_str (num n) = false
is_str (flag b) = false

-- A card whose settings, save the port, are strings.
pub record IsTyped (c : JumpCard) : Type 0 where
  pub host : is_str c.host ≡ true
  pub user : is_str c.user ≡ true
  pub password : is_str c.password ≡ true
  pub pem : is_str c.pem ≡ true
  pub passphrase : is_str c.passphrase ≡ true
  pub proxy : is_str c.proxy ≡ true

toml_val_of-defined : (v : Value) → is_str v ≡ true → (s : Text) × (toml_val_of v ≡ some s)
unfolding toml_val_of
toml_val_of-defined (str s) h = (_, refl)
toml_val_of-defined (num n) h = absurd (ground arith)
toml_val_of-defined (flag b) h = absurd (ground arith)

optional_line-defined :
    (key : Text) (v : Value) → is_str v ≡ true → (ls : List Text) × (optional_line key v ≡ some ls)
unfolding optional_line
optional_line-defined key v h = elim (Bool-cases (truthy v)) [
  | inl e ↦ let d = toml_val_of-defined v h in rw (e, d.1) (_, refl)
  | inr e ↦ rw e (_, refl)
]

str_of : (v : Value) → is_str v ≡ true → (s : Text) × (v ≡ str s)
str_of (str s) h = (s, refl)
str_of (num n) h = absurd (ground arith)
str_of (flag b) h = absurd (ground arith)

uses_key-defined : (c : JumpCard) → is_str c.pem ≡ true → (b : Bool) × (uses_key c ≡ some b)
unfolding uses_key
uses_key-defined c h = elim (Bool-cases (text_eq c.auth (codes "key"))) [
  | inl e ↦ rw e (true, refl)
  | inr e ↦ let p = str_of c.pem h in rw (e, p.1) (_, refl)
]

credential_line-defined :
    (c : JumpCard) → IsTyped c → (line : Text) × (credential_line c ≡ some line)
unfolding credential_line
credential_line-defined c t =
    let k = uses_key-defined c t.pem in
    let w = toml_val_of-defined c.password t.password in
    elim (Bool-cases k.0) [ inl e ↦ rw (k.1, e) (_, refl) | inr e ↦ rw (k.1, e, w.1) (_, refl) ]

jump_to_lines-defined :
    (c : JumpCard) (depth : ℕ) → IsTyped c → (ls : List Text) × (jump_to_lines c depth ≡ some ls)
unfolding jump_to_lines
jump_to_lines-defined c depth t =
    rw
      (
        (toml_val_of-defined c.host t.host).1,
        (toml_val_of-defined c.user t.user).1,
        (credential_line-defined c t).1,
        (optional_line-defined (codes "key_passphrase") c.passphrase t.passphrase).1,
        (optional_line-defined (codes "proxy") c.proxy t.proxy).1,
      )
      (_, refl)

chain_lines-defined :
    (depth : ℕ) (cs : List JumpCard)
    → All IsTyped cs
    → (ls : List Text) × (chain_lines depth cs ≡ some ls)
unfolding chain_lines
chain_lines-defined depth [] t = ([], refl)
chain_lines-defined depth (c ∷ cs) (t, ts) =
    let first = jump_to_lines-defined c depth t in
    let rest = chain_lines-defined (depth + 1) cs ts in rw (first.1, rest.1) (_, refl)

-- When the settings of each jump are strings, the form can be turned to TOML: the code does not
-- throw, for a remote profile and for the internal one.
pub conn_form_to_toml-defined :
    (is_internal : Bool) (f : ConnForm)
    → All IsTyped f.jumps.cards
    → is_some (conn_form_to_toml is_internal f) ≡ true
unfolding conn_form_to_toml
conn_form_to_toml-defined is_internal f t = rw (chain_lines-defined 1 f.jumps.cards t).1 refl
