-- ===== src/ConnForm/Form.antt =====
-- The form of a connection and its TOML text: `_connFormToTOML`, `_jumpToLines` and
-- `_connTOMLToForm` of internal/webui/assets/static/js/conn-form.js. A field of the form is the
-- string its element holds; the browser's own clean-up of an assigned value is not modelled. None is
-- the exception of a string method called on a number or a Boolean.
pub mod Defined
mod Tests
use termcp.Base.{
  ℕ, zero, suc, ◌+◌, Bool, true, false, ◌&&◌, not, Option, none, some, List, [], ◌∷◌, ◌++◌, Text,
  Dict, codes, joined, lookup, ℤ, pos, negsuc, is_empty, is_some, trim, text_eq, ◌==◌,
  if◌then◌else◌,
}
use termcp.ConnForm.Escape.{toml_val}
use termcp.ConnForm.Toml.{Value, str, num, flag, Doc, parse_conn_toml}
use termcp.ConnForm.Decimal.{show_int, parse_int}
use termcp.ConnForm.Cards.{
  JumpCard, Editor, truthy, get_or, has_key, jumps_from_sections, empty_value,
}

infixl 5 ◌>>=◌
abbrev ◌>>=◌ : {A B : Type 0} → Option A → (A → Option B) → Option B
none >>= f = none
some a >>= f = f a

pub record ConnForm : Type 0 where
  pub host : Text
  pub port : Text
  pub user : Text
  pub auth : Text
  pub password : Text
  pub pem : Text
  pub passphrase : Text
  pub shell : Text
  pub approval : Bool
  pub proxy : Text
  pub jumps : Editor

-- `String(v)`.
unfoldable pub text_of : Value → Text
unfolding show_int
text_of (str s) = s
text_of (num n) = show_int n
text_of (flag b) = if b then codes "true" else codes "false"

unfoldable pub toml_val_of : Value → Option Text
unfolding toml_val truthy
toml_val_of (str s) = some (toml_val s)
toml_val_of (num n) = if truthy (num n) then none else some (toml_val [])
toml_val_of (flag b) = if b then none else some (toml_val [])

abbrev nonzero : ℤ → ℤ
nonzero n = elim n [ pos k ↦ (if k == 0 then pos 22 else pos k) | negsuc k ↦ negsuc k ]

-- `parseInt(s, 10) || 22`.
unfoldable pub port_number : Text → ℤ
unfolding parse_int
port_number s = elim (parse_int s) [ none ↦ pos 22 | some n ↦ nonzero n ]

abbrev is_22 : ℤ → Bool
is_22 n = elim n [ pos k ↦ k == 22 | negsuc k ↦ false ]

unfoldable pub port_lines : Text → List Text
unfolding port_number show_int
port_lines s = let p = port_number s in if is_22 p then [] else (codes "port = " ++ show_int p) ∷ []

unfoldable pub key_block : Text → Text
unfolding joined
key_block pem = joined (codes "private_key = \"\"\"\n" ∷ pem ∷ codes "\n\"\"\"" ∷ [])

-- `c.auth === 'key' || (c.pem && c.pem.trim())`.
unfoldable pub uses_key : JumpCard → Option Bool
unfolding trim truthy text_eq
uses_key c = if text_eq c.auth (codes "key") then some true else elim c.pem [
  | str s ↦ some (not (is_empty (trim s)))
  | num n ↦ if truthy (num n) then none else some false
  | flag b ↦ if b then none else some false
]

-- `key = value`.
abbrev pub assign : Text → Text → Text
assign key v = key ++ codes " = " ++ v

abbrev quoted_line : Text → Value → Option Text
unfolding toml_val_of
quoted_line key v = do w ← toml_val_of v; some (assign key w)

unfoldable pub optional_line : Text → Value → Option (List Text)
unfolding toml_val_of truthy
optional_line key v = if truthy v then (do line ← quoted_line key v; some (line ∷ [])) else some []

unfoldable pub section_name : ℕ → Text
section_name zero = []
section_name (suc n) = elim n [ zero ↦ codes "jump" | suc m ↦ section_name n ++ codes ".jump" ]

unfoldable pub credential_line : JumpCard → Option Text
unfolding uses_key key_block text_of toml_val_of
credential_line c = do
  key ← uses_key c
  if key then some (key_block (text_of c.pem)) else quoted_line (codes "password") c.password

unfoldable pub jump_to_lines : JumpCard → ℕ → Option (List Text)
unfolding section_name credential_line optional_line port_lines toml_val_of text_of
jump_to_lines c depth = do
  host ← quoted_line (codes "host") c.host
  user ← quoted_line (codes "user") c.user
  credential ← credential_line c
  passphrase ← optional_line (codes "key_passphrase") c.passphrase
  proxy ← optional_line (codes "proxy") c.proxy
  some (
      (b'[' ∷ section_name depth ++ b']' ∷ []) ∷ host ∷ port_lines (text_of c.port)
      ++ user ∷ credential ∷ passphrase
      ++ proxy)

unfoldable pub chain_lines : ℕ → List JumpCard → Option (List Text)
unfolding jump_to_lines
chain_lines depth [] = some []
chain_lines depth (c ∷ cs) = do
  first ← jump_to_lines c depth
  rest ← chain_lines (depth + 1) cs
  some (first ++ rest)

unfoldable pub line_if : Bool → Text → List Text
line_if b line = if b then line ∷ [] else []

-- The lines of a remote profile that the loopback profile leaves out.
unfoldable pub remote_lines : ConnForm → List Text
unfolding trim port_lines toml_val key_block line_if text_eq
remote_lines f =
    assign (codes "host") (toml_val (trim f.host)) ∷ port_lines f.port
    ++ assign (codes "user") (toml_val (trim f.user))
      ∷ (if text_eq f.auth (codes "password")
          then assign (codes "password") (toml_val f.password)
          else key_block f.pem)
      ∷ line_if (not (is_empty f.passphrase))
          (assign (codes "key_passphrase") (toml_val f.passphrase))

unfoldable pub root_lines : Bool → ConnForm → List Text
unfolding remote_lines line_if trim toml_val
root_lines is_internal f =
    (if is_internal then codes "kind = \"internal\"" else codes "kind = \"remote\"")
      ∷ (if is_internal then [] else remote_lines f)
    ++ line_if (not (is_empty (trim f.shell)))
        (assign (codes "default_shell") (toml_val (trim f.shell)))
    ++ line_if f.approval (codes "default_approval = true")
    ++ (if is_internal
        then []
        else line_if (not (is_empty (trim f.proxy)))
            (assign (codes "proxy") (toml_val (trim f.proxy))))
    ++ codes "trust_unknown_host = true" ∷ []

-- `lines.join('\n') + '\n'`.
unfoldable pub join_lines : List Text → Text
join_lines [] = b'\n' ∷ []
join_lines (l ∷ ls) = elim ls [ [] ↦ l ++ b'\n' ∷ [] | m ∷ ms ↦ l ++ b'\n' ∷ join_lines ls ]

unfoldable pub conn_form_to_toml : Bool → ConnForm → Option Text
unfolding root_lines chain_lines join_lines
conn_form_to_toml is_internal f = do
  chain ← chain_lines 1 f.jumps.cards
  some (join_lines (root_lines is_internal f ++ chain))

abbrev is_true : Value → Bool
is_true v = elim v [ flag b ↦ b | _ ↦ false ]

abbrev approval_of : Dict Value → Bool
approval_of m = elim (lookup (codes "default_approval") m) [ none ↦ false | some v ↦ is_true v ]

unfoldable pub conn_toml_to_form : Text → ConnForm
unfolding parse_conn_toml get_or text_of jumps_from_sections truthy
conn_toml_to_form toml =
    let parsed = parse_conn_toml toml in
    let o = parsed.root in
    record {
      host = text_of (get_or (codes "host") empty_value o);
      port = text_of (get_or (codes "port") (num (pos 22)) o);
      user = text_of (get_or (codes "user") empty_value o);
      auth = if has_key o then codes "key" else codes "password";
      password = text_of (get_or (codes "password") empty_value o);
      pem = text_of (get_or (codes "private_key") empty_value o);
      passphrase = text_of (get_or (codes "key_passphrase") empty_value o);
      shell = text_of (get_or (codes "default_shell") empty_value o);
      approval = approval_of o;
      proxy = text_of (get_or (codes "proxy") empty_value o);
      jumps = record {
        cards = jumps_from_sections parsed.sections;
        editing = none;
        editing_new = false;
      };
    }
