-- ===== src/Examples/Forms.antt =====
-- A jump chain and values with quotes and backslashes, and what the theorems say of them.
use termcp.Base.{
  ◌+◌, true, false, some, [], ◌∷◌, Text, ◌≡◌, ◌≢◌, ℕ, ◌↔◌, refl, arith, codes, is_some,
}
use termcp.ConnForm.Escape.{toml_val, doubled, HasNoBackslash}
use termcp.ConnForm.Toml.{Value, str, num, empty_doc, between, read_line, put}
use termcp.ConnForm.Toml.Document.{
  Setting, IsSetting, setting_line, put_all, parse_conn_toml-settings, read_back,
  parse_conn_toml-survives,
}
use termcp.ConnForm.Form.{join_lines}
use termcp.Base.{map}
use termcp.ConnForm.Toml.{parse_conn_toml}
use termcp.ConnForm.Toml.Lines.{IsKey, pair_line, read_line-quoted}
use termcp.ConnForm.Cards.{
  JumpCard, Editor, jumps_from, jumps_from_sections, names_length, host_field,
}
use termcp.ConnForm.Cards.Editing.{
  act, removes, IsOpen, act-IsOpen, cancel_jump-keeps_input, called_off, Reads, nth,
}
use termcp.ConnForm.Cards.Chain.{jumps_from_sections-enough}
use termcp.ConnForm.Form.{ConnForm, conn_form_to_toml}
use termcp.ConnForm.Form.Defined.{IsTyped, conn_form_to_toml-defined}
use termcp.Base.{pos, Dict}

-- The text `a"b\c`.
abbrev mixed : Text
mixed = codes "a\"b\\c"

user-IsKey : IsKey (codes "user")
user-IsKey = (λ e. cc, (refl, (refl, (refl, (refl, tt)))))

read_line-quoted_example :
    read_line between (pair_line (codes "user") (toml_val mixed)) empty_doc
    ≡ (between, put (codes "user") (str (doubled mixed)) empty_doc)
read_line-quoted_example = read_line-quoted (codes "user") mixed empty_doc user-IsKey refl

parse_conn_toml-survives_example :
    (read_back (codes "user") mixed ≡ some (str mixed)) ↔ HasNoBackslash mixed
parse_conn_toml-survives_example = parse_conn_toml-survives (codes "user") mixed user-IsKey refl

abbrev card : Text → JumpCard
card h = record {
  host = str h;
  port = num (pos 22);
  user = str (codes "u");
  auth = codes "password";
  password = str [];
  pem = str [];
  passphrase = str [];
  proxy = str [];
}

abbrev hops : Editor
hops = record {
  cards = card (codes "one") ∷ card (codes "two") ∷ [];
  editing = some 1;
  editing_new = false;
}

act-IsOpen_example : IsOpen (act (removes 0) hops)
act-IsOpen_example = act-IsOpen (removes 0) hops (omega arith) (omega arith)

cancel_jump-keeps_input_example :
    ((d : JumpCard) × (nth 0 (called_off 0 host_field (codes "x") hops) ≡ some d)
      × Reads host_field (codes "x") d)
    × ((j : ℕ) → j ≢ 0 → nth j (called_off 0 host_field (codes "x") hops) ≡ nth j hops.cards)
cancel_jump-keeps_input_example =
    cancel_jump-keeps_input 0 host_field (codes "x") hops (card (codes "one")) refl refl

abbrev jump_section : Dict (Dict Value)
jump_section = (codes "jump", (codes "host", str (codes "h")) ∷ []) ∷ []

jumps_from_sections-enough_example :
    jumps_from (7 + (names_length jump_section + 1)) (codes "jump") jump_section
    ≡ jumps_from_sections jump_section
jumps_from_sections-enough_example = jumps_from_sections-enough 7 jump_section

abbrev form : ConnForm
form = record {
  host = codes "h";
  port = codes "2222";
  user = codes "u";
  auth = codes "password";
  password = codes "p";
  pem = [];
  passphrase = [];
  shell = [];
  approval = true;
  proxy = [];
  jumps = hops;
}

card-IsTyped : (h : Text) → IsTyped (card h)
card-IsTyped h = record {
  host = refl;
  user = refl;
  password = refl;
  pem = refl;
  passphrase = refl;
  proxy = refl;
}

conn_form_to_toml-defined_example : is_some (conn_form_to_toml false form) ≡ true
conn_form_to_toml-defined_example =
    conn_form_to_toml-defined false form
      (card-IsTyped (codes "one"), (card-IsTyped (codes "two"), tt))

abbrev user_setting : Setting
user_setting = (codes "user", mixed)

user_setting-IsSetting : IsSetting user_setting
user_setting-IsSetting = (user-IsKey, refl)

parse_conn_toml-settings_example :
    parse_conn_toml (join_lines (map setting_line (user_setting ∷ user_setting ∷ [])))
    ≡ put_all (user_setting ∷ user_setting ∷ []) empty_doc
parse_conn_toml-settings_example =
    parse_conn_toml-settings user_setting (user_setting ∷ [])
      (user_setting-IsSetting, (user_setting-IsSetting, tt))
