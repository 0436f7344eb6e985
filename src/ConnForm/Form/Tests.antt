-- ===== src/ConnForm/Form/Tests.antt =====
-- Runs of `_connFormToTOML`.
use termcp.Base.{
  true, false, none, some, [], ◌∷◌, ◌≡◌, refl, codes, text_eq, trim, insert, lookup, pos,
}
use termcp.ConnForm.Toml.{str, num}
use termcp.ConnForm.Cards.{JumpCard}
use termcp.ConnForm.Form.{ConnForm, conn_form_to_toml, conn_toml_to_form}

abbrev hop : JumpCard
hop = record {
  host = str (codes "j");
  port = num (pos 2222);
  user = str (codes "u");
  auth = codes "password";
  password = str (codes "p");
  pem = str [];
  passphrase = str [];
  proxy = str (codes "x");
}

abbrev form : ConnForm
form = record {
  host = codes " h ";
  port = codes "23";
  user = codes "me";
  auth = codes "key";
  password = [];
  pem = codes "K";
  passphrase = [];
  shell = [];
  approval = true;
  proxy = [];
  jumps = record { cards = hop ∷ []; editing = none; editing_new = false };
}

run_remote :
    conn_form_to_toml false form
    ≡ some (
        codes
          "kind = \"remote\"\nhost = \"h\"\nport = 23\nuser = \"me\"\nprivate_key = \"\"\"\nK\n\"\"\"\ndefault_approval = true\ntrust_unknown_host = true\n[jump]\nhost = \"j\"\nport = 2222\nuser = \"u\"\npassword = \"p\"\nproxy = \"x\"\n")
unfolding conn_form_to_toml text_eq trim
run_remote = refl

run_internal :
    conn_form_to_toml true
      (record form { jumps = record { cards = []; editing = none; editing_new = false } })
    ≡ some (codes "kind = \"internal\"\ndefault_approval = true\ntrust_unknown_host = true\n")
unfolding conn_form_to_toml text_eq trim
run_internal = refl

run_back :
    (conn_toml_to_form
      (codes "port = 23\nprivate_key = \"\"\"\nK\n\"\"\"\n[jump]\nhost = 'j'\n")).pem
    ≡ codes "K"
unfolding conn_toml_to_form text_eq trim insert lookup
run_back = refl
