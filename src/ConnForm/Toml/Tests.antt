-- ===== src/ConnForm/Toml/Tests.antt =====
-- Runs of the reader of the TOML view.
use termcp.Base.{true, [], ◌∷◌, ◌≡◌, refl, codes, text_eq, insert, pos}
use termcp.ConnForm.Toml.{parse_conn_toml, str, num, flag}

run_plain :
    (parse_conn_toml (codes " host = \"a b\" \n# x\nport=22\non = true\n[ jump ]\n")).root
    ≡ (codes "host", str (codes "a b"))
      ∷ (codes "port", num (pos 22))
      ∷ (codes "on", flag true)
      ∷ []
unfolding parse_conn_toml text_eq insert
run_plain = refl
