-- ===== src/ConnForm/Cards.antt =====
-- The cards of the jump chain and the one that is expanded: `jumpCards`, `jumpEditingIdx`,
-- `jumpEditingNew` and the event handlers of the jump box in
-- internal/webui/assets/static/js/conn-form.js. A click names the index that the card had when it
-- was rendered; an import names the index that its card had when the profile was asked for.
pub mod Editing
pub mod Chain
use termcp.Base.{
  ℕ, zero, suc, ◌+◌, ◌-◌, Bool, true, false, ◌&&◌, Option, none, some, List, [], ◌∷◌, ◌++◌, Text,
  Dict, codes, lookup, ℤ, pos, negsuc, is_empty, length, ltb, leb, ◌==◌, if◌then◌else◌,
}
use termcp.ConnForm.Toml.{Value, str, num, flag, Doc, section_of}

pub record JumpCard : Type 0 where
  pub host : Value
  pub port : Value
  pub user : Value
  pub auth : Text
  pub password : Value
  pub pem : Value
  pub passphrase : Value
  pub proxy : Value

unfoldable pub truthy : Value → Bool
truthy (str s) = if is_empty s then false else true
truthy (num n) = elim n [ pos k ↦ (if k == 0 then false else true) | negsuc k ↦ true ]
truthy (flag b) = b

-- `o[key] || d`.
unfoldable pub get_or : Text → Value → Dict Value → Value
unfolding truthy
get_or key d m = elim (lookup key m) [ none ↦ d | some v ↦ if truthy v then v else d ]

abbrev pub empty_value : Value
empty_value = str []

abbrev pub has_key : Dict Value → Bool
has_key m = truthy (get_or (codes "private_key") empty_value m)

unfoldable pub new_jump_card : JumpCard
new_jump_card = record {
  host = empty_value;
  port = num (pos 22);
  user = empty_value;
  auth = codes "password";
  password = empty_value;
  pem = empty_value;
  passphrase = empty_value;
  proxy = empty_value;
}

unfoldable pub section_to_jump : Dict Value → JumpCard
unfolding get_or
section_to_jump s = record {
  host = get_or (codes "host") empty_value s;
  port = get_or (codes "port") (num (pos 22)) s;
  user = get_or (codes "user") empty_value s;
  auth = if has_key s then codes "key" else codes "password";
  password = get_or (codes "password") empty_value s;
  pem = get_or (codes "private_key") empty_value s;
  passphrase = get_or (codes "key_passphrase") empty_value s;
  proxy = get_or (codes "proxy") empty_value s;
}

abbrev pub names_length : Dict (Dict Value) → ℕ
names_length [] = 0
names_length ((name, s) ∷ m) = length name + names_length m

-- `name` grows by `.jump` with each card, so it is soon longer than every section name.
unfoldable pub jumps_from : ℕ → Text → Dict (Dict Value) → List JumpCard
unfolding section_to_jump
jumps_from zero name sections = []
jumps_from (suc fuel) name sections =
    let rest = jumps_from fuel (name ++ codes ".jump") sections in
    elim (lookup name sections) [ none ↦ [] | some s ↦ section_to_jump s ∷ rest ]

unfoldable pub jumps_from_sections : Dict (Dict Value) → List JumpCard
unfolding jumps_from
jumps_from_sections sections = jumps_from (names_length sections + 1) (codes "jump") sections

pub data Field : Type 0 where
  host_field port_field user_field auth_field password_field pem_field : Field
  passphrase_field proxy_field : Field

abbrev pub set_card : Field → Text → JumpCard → JumpCard
set_card host_field v c = record c { host = str v }
set_card port_field v c = record c { port = str v }
set_card user_field v c = record c { user = str v }
set_card auth_field v c = record c { auth = v }
set_card password_field v c = record c { password = str v }
set_card pem_field v c = record c { pem = str v }
set_card passphrase_field v c = record c { passphrase = str v }
set_card proxy_field v c = record c { proxy = str v }

pub record Editor : Type 0 where
  pub cards : List JumpCard
  -- `jumpEditingIdx`; none is -1
  pub editing : Option ℕ
  pub editing_new : Bool

abbrev pub modify_at : ℕ → (JumpCard → JumpCard) → List JumpCard → List JumpCard
modify_at i f [] = []
modify_at zero f (c ∷ cs) = f c ∷ cs
modify_at (suc i) f (c ∷ cs) = c ∷ modify_at i f cs

-- `cards.splice(i, 1)`.
abbrev pub remove_at : ℕ → List JumpCard → List JumpCard
remove_at i [] = []
remove_at zero (c ∷ cs) = cs
remove_at (suc i) (c ∷ cs) = c ∷ remove_at i cs

-- `cards.slice(0, i)` and `cards.slice(i + 1)` around the new ones.
abbrev pub replace_at : ℕ → List JumpCard → List JumpCard → List JumpCard
replace_at i new [] = new
replace_at zero new (c ∷ cs) = new ++ cs
replace_at (suc i) new (c ∷ cs) = c ∷ replace_at i new cs

abbrev pub is_editing : ℕ → Editor → Bool
is_editing i e = elim e.editing [ none ↦ false | some j ↦ j == i ]

abbrev pub closed : Editor → Editor
closed e = record e { editing = none; editing_new = false }

unfoldable pub add_jump : Editor → Editor
unfolding new_jump_card
add_jump e = record {
  cards = e.cards ++ new_jump_card ∷ [];
  editing = some (length e.cards);
  editing_new = true;
}

unfoldable pub input_field : ℕ → Field → Text → Editor → Editor
input_field i f v e = record e { cards = modify_at i (set_card f v) e.cards }

unfoldable pub imported : ℕ → Doc → Editor → Editor
unfolding section_to_jump jumps_from_sections
imported i parsed e = record {
  cards = replace_at i (section_to_jump parsed.root ∷ jumps_from_sections parsed.sections) e.cards;
  editing = some i;
  editing_new = false;
}

-- The index of the expanded card after the card `i` is gone.
abbrev pub shift_after : ℕ → ℕ → ℕ
shift_after i j = if ltb i j then j - 1 else j

unfoldable pub remove_jump : ℕ → Editor → Editor
remove_jump i e =
    let cut = record e { cards = remove_at i e.cards } in
    elim e.editing [
      | none ↦ cut
      | some j ↦ if j == i then closed cut else record cut { editing = some (shift_after i j) }
    ]

unfoldable pub save_jump : Editor → Editor
save_jump e = closed e

unfoldable pub cancel_jump : ℕ → Editor → Editor
cancel_jump i e =
    if e.editing_new && is_editing i e
    then closed (record e { cards = remove_at i e.cards })
    else closed e

unfoldable pub open_jump : ℕ → Editor → Editor
open_jump i e = if is_editing i e then e else record e { editing = some i; editing_new = false }
