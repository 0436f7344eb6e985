-- ===== src/Util/Names.antt =====
-- The names and resource URLs of internal/webui/assets/static/js/util.js.
use termcp.Base.{
  none, some, [], ◌∷◌, ◌++◌, ◌≡◌, ◌≢◌, refl, sym, ap, subst, ◌∙◌, inl, inr, Option-cases, arith,
  Text, codes, trim, trim_start, strip_prefix, or_text,
}
use mathlib.Core.List.{reverse, reverse-append, reverse-reverse}

abbrev pub session_prefix : Text
session_prefix = codes "session-"

-- What the functions read of a session; a missing field is the empty text.
pub record SessionRef : Type 0 where
  pub id : Text
  pub name : Text

-- The work on a trimmed text.
drop_session_prefix : Text → Text
drop_session_prefix s = elim (strip_prefix session_prefix s) [
  | some rest ↦ or_text rest s
  | none ↦ s
]

unfoldable pub strip_session_prefix : Text → Text
unfolding drop_session_prefix
strip_session_prefix str = drop_session_prefix (trim str)

-- The dash that stands for a session with neither a name nor an id.
abbrev pub no_name : Text
no_name = 0x2014 ∷ []

unfoldable pub display_session_short : SessionRef → Text
display_session_short s =
    let id = trim s.id in
    let name = trim s.name in
    elim (strip_prefix session_prefix name) [
      | some rest ↦ or_text rest (or_text id name)
      | none ↦ or_text id (or_text name no_name)
    ]

abbrev pub termcp_scheme : Text
termcp_scheme = codes "termcp://"

pub resource_url_entry : Text → Text
resource_url_entry name = termcp_scheme ++ name

pub resource_url_session : Text → Text
resource_url_session sid = termcp_scheme ++ (b'#' ∷ strip_session_prefix sid)

-- The index is printed by the host language; it comes here as text.
pub resource_url_shell : Text → Text → Text
resource_url_shell sid index = resource_url_session sid ++ (b':' ∷ index)

or_text-ne-nil : (a b : Text) → b ≢ [] → or_text a b ≢ []
or_text-ne-nil [] b h = h
or_text-ne-nil (c ∷ a) b h = λ e. cc

strip_prefix-ne-nil : (s rest : Text) → strip_prefix session_prefix s ≡ some rest → s ≢ []
strip_prefix-ne-nil [] rest e = cc
strip_prefix-ne-nil (c ∷ s) rest e = λ h. cc

-- Every session has a label.
pub display_session_short-ne-nil : (s : SessionRef) → display_session_short s ≢ []
unfolding display_session_short
display_session_short-ne-nil s = elim (Option-cases (strip_prefix session_prefix (trim s.name))) [
  | inl e ↦
      rw (e, display_session_short)
        (or_text-ne-nil (trim s.id) _ (or_text-ne-nil (trim s.name) no_name (λ h. cc)))
  | inr (rest, e) ↦
      rw (e, display_session_short)
        (or_text-ne-nil rest _
          (or_text-ne-nil (trim s.id) _ (strip_prefix-ne-nil (trim s.name) rest e)))
]

trim_start-append : (s t : Text) → trim_start s ≢ [] → trim_start (s ++ t) ≡ trim_start s ++ t
trim_start-append [] t h = absurd (h refl)
trim_start-append (c ∷ s) t h = ground (arith, trim_start-append s t)

-- No blank stands at the end.
abbrev pub EndsBare : Text → Type 0
EndsBare s = trim_start (reverse s) ≡ reverse s

reverse-ne-nil : (s : Text) → s ≢ [] → reverse s ≢ []
reverse-ne-nil s h e = h (sym (reverse-reverse s) ∙ ap reverse e)

trim-prefixed :
    (sid : Text) → sid ≢ [] → EndsBare sid → trim (session_prefix ++ sid) ≡ session_prefix ++ sid
unfolding trim
trim-prefixed sid h bare =
    let tail : reverse sid ≢ [] = reverse-ne-nil sid h in
    let p : Text = session_prefix in
    ap (λ (x : Text). reverse (trim_start x)) (reverse-append p sid)
    ∙ ap reverse (trim_start-append (reverse sid) (reverse p) (subst (λ x. x ≢ []) (sym bare) tail))
    ∙ ap (λ (x : Text). reverse (x ++ reverse p)) bare
    ∙ ap reverse (sym (reverse-append p sid))
    ∙ reverse-reverse (p ++ sid)

drop_session_prefix-prefixed :
    (sid : Text) → sid ≢ [] → drop_session_prefix (session_prefix ++ sid) ≡ sid
unfolding drop_session_prefix
drop_session_prefix-prefixed [] h = absurd (h refl)
drop_session_prefix-prefixed (c ∷ sid) h = refl

-- The short form of a prefixed id is what follows the prefix.
pub strip_session_prefix-prefixed :
    (sid : Text) → sid ≢ [] → EndsBare sid → strip_session_prefix (session_prefix ++ sid) ≡ sid
unfolding strip_session_prefix
strip_session_prefix-prefixed sid h bare =
    ap drop_session_prefix (trim-prefixed sid h bare) ∙ drop_session_prefix-prefixed sid h

strip_session_prefix-plain :
    (sid : Text)
    → trim sid ≡ sid
    → strip_prefix session_prefix sid ≡ none
    → strip_session_prefix sid ≡ sid
unfolding strip_session_prefix
strip_session_prefix-plain sid trimmed plain =
    ap drop_session_prefix trimmed ∙ rw (plain, drop_session_prefix) refl

-- A session has one URL, whether its id is written with or without the prefix, unless the short
-- id itself begins with the prefix.
pub resource_url_session-prefixed :
    (sid : Text)
    → sid ≢ []
    → EndsBare sid
    → trim sid ≡ sid
    → strip_prefix session_prefix sid ≡ none
    → resource_url_session (session_prefix ++ sid) ≡ resource_url_session sid
unfolding resource_url_session
resource_url_session-prefixed sid h bare trimmed plain =
    ap (λ (x : Text). termcp_scheme ++ (b'#' ∷ x))
      (strip_session_prefix-prefixed sid h bare
        ∙ sym (strip_session_prefix-plain sid trimmed plain))
