-- ===== src/Approval/Row.antt =====
-- The rows of the review panel: `keyLabel`, `approvalChipsHtml`, `kindLabelOf` and
-- `renderApprovalItem` of internal/webui/assets/static/js/approval.js. `tr` is the translation
-- function of i18n.js at the current language.
pub mod Markup
use termcp.Base.{
  ℕ, Bool, not, List, [], ◌∷◌, ◌++◌, Text, Dict, codes, text_eq, is_empty, keep_if, or_text, joined,
  Option, none, some, if◌then◌else◌,
}
use termcp.Util.Html.{escape_html}
use termcp.Approval.{Request, is_pending}

abbrev key_labels : List (Text × Text)
key_labels =
    (codes "ctrl+c", codes "Ctrl+C")
    ∷ (codes "enter", codes "Enter")
    ∷ (codes "tab", codes "Tab")
    ∷ (codes "esc", codes "Esc")
    ∷ (codes "up", codes "Up")
    ∷ (codes "down", codes "Down")
    ∷ (codes "left", codes "Left")
    ∷ (codes "right", codes "Right")
    ∷ (codes "backspace", codes "Bksp")
    ∷ (codes "delete", codes "Del")
    ∷ (codes "home", codes "Home")
    ∷ (codes "end", codes "End")
    ∷ (codes "ctrl+d", codes "Ctrl+D")
    ∷ (codes "ctrl+z", codes "Ctrl+Z")
    ∷ (codes "ctrl+l", codes "Ctrl+L")
    ∷ (codes "ctrl+u", codes "Ctrl+U")
    ∷ (codes "ctrl+w", codes "Ctrl+W")
    ∷ []

-- The first entry whose key is `k`, or what stands behind the table.
unfoldable pub pick : Text → List (Text × Text) → Text → Text
pick k [] otherwise = otherwise
pick k ((j, v) ∷ m) otherwise = if text_eq j k then v else pick k m otherwise

pub key_label : Text → Text
unfolding pick
key_label key = pick key key_labels key

chips : List Text → Text
chips [] = []
chips (k ∷ ks) = joined (
    codes "<span class=\"approval-chip\">"
    ∷ escape_html (key_label k)
    ∷ codes "</span>"
    ∷ chips ks
    ∷ [])

pub approval_chips_html : List Text → Text
approval_chips_html keys = chips (keep_if (λ k. not (text_eq k (codes "enter"))) keys)

-- The catalog key of each kind of operation; a command has none.
abbrev kind_keys : List (Text × Text)
kind_keys =
    (codes "file_write", codes "review.kind.fileWrite")
    ∷ (codes "file_delete", codes "review.kind.fileDelete")
    ∷ (codes "file_rename", codes "review.kind.fileRename")
    ∷ (codes "file_mkdir", codes "review.kind.fileMkdir")
    ∷ (codes "file_perm", codes "review.kind.filePerm")
    ∷ (codes "file_link", codes "review.kind.fileLink")
    ∷ (codes "file_truncate", codes "review.kind.fileTruncate")
    ∷ (codes "forward_open", codes "review.kind.forwardOpen")
    ∷ (codes "forward_close", codes "review.kind.forwardClose")
    ∷ []

row_kind : Text → Text
row_kind label =
    if is_empty label
    then []
    else joined (codes "<span class=\"approval-kind\">" ∷ escape_html label ∷ codes "</span>" ∷ [])

row_chips : Text → Text
row_chips keys_html =
    if is_empty keys_html
    then []
    else joined (codes "<div class=\"approval-chips\">" ∷ keys_html ∷ codes "</div>" ∷ [])

module _ (tr : Text → Text) where
  pub kind_label_of : Text → Text
  unfolding pick
  kind_label_of kind = let key = pick kind kind_keys [] in if is_empty key then [] else tr key

  row_body : Request → Text → Text
  row_body r label =
      if not (is_empty r.text)
      then joined
          (codes "<code class=\"approval-code\">" ∷ escape_html r.text ∷ codes "</code>" ∷ [])
      else if not (is_empty label)
      then joined (
          codes "<code class=\"approval-code approval-code-op\">"
          ∷ escape_html (or_text r.summary label)
          ∷ codes "</code>"
          ∷ [])
      else []

  row_actions : Request → Text
  row_actions r =
      if is_pending r
      then joined (
          codes "<div class=\"approval-actions\">"
          ∷ codes "<button type=\"button\" class=\"btn btn-primary\" data-approve=\""
          ∷ escape_html r.id
          ∷ codes "\">"
          ∷ escape_html (tr (codes "review.accept"))
          ∷ codes "</button>"
          ∷ codes "<button type=\"button\" class=\"btn btn-danger\" data-reject=\""
          ∷ escape_html r.id
          ∷ codes "\">"
          ∷ escape_html (tr (codes "review.reject"))
          ∷ codes "</button>"
          ∷ codes "</div>"
          ∷ [])
      else joined
          (codes "<div class=\"approval-state\">" ∷ escape_html r.state ∷ codes "</div>" ∷ [])

  row_head : Request → Text → Text
  row_head r label = joined (
      codes "<div class=\"approval-item-head\">"
      ∷ codes "<span class=\"approval-src\">"
      ∷ escape_html (or_text r.source (codes "?"))
      ∷ codes "</span>"
      ∷ row_kind label
      ∷ codes "<span class=\"approval-sid\">"
      ∷ escape_html r.shell_id
      ∷ codes "</span>"
      ∷ codes "</div>"
      ∷ [])

  row_main : Request → Text → Text
  row_main r label = joined (
      codes "<div class=\"approval-main\">"
      ∷ row_body r label
      ∷ row_chips (approval_chips_html r.keys)
      ∷ codes "</div>"
      ∷ [])

  pub render_approval_item : Request → Text
  render_approval_item r =
      let label = kind_label_of (or_text r.kind (codes "shell_input")) in
      joined (
        codes "<div class=\"approval-item"
        ∷ (if is_pending r then [] else codes " approval-item-done")
        ∷ codes "\">"
        ∷ row_head r label
        ∷ codes "<div class=\"approval-row\">"
        ∷ row_main r label
        ∷ row_actions r
        ∷ codes "</div>"
        ∷ codes "</div>"
        ∷ [])
