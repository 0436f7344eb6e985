-- ===== src/Layout/Tabs.antt =====
-- The bar with a tab for each window: `refreshSessionTabbar`, `sessionTabLabel` and `sessionTabNum`
-- of internal/webui/assets/static/js/shell-windows.js. The two words of the catalog are arguments.
pub mod Active
use termcp.Base.{
  ℕ, Bool, true, false, not, ◌&&◌, ◌||◌, Option, none, some, List, [], ◌∷◌, ◌++◌, Text, codes,
  or_text, is_empty, leb, ◌==◌, if◌then◌else◌,
}
use termcp.Util.Names.{strip_session_prefix}
use termcp.Window.{Win}
use termcp.Layout.{Page, fullscreen_z, contains_node}

-- `t('tab.connecting')` and `t('tab.session')`.
pub record Words : Type 0 where
  pub connecting_word : Text
  pub session_word : Text

abbrev pub short_sid : Text → Text
short_sid sid = if is_empty sid then [] else strip_session_prefix sid

unfoldable pub session_tab_label : Words → Win → Text
session_tab_label words w =
    if w.placeholder
    then or_text w.pending_conn_name words.connecting_word ++ codes "…"
    else if not (is_empty w.conn_name)
    then w.conn_name ++ codes " · " ++ short_sid w.sid
    else if is_empty w.sid
    then words.session_word
    else strip_session_prefix w.sid

-- A tab. `hovered` stands for what the browser keeps with the element.
pub record Tab : Type 0 where
  pub window : ℕ
  pub num : ℕ
  pub label : Text
  pub title : Text
  pub active : Bool
  pub aria_selected : Bool
  pub hovered : Bool

pub record Bar : Type 0 where
  pub hidden : Bool
  pub tabs : List Tab

-- The z value that a window is drawn with.
abbrev pub drawn_z : Win → ℕ
drawn_z w = elim w.z_index [ none ↦ fullscreen_z | some z ↦ z ]

-- The loop over the windows, with `topZ` and `topWin`.
unfoldable pub top_from : Option (ℕ × ℕ) → List Win → Option (ℕ × ℕ)
top_from top [] = top
top_from top (w ∷ ws) = if w.minimized then top_from top ws else elim top [
  | none ↦ top_from (some (drawn_z w, w.node)) ws
  | some (z, n) ↦ top_from (if leb z (drawn_z w) then some (drawn_z w, w.node) else some (z, n)) ws
]

abbrev pub second : Option (ℕ × ℕ) → Option ℕ
second none = none
second (some (z, n)) = some n

-- Panes are passed over in the floating layout; the container holds the windows that float.
unfoldable pub top_window : Page → Option ℕ
unfolding top_from
top_window p =
    if p.tile_mode
    then elim p.pane_active [
      | none ↦ none
      | some n ↦ if contains_node n p.panes then some n else none
    ]
    else second (top_from none p.floating)

unfoldable pub tab_of : ℕ → List Tab → Option Tab
tab_of n [] = none
tab_of n (t ∷ ts) = if t.window == n then some t else tab_of n ts

abbrev pub is_top : Option ℕ → ℕ → Bool
is_top none n = false
is_top (some m) n = n == m

-- The tab of a window, taken over from the bar if it is there.
unfoldable pub painted : Words → Option ℕ → List Tab → Win → Tab
unfolding session_tab_label tab_of
painted words top old w = record {
  window = w.node;
  num = w.node;
  label = session_tab_label words w;
  title = session_tab_label words w;
  active = is_top top w.node;
  aria_selected = is_top top w.node;
  hovered = elim (tab_of w.node old) [ none ↦ false | some t ↦ t.hovered ];
}

unfoldable pub paint_tabs : Words → Option ℕ → List Tab → List Win → List Tab
unfolding painted
paint_tabs words top old [] = []
paint_tabs words top old (w ∷ ws) = painted words top old w ∷ paint_tabs words top old ws

unfoldable pub refresh_session_tabbar : Words → Page → Bar → Bar
unfolding top_window paint_tabs
refresh_session_tabbar words p b = record {
  hidden = is_empty (p.floating ++ p.panes) && not p.tile_mode;
  tabs = paint_tabs words (top_window p) b.tabs (p.floating ++ p.panes);
}
