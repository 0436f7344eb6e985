-- ===== src/ConnForm.antt =====
-- The connection editor: internal/webui/assets/static/js/conn-form.js. The escaping of a value, the
-- reader of the TOML view, what the form writes, and the cards of the jump chain.
pub mod Escape
pub mod Toml
pub mod Decimal
pub mod Cards
pub mod Form
