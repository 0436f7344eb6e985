-- ===== src/Util.antt =====
-- internal/webui/assets/static/js/util.js: the pure helpers of the web interface.
pub mod CommandLine
pub mod Html
pub mod Names
pub mod Backoff
