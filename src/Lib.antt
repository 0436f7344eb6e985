-- ===== src/Lib.antt =====
-- A model of the browser side of termcp, internal/webui/assets/static/js, and its theorems.
--
-- The page shows one window for each open session. A window has a tab for each shell of its session
-- and follows the list of shells that the server sends. One WebSocket carries the output of all
-- shells: the page subscribes to a shell with a watch, and a lost socket is opened again after a
-- growing delay. A review panel lists the operations that wait for a decision, and the connection
-- editor turns a form to TOML and back.
--
-- Base: shared names, texts, maps, integers and the lemmas on them.
-- Util: the functions of util.js that need no page. Util.CommandLine is splitCommandLine, Util.Html
--   is escapeHtml, Util.Names is displaySessionShort, stripSessionPrefix and the resource URLs,
--   Util.Backoff is sseBackoffNext.
-- Window: the state of one window. Window.Outbox is what the page sends (wsUiSend,
--   sendTerminalWatch, queueTerminalWatch, flushPendingTerminalWatches of ui-socket.js),
--   Window.Channels is createChannelTab, switchChannelTab, closeChannelTab and _channelNeighbor of
--   terminal-view.js with lockWindowReadonly and showTerminalEndedMarker of sessions.js and the
--   terminal_done frame of ui-socket.js, Window.Sync is syncWindowTabs of sessions.js, and
--   Window.Life puts them together as events of one window.
-- Layout: the windows of the page and their modes, shell-windows.js with bringShellWindowToFront of
--   util.js. Layout itself is tileWindow, untileWindow, setActivePane, applyPaneGrid and
--   setLayoutMode, Layout.Actions is the buttons, Escape and the change of the viewport, Layout.Life
--   the sequences of these events. Windows are named by their nodes.
-- Sessions: applySessionsSnapshot, pruneDeadSessionUIState and releaseSessionUIState of sessions.js
--   with closeShellWindow of ui-socket.js.
-- History: bootstrapShellFullHistory of ui-socket.js, with the server's answers as a parameter. Its
--   loop runs on fuel, and one step more than there are kept bytes is enough.
-- Launch: what opens, focuses and closes windows. Launch itself is the state and the mounting of a
--   window, Launch.Focus and Launch.Opening are focusSessionWindow of shell-windows.js and
--   openShellWindow of terminal-view.js, Launch.Shells is the answer to the list of shells with
--   createChannel, Launch.Starting is startSessionAndOpenShell and finalizePendingShellWindow, with
--   the answers of the server as arguments, and Launch.Life puts them together as events.
-- Layout.Tabs: refreshSessionTabbar of shell-windows.js; a tab's click is Launch's
--   focusSessionWindow.
-- Layout.Resize: setupShellWindowDrag and setupShellWindowResize of ui-socket.js.
-- Notify: showUiNotify, dismissUiNotify and the highlights of util.js with onApprovalEvent of
--   approval.js.
-- Sessions.Grid: renderSessionGrid, updateSessionBatchBar and the session toolbar of conn-form.js:
--   the selection, and the deletion of several sessions one after the other.
-- Approval.Panel: the review panel of a window, from approval.js and terminal-view.js, with the
--   requests that wait for an answer.
-- Forward: forward-modal.js, the form that opens a port forward.
-- Socket: connectUIWebSocket, startUIWebSocket, the handlers of the socket and
--   resubscribeAllTerminalWatches of ui-socket.js. Socket.Incoming is the dispatch of the frames that
--   come in.
-- Approval: keepApprovalCounts, applyApprovalCounts, clearApprovalCount, the filter of
--   loadReviewQueue and the rows of the panel, of approval.js.
-- ConnForm: conn-form.js. ConnForm.Escape is _tomlEscape and _tomlVal, ConnForm.Toml is
--   _parseConnTOML, ConnForm.Cards is _sectionToJump, _jumpsFromSections and the events of the jump
--   box, ConnForm.Form is _jumpToLines, _connFormToTOML and _connTOMLToForm.
-- I18n: i18n.js. I18n itself is the choice of a language, t, tCount and i18nInterpolate, I18n.Screen
--   is applyI18n, syncLangChoice, termcpApplyLang and the language menu; the catalog is a parameter.
-- Examples: every theorem at a concrete input.
--
-- A string is the list of its UTF-16 code units. A JavaScript object that serves as a map is an
-- association list, oldest key first; that integer-like keys come first and that Object.prototype
-- has names of its own is not modelled. A function that changes the page takes the state and returns
-- the new one; where it also sends, the state is a pair of the outbox and the window. An exception
-- is none. Loops are structural recursion; the names `jump.jump...` that _jumpsFromSections tries are
-- bounded by the length of all section names, and the decimal digits of a number by the number.
--
-- Not modelled: the server (Go), the vendored terminal emulator, and of the page the painting, focus
-- and animation frames, the texts of the catalog, the fitting of terminals to windows, the panels that
-- list files, forwards and notification rules, and the plumbing of the dialogs.
pub mod Base
pub mod Util
pub mod Window
pub mod Approval
pub mod Socket
pub mod ConnForm
pub mod Examples
pub mod Layout
pub mod Sessions
pub mod History
pub mod I18n
pub mod Launch
pub mod Notify
pub mod Forward
