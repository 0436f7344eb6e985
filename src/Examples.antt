-- ===== src/Examples.antt =====
-- The theorems at concrete windows, links, forms and texts.
mod Windows
mod Links
mod Forms
mod Texts
mod Pages
mod Lists
mod Output
mod Language
mod Launches
mod Notices
mod Frames
mod Grids
mod Forwards
mod Reviews
