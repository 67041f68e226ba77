-- ===== src/Examples.antt =====
-- Runs of the program on concrete inputs.
pub mod Data
mod Codecs
mod Network
mod Page
mod Links
mod Replies
mod Shares
mod Forms
mod Shown
mod Backend
mod Publications
mod Recipients
