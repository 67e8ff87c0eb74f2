-- ===== src/Dialog.antt =====
-- pkg/dialog/dialog.go: the dialogs that the script asked to follow.
pub mod State
pub mod Manager
pub mod Endings
pub mod Steps
pub mod Invariant
pub mod Finish
pub mod SetUps
pub mod Ended
pub mod Byes
pub mod Matching
