-- ===== src/Sdp.antt =====
-- pkg/sdp/sdp.go: session descriptions, their parser and their printer.
pub mod Data
pub mod Parser
pub mod Printer
pub mod Lines
pub mod Medias
pub mod MediaLines
pub mod RoundTrip
