-- ===== src/Audio.antt =====
-- Recorded and played audio: pkg/media/wav.go, and the package pkg/play.
pub mod Codec
pub mod Writer
pub mod Reader
pub mod Player
pub mod Sending
pub mod Truncated
pub mod Plays
pub mod Calls
pub mod Registered
pub mod Answer
pub mod Answers
pub mod Samples
pub mod Chunks
pub mod Recording
pub mod RoundTrip
