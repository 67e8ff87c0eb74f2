-- ===== src/Media.antt =====
-- The media plane of pkg/media, of which the analyzer of received RTP is modelled.
pub mod Dtmf
pub mod Qos
pub mod Losses
pub mod Events
