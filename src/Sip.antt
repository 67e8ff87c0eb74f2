-- ===== src/Sip.antt =====
-- pkg/sip: the SIP message and its parts.
pub mod Headers
pub mod Uri
pub mod Via
pub mod Address
pub mod Message
