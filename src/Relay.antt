-- ===== src/Relay.antt =====
-- pkg/media/media.go, the relay that anchors media.
pub mod Sockets
pub mod Allocation
pub mod Stream
pub mod Analyzer
pub mod Forwarding
pub mod Anchor
pub mod Manager
pub mod Places
pub mod Latching
pub mod Sweeping
pub mod Announcing
pub mod Adding
pub mod Anchored
pub mod Offering
