-- ===== src/Transport.antt =====
-- The parts of pkg/transport that work on messages: the framing of a stream, and what is noted in the
-- top Via of a request that arrives. Sockets and connections are left out.
pub mod Framing
pub mod Received
pub mod Whole
