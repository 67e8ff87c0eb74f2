-- ===== src/Transaction.antt =====
-- pkg/transaction: keys and timers, the client and server transactions of RFC 3261, and the layer that
-- holds them.
pub mod Keys
pub mod Timers
pub mod Client
pub mod Server
pub mod Layer
