-- ===== src/Transaction/Layer.antt =====
-- pkg/transaction/layer.go. A transaction is an object that the maps, the timers and the goroutines that
-- wait for its end share, so the layer has two heaps, and what Go holds as a pointer is a place in them.
-- Calls of onNewRequest are recorded in `handed`, and calls of the sender for a request without a
-- transaction in `stateless`, the last one first; what the script does in its turn are events of their
-- own. The metrics of pkg/metrics are left out.
pub mod State
pub mod Branches
pub mod Receive
pub mod Respond
pub mod Ends
pub mod Steps
pub mod Soundness
pub mod Servers
pub mod Kept
pub mod Requests
pub mod Forwards
pub mod Due
pub mod Cancels
pub mod Collector
