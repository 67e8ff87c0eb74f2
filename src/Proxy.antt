-- ===== src/Proxy.antt =====
-- pkg/proxy/proxy.go: forwarding of requests and of the responses to them, over the transaction layer.
pub mod Config
pub mod Forward
pub mod Back
pub mod Hops
pub mod Returns
