-- ===== src/Pcp/Client.antt =====
-- pcp/client.go: the PCP client. `State` is the struct and its small methods, `Epoch` the tracking of
-- the server's epoch, `Transport` one exchange over UDP, and `Mapping` the operations.
pub mod State
pub mod Epoch
pub mod Transport
pub mod Mapping
pub mod Concurrent
pub mod Ranges
pub mod Examples
