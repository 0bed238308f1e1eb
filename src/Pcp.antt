-- ===== src/Pcp.antt =====
-- The Go package pcp (folder pcp/).
pub mod Protocol
pub mod Client
pub mod Nat
pub mod Discoverer
