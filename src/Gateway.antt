-- ===== src/Gateway.antt =====
-- Package nat: how the protocols are combined into the gateway that the caller gets.
pub mod DefaultGateway
pub mod Probes
pub mod Discovery
pub mod Selection
pub mod Merge
pub mod PcpIpv6
pub mod Upnp
pub mod NatPmp
