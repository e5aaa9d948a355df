-- ===== src/Network.antt =====
-- `TransportNetwork`: inc/network-monitor/TransportNetwork.h and src/TransportNetwork.cpp.
pub mod Types
pub mod Build
pub mod Stations
pub mod Travel
pub mod Stops
pub mod Paths
pub mod Plans
pub mod Alternatives
pub mod Quiet
pub mod Layout
