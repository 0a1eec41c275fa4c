-- ===== src/Examples.antt =====
-- The theorems at concrete inputs.
mod Overlay
mod PathFinder
mod Relay
mod Aggregation
mod Agreement
mod Utility
mod Protocol
mod Hft
mod Meter
mod Simulation
mod Network
