-- ===== src/Overlay.antt =====
-- The overlay graph and the aggregation groups: util/Overlay.cpp.
pub mod ModPow
pub mod Gossip
pub mod Groups
pub mod Tree
pub mod Proxies
pub mod Moduli
