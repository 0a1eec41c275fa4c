-- ===== src/PathFinder.antt =====
-- util/PathFinder.cpp: node-disjoint paths through the gossip graph, by breadth-first infection.
pub mod Defs
pub mod Routes
pub mod Infection
pub mod Search
pub mod Disjoint
