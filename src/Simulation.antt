-- ===== src/Simulation.antt =====
-- The simulation of src/simulation: time and its events, timers, the network and its clients.
pub mod Event
pub mod Network
pub mod NetworkClient
pub mod Queue
pub mod EventManager
pub mod Timers
pub mod Crypto
