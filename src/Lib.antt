-- ===== src/Lib.antt =====
-- A model of PDDM, the collection of data from smart meters by queries that aggregate the meters'
-- values without showing them, and theorems about it. Paths are those of the repository, from its
-- root.
--
-- The parts and how they interact. The utility sends a query to all meters and collects the results.
-- Each meter picks a proxy in every aggregation group, and sends its value to them through an overlay
-- network: in round t, meter i sends to meter i + 2^t. The messages go over node-disjoint paths, in
-- onions of encryption or from proxy to proxy. In the Byzantine protocol the proxies then agree on the
-- values by their signatures. At last the meters of each group add the values up along a binary tree,
-- whose root sends the sum to the utility.
--
-- Files and code.
-- - Prelude: names of the libraries, tests, lists with native lengths, sets as lists; Prelude.Log is
--   `(int) ceil(log2(n))`, on exact numbers in place of doubles, and Prelude.Int a signed int.
-- - Overlay: src/util/Overlay.cpp and src/util/PrimeModuli.h. ModPow has mod_pow, Gossip has
--   gossip_target and gossip_predecessor with their memo tables, Groups has aggregation_group_for,
--   Tree has aggregation_tree_parent and aggregation_tree_children, Proxies has pick_proxies over a
--   source of randomness, Moduli the table of moduli with get_valid_prime_modulus.
-- - PathFinder: src/util/PathFinder.cpp. Defs has find_paths, find_another and find_path; the other
--   files are about routes, infection and search.
-- - Messages: the data of src/messaging, with src/util/FixedPoint.h (FixedPoint) and
--   OnionBuilder.cpp (Onion). Body has the message bodies and the interface of
--   src/util/CryptoLibrary.h, Multicast the lines that send a value to the other proxies, Outcome
--   the ways in which a C++ operation ends.
-- - Aggregation: src/TreeAggregationState.cpp, and add_value and add_values of
--   AggregationMessage.cpp. Aggregation.Group runs all meters of a group.
-- - Agreement: src/CrusaderAgreementState.cpp. A state is a record, handle_message goes by the body,
--   and finish_phase_1 and finish_phase_2 end the phases.
-- - Utility: src/UtilityClient.cpp. Client has the handlers, which return the new state and the
--   effects (messages, timers, callbacks); Callbacks registers and deregisters the callbacks.
-- - Protocol: src/ProtocolState_impl.h (Batch, Round, Start) over an interface for the subclass,
--   which src/CtProtocolState.cpp (Ct), src/BftProtocolState.cpp (Bft) and src/HftProtocolState.cpp
--   (Hft) fill. Hft.Query has start_query_impl of the last, and Hft.Random sample_range_excluding of
--   src/util/Random.h. Content is what the handlers of the first two look for in a message; Events
--   has what can happen to a meter from outside; Keeps is about properties of a meter's proxy values
--   that a subclass keeps, and Returns about the rounds left as enough fuel. Messages.Ends is the
--   predicate that an operation does not run out of it. Ct.Relay is about a value on its way from meter
--   to meter.
-- - Meter: src/MeterClient.cpp, which routes messages to the protocol states of one or two ids; the
--   two states share the timers and the network. Meter.Handlers has the handlers, Protocols fills
--   the interface of a protocol, Run has what can reach the client, Order and Early are about
--   messages before and after their round, and Values about properties of both states' values.
-- - Simulation: the simulation of src/simulation. Event has Event.h; Queue is the interface of the
--   standard library's priority queue; EventManager has EventManager.cpp, where an action is a
--   program over the manager's operations; Timers has SimTimerManager.cpp. Network has Network.cpp,
--   where a send comes to the time at which its messages arrive, and NetworkClient has
--   SimNetworkClient.cpp, whose world is the client with the meter behind it, the network and the
--   events that it has submitted. Crypto has SimCrypto.cpp, which fills the interface of the
--   cryptography.
-- - Examples: the theorems at concrete inputs.
--
-- Numbers. Ids and rounds are natural numbers, and -1 is `none` or an offset that is named where it
-- stands; what wraps in the source (the uint32_t of mod_pow, the int64_t of FixedPoint) wraps here.
-- Counters and sums of ints that the source does not wrap are taken to stay in an int.
--
-- Bounds and fuel. mod_pow takes 32 rounds, one for each bit of its exponent. find_path takes
-- max_round - start_round rounds, as its loop does. ceil_log2 counts up to its argument. The end of
-- a round of the overlay (Protocol.Round.end_overlay_round) is recursive in the source, through the
-- handlers of buffered messages and for predecessors that are down; its fuel is an argument, and
-- Protocol.Ct.Returns, Protocol.Bft.Returns and Protocol.Hft.Returns have how much is enough in the
-- three protocols.
--
-- Parameters. The source of randomness (std::mt19937 and std::uniform_int_distribution) is a record
-- whose draws lie between their bounds, and std::shuffle a record whose results have the same
-- elements. What a meter measures is a record of functions. The iteration order of a
-- std::unordered_set is an argument or the order of a list. The cryptography is a record of
-- functions; that decryption undoes encryption is a hypothesis where it is needed. Whether the
-- network reaches a meter is a function. The callbacks of the utility are effects and do not call it
-- back.
--
-- Not modelled: pick_without_replacement, which only the simulation's driver calls; the simulated
-- meters, the utility's end of the network and the driver (src/simulation, but the files above); the
-- sockets (src/networking), the timers of Linux, the serialization of messages over mutils (an empty
-- submodule), configuration, logging, printing and hashing, and the copies of spdlog and moodycamel
-- in libraries.
pub mod Prelude
pub mod Overlay
pub mod PathFinder
pub mod Messages
pub mod Aggregation
pub mod Agreement
pub mod Utility
pub mod Protocol
pub mod Meter
pub mod Simulation
pub mod Examples
