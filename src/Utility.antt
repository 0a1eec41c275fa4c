-- ===== src/Utility.antt =====
-- UtilityClient.h and .cpp: the client of the utility, which sends the queries out and collects the
-- results.
--
-- The network, the logger, the cryptography and the timers are effects, in the order of the calls.
-- A timer's id is the next one of the timer library, which counts them. The order of a std::unordered_multiset and of equal keys in
-- a priority queue is not specified: the lists stand for it.
pub mod Client
pub mod Results
pub mod Batch
pub mod Callbacks
pub mod Timeouts
pub mod Signing
use pddm.Prelude.{
  ℕ, zero, suc, ◌+◌, ◌-◌, ◌*◌, ltb, leb, ◌==◌, if◌then◌else◌, Bool, true, false, not, ◌&&◌, ◌||◌,
  Option, none, some, List, [], ◌∷◌, ◌++◌, map, length, set, replicate, contains, insert_id,
  same_list,
}
use pddm.Prelude.Int.{ℤ, pos, negsuc, scale}
use pddm.Prelude.Log.{ceil_log2, ceil_log2_ratio}
use pddm.Messages.{QueryRequest, AggregationMessage}

pub data QueryProtocol : Type 0 where
  bft ct hft : QueryProtocol

-- What a call does to the rest of the system: the query sent to a meter; a signature response to a
-- meter, over the ciphertext that it sent; a timer cancelled, or registered under an id with a delay;
-- a callback, by its id, with the query's number and its result (a null pointer for no result).
pub data Effect : Type 0 where
  send_query : QueryRequest → ℕ → Effect
  send_signature : ℕ → List ℕ → Effect
  cancel_timer : ℕ → Effect
  register_timer : ℕ → ℤ → Effect
  run_callback : ℕ → ℕ → Option (List ℕ) → Effect

pub record UtilityClient : Type 0 where
  pub query_protocol : QueryProtocol
  pub failures_tolerated : ℕ
  pub num_meters : ℕ
  pub next_timer : ℕ
  pub query_timeout_time : ℤ
  pub query_timeout_timer : ℕ
  -- `none` is -1.
  pub query_num : Option ℕ
  pub query_finished : Bool
  -- The keys of the map of callbacks, in order.
  pub query_callbacks : List ℕ
  pub curr_query_results : List AggregationMessage
  pub all_query_results : List (Option (List ℕ))
  pub curr_query_meters_signed : List ℕ
  pub pending_batch_queries : List QueryRequest

abbrev pub network_roundtrip_timeout : ℕ
network_roundtrip_timeout = 100

-- The number of aggregation groups.
abbrev pub groups_of : QueryProtocol → ℕ → ℕ
groups_of QueryProtocol.bft failures = 2 * failures + 1
groups_of QueryProtocol.ct failures = failures + 1
groups_of QueryProtocol.hft failures = failures + 1

unfoldable pub compute_timeout_time : QueryProtocol → ℕ → ℕ → ℤ
compute_timeout_time protocol failures num_meters =
    scale network_roundtrip_timeout (ceil_log2_ratio num_meters (groups_of protocol failures))

unfoldable pub new_client : QueryProtocol → ℕ → ℕ → ℕ → UtilityClient
unfolding compute_timeout_time
new_client protocol failures num_meters next_timer = record {
  query_protocol = protocol;
  failures_tolerated = failures;
  num_meters = num_meters;
  next_timer = next_timer;
  query_timeout_time = compute_timeout_time protocol failures num_meters;
  query_timeout_timer = 0;
  query_num = none;
  query_finished = false;
  query_callbacks = [];
  curr_query_results = [];
  all_query_results = [];
  curr_query_meters_signed = [];
  pending_batch_queries = [];
}
