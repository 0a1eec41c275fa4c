-- ===== src/Utility/Client.antt =====
-- The operations of UtilityClient.cpp. A call of a handler returns the new state and its effects.
use pddm.Prelude.{
  ℕ, zero, suc, ◌+◌, ◌-◌, ◌*◌, ltb, leb, ◌==◌, if◌then◌else◌, Bool, true, false, not, ◌&&◌, Option,
  none, some, List, [], ◌∷◌, ◌++◌, map, length, set, replicate, contains, insert_id, same_list,
}
use pddm.Prelude.Int.{ℤ, plus, scale}
use pddm.Prelude.Log.{ceil_log2, ceil_log2_ratio}
use pddm.Messages.{QueryRequest, AggregationMessage}
use pddm.Messages.Outcome.{Outcome, ok, undefined, ◌>>=◌}
use pddm.Utility.{
  QueryProtocol, Effect, UtilityClient, groups_of, network_roundtrip_timeout, send_query,
  send_signature, cancel_timer, register_timer, run_callback,
}

-- operator== of AggregationMessage.
abbrev pub same_message : AggregationMessage → AggregationMessage → Bool
same_message a b =
    a.num_contributors == b.num_contributors
    && a.query_num == b.query_num
    && same_list a.body b.body

-- std::unordered_multiset::count.
abbrev pub count : AggregationMessage → List AggregationMessage → ℕ
count m [] = 0
count m (x ∷ xs) = if same_message x m then suc (count m xs) else count m xs

-- `query_timeout_timer = timer_library.register_timer(...)`.
abbrev pub set_timer : UtilityClient → ℤ → UtilityClient × List Effect
set_timer s delay = (
  record s { query_timeout_timer = s.next_timer; next_timer = s.next_timer + 1 },
  register_timer s.next_timer delay ∷ [],
)

-- The loop over the meters, from `meter` on.
unfoldable pub send_all : QueryRequest → ℕ → ℕ → List Effect
send_all query meter zero = []
send_all query meter (suc left) = send_query query meter ∷ send_all query (meter + 1) left

unfoldable pub rounds_for_query : QueryProtocol → ℕ → ℕ → ℤ
rounds_for_query protocol failures num_meters =
    let log2n = ceil_log2 num_meters in
    let aggregation = ceil_log2_ratio num_meters (groups_of protocol failures) in
    elim protocol [
      | QueryProtocol.bft ↦ plus (6 * failures + 3 * log2n * log2n + 3) aggregation
      | QueryProtocol.hft ↦ plus (2 * log2n + 2 * failures) aggregation
      | QueryProtocol.ct ↦ plus (2 * failures + 4 * log2n + 2) aggregation
    ]

unfoldable pub start_query : UtilityClient → QueryRequest → UtilityClient × List Effect
unfolding send_all
start_query s query =
    let started = record s {
      curr_query_meters_signed = [];
      query_num = some query.query_number;
      curr_query_results = [];
      query_finished = false;
    } in
    let (s', timer) = set_timer started (
      scale network_roundtrip_timeout
        (rounds_for_query s.query_protocol s.failures_tolerated s.num_meters)) in
    (s', send_all query 0 s.num_meters ++ timer)

-- `top` and `pop` of the priority queue that has `q` and the others: the lowest query number.
unfoldable pub pop_least : QueryRequest → List QueryRequest → QueryRequest × List QueryRequest
pop_least q [] = (q, [])
pop_least q (p ∷ rest) =
    let (least, others) = pop_least p rest in
    if leb q.query_number least.query_number then (q, p ∷ rest) else (least, q ∷ others)

-- Start the first of the pending queries, if there is one.
unfoldable pub start_next : UtilityClient → UtilityClient × List Effect
unfolding start_query pop_least
start_next s = elim s.pending_batch_queries [
  | [] ↦ (s, [])
  | q ∷ rest ↦
      let (least, others) = pop_least q rest in
      start_query (record s { pending_batch_queries = others }) least
]

unfoldable pub start_queries : UtilityClient → List QueryRequest → UtilityClient × List Effect
unfolding start_next
start_queries s [] = (s, [])
start_queries s (q ∷ rest) =
    start_next (record s { pending_batch_queries = (q ∷ rest) ++ s.pending_batch_queries })

-- The loop of `end_query` over the results, `left` of the set `all`, in BFT.
unfoldable pub agreed_result :
    ℕ → List AggregationMessage → List AggregationMessage → Option (List ℕ)
agreed_result failures all [] = none
agreed_result failures all (m ∷ left) =
    let later = agreed_result failures all left in
    if leb (failures + 1) (count m all) then some m.body else later

-- The loop in the other protocols. `most_contributors` stays 0, so each result that counts any
-- contributor replaces the one before.
unfoldable pub counted_result : Option (List ℕ) → List AggregationMessage → Option (List ℕ)
counted_result result [] = result
counted_result result (m ∷ left) =
    counted_result (if ltb 0 m.num_contributors then some m.body else result) left

unfoldable pub query_result : UtilityClient → Option (List ℕ)
unfolding agreed_result counted_result
query_result s = elim s.query_protocol [
  | QueryProtocol.bft ↦ agreed_result s.failures_tolerated s.curr_query_results s.curr_query_results
  | QueryProtocol.ct ↦ counted_result none s.curr_query_results
  | QueryProtocol.hft ↦ counted_result none s.curr_query_results
]

-- `resize` if the vector is too short, and the write.
unfoldable pub store_result : List (Option (List ℕ)) → ℕ → Option (List ℕ) → List (Option (List ℕ))
store_result results n result =
    set
      (if leb (length results) n
        then results ++ replicate (n + 1 - length results) none
        else results)
      n result

-- Before a query has started, the vector is written in front of its start.
unfoldable pub end_query : UtilityClient → Outcome (UtilityClient × List Effect)
unfolding query_result store_result start_next
end_query s = elim s.query_num [
  | none ↦ undefined
  | some n ↦
      let result = query_result s in
      let ended = record s {
        curr_query_results = [];
        all_query_results = store_result s.all_query_results n result;
        query_finished = true;
      } in
      let (s', effects) = start_next ended in
      ok (s', map (λ id. run_callback id n result) s.query_callbacks ++ effects)
]

-- Whether the last result has certainly come.
unfoldable pub is_last_result : UtilityClient → Bool
is_last_result s = elim s.query_protocol [
  | QueryProtocol.bft ↦ ltb (2 * s.failures_tolerated) (length s.curr_query_results)
  | QueryProtocol.ct ↦ ltb s.failures_tolerated (length s.curr_query_results)
  | QueryProtocol.hft ↦ ltb s.failures_tolerated (length s.curr_query_results)
]

unfoldable pub handle_aggregation_message :
    UtilityClient → AggregationMessage → Outcome (UtilityClient × List Effect)
unfolding is_last_result end_query
handle_aggregation_message s message = do
  let received = record s { curr_query_results = message ∷ s.curr_query_results }
  let cancelled = cancel_timer s.query_timeout_timer
  (s', effects) ←
      if not s.query_finished && is_last_result received
      then end_query received
      else ok (received, [])
  let (s'', timer) = if s'.query_finished then (s', []) else set_timer s' s'.query_timeout_time
  ok (s'', cancelled ∷ effects ++ timer)

-- The signature is the library's, over the ciphertext.
unfoldable pub handle_signature_request :
    (List ℕ → List ℕ) → UtilityClient → ℕ → List ℕ → UtilityClient × List Effect
handle_signature_request rsa_sign_encrypted s sender body =
    if contains s.curr_query_meters_signed sender then (s, []) else (
      record s { curr_query_meters_signed = insert_id sender s.curr_query_meters_signed },
      send_signature sender (rsa_sign_encrypted body) ∷ [],
    )
