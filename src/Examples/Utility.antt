-- ===== src/Examples/Utility.antt =====
-- A utility of four meters that tolerates one failure.
use pddm.Prelude.{ℕ, ◌+◌, ◌≡◌, refl, true, false, some, List, [], ◌∷◌, ◌++◌, map, contains, arith}
use pddm.Prelude.Int.{pos, scale}
use pddm.Messages.{QueryType, QueryRequest, AggregationMessage}
use pddm.Messages.Outcome.{ok}
use pddm.Utility.{
  QueryProtocol, Effect, UtilityClient, cancel_timer, register_timer, network_roundtrip_timeout,
}
use pddm.Utility.Client.{
  start_query, start_queries, query_result, handle_aggregation_message, is_last_result, pop_least,
  send_all, rounds_for_query,
}
use pddm.Utility.Results.{query_result_correct}
use pddm.Utility.Batch.{queries_after, numbers, occurrences, Ascending, batch_in_order}
use pddm.Utility.Signing.{sign_all, sent_to, signs_first_request}
use pddm.Utility.Callbacks.{
  Increasing, register_query_callback, deregister_query_callback, register-deregister,
}
use pddm.Utility.Timeouts.{next_query_has_two_timers}

abbrev query : ℕ → QueryRequest
query n = record { request_type = QueryType.curr_usage_sum; time_window = 10; query_number = n }

abbrev sum_of : ℕ → AggregationMessage
sum_of x = record { sender_id = 0; num_contributors = 4; query_num = 2; body = x ∷ [] }

-- Three results of query 2, one of them wrong, and the query 3 pending.
abbrev three_results : UtilityClient
three_results = record {
  query_protocol = QueryProtocol.bft;
  failures_tolerated = 1;
  num_meters = 4;
  next_timer = 6;
  query_timeout_time = pos 100;
  query_timeout_timer = 5;
  query_num = some 2;
  query_finished = false;
  query_callbacks = 0 ∷ 3 ∷ [];
  curr_query_results = sum_of 8 ∷ sum_of 9 ∷ sum_of 8 ∷ [];
  all_query_results = [];
  curr_query_meters_signed = 1 ∷ [];
  pending_batch_queries = query 3 ∷ [];
}

query_result_correct_example : query_result three_results ≡ some (8 ∷ [])
query_result_correct_example =
    query_result_correct three_results (sum_of 8) refl (omega arith) (omega arith)

batch_in_order_example :
    (n : ℕ) × (ns : List ℕ) × ((start_queries three_results (query 7 ∷ query 5 ∷ [])).0.query_num
      ≡ some n)
    × (queries_after 2 (start_queries three_results (query 7 ∷ query 5 ∷ [])).0 ≡ ok (map some ns))
    × Ascending n ns
    × ((z : ℕ)
        → occurrences z (n ∷ ns) ≡ occurrences z (numbers (query 7 ∷ query 5 ∷ query 3 ∷ [])))
batch_in_order_example = batch_in_order three_results (query 7) (query 5 ∷ [])

signs_first_request_example :
    sent_to
      (λ body. 0 ∷ body)
      2
      (sign_all
        (λ body. 0 ∷ body)
        (start_query three_results (query 3)).0
        ((1, 8 ∷ []) ∷ (2, 5 ∷ []) ∷ (2, 6 ∷ []) ∷ [])).1
    ≡ (0 ∷ 5 ∷ []) ∷ []
signs_first_request_example =
    signs_first_request (λ body. 0 ∷ body) three_results (query 3) 2
      ((1, 8 ∷ []) ∷ (2, 5 ∷ []) ∷ (2, 6 ∷ []) ∷ [])

register-deregister_example :
    let (s', id) = register_query_callback three_results in
    (contains three_results.query_callbacks id ≡ false)
    × Increasing s'.query_callbacks
    × (deregister_query_callback s' id ≡ (three_results, true))
register-deregister_example = register-deregister three_results ((omega arith, tt), (tt, tt))

next_query_has_two_timers_example :
    (s' : UtilityClient) × (before : List Effect) × (handle_aggregation_message three_results
        (sum_of 8)
      ≡ ok (
        s',
        cancel_timer 5
              ∷ (before
                  ++ (send_all (pop_least (query 3) []).0 0 4
                      ++ register_timer 6
                          (scale network_roundtrip_timeout (rounds_for_query QueryProtocol.bft 1 4))
                        ∷ []))
            ++ register_timer (6 + 1) (pos 100) ∷ [],
      ))
    × (s'.query_num ≡ some (pop_least (query 3) []).0.query_number)
    × (s'.query_finished ≡ false)
    × (s'.query_timeout_timer ≡ 6 + 1)
unfolding is_last_result
next_query_has_two_timers_example =
    next_query_has_two_timers three_results (sum_of 8) 2 (query 3) [] refl refl refl refl
