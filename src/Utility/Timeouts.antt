-- ===== src/Utility/Timeouts.antt =====
-- The timeouts of a batch's queries.
use pddm.Prelude.{ℕ, ◌+◌, ◌≡◌, refl, true, false, some, List, [], ◌∷◌, ◌++◌, map}
use pddm.Prelude.Int.{scale}
use pddm.Messages.{QueryRequest, AggregationMessage}
use pddm.Messages.Outcome.{ok}
use pddm.Utility.{
  UtilityClient, Effect, network_roundtrip_timeout, run_callback, register_timer, cancel_timer,
}
use pddm.Utility.Client.{
  handle_aggregation_message, is_last_result, end_query, start_next, start_query, pop_least,
  send_all, query_result, rounds_for_query, store_result, set_timer,
}

-- If the last result of a query comes in while another query is pending, the next query starts with a
-- timer for all its rounds, which is not cancelled; but the timer that the client has when the handler
-- returns is a second one, with the timeout for one more result of a query.
pub next_query_has_two_timers :
    (s : UtilityClient) (m : AggregationMessage) (n : ℕ) (q : QueryRequest)
    (rest : List QueryRequest)
    → s.query_num ≡ some n
    → s.query_finished ≡ false
    → s.pending_batch_queries ≡ q ∷ rest
    → is_last_result (record s { curr_query_results = m ∷ s.curr_query_results }) ≡ true
    → let next = (pop_least q rest).0 in
      (s' : UtilityClient) × (before : List Effect) × (handle_aggregation_message s m
        ≡ ok (
          s',
          cancel_timer s.query_timeout_timer
                ∷ (before
                    ++ (send_all next 0 s.num_meters
                        ++ register_timer s.next_timer (
                            scale network_roundtrip_timeout
                              (rounds_for_query s.query_protocol s.failures_tolerated s.num_meters))
                          ∷ []))
              ++ register_timer (s.next_timer + 1) s.query_timeout_time ∷ [],
        ))
      × (s'.query_num ≡ some next.query_number)
      × (s'.query_finished ≡ false)
      × (s'.query_timeout_timer ≡ s.next_timer + 1)
unfolding handle_aggregation_message end_query start_next start_query
next_query_has_two_timers s m n q rest e f p last =
    let received = record s { curr_query_results = m ∷ s.curr_query_results } in
    let result = query_result received in
    let ended = record s {
      query_num = some n;
      query_finished = true;
      curr_query_results = [];
      all_query_results = store_result s.all_query_results n result;
      pending_batch_queries = (pop_least q rest).1;
    } in
    let started = (start_query ended (pop_least q rest).0).0 in
    (
      (set_timer started s.query_timeout_time).0,
      map (λ id. run_callback id n result) s.query_callbacks,
      rw (f, last, e, p) refl,
      refl,
      refl,
      refl,
    )
