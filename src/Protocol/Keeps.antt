-- ===== src/Protocol/Keeps.antt =====
-- What the common part of the protocols keeps true of a meter's contribution and its proxy values,
-- if the subclass does.
pub mod Defs
use pddm.Prelude.{
  ℕ, zero, suc, ◌+◌, ◌==◌, ◌≡◌, refl, sym, if◌then◌else◌, Bool, true, false, not, ◌&&◌, Bool-cases,
  inl, inr, Option, none, some, Option-cases, List, [], ◌∷◌, ◌++◌, length, contains,
}
use pddm.Messages.{ValueTuple, ValueContribution, AggregationMessage}
use pddm.Messages.Outcome.{Outcome, ok, undefined, out_of_fuel, ◌>>=◌, both_return}
use pddm.Messages.Body.{MessageBody}
use pddm.Aggregation
use pddm.Aggregation.{TreeAggregationState}
use pddm.Overlay.Gossip.{target, predecessor}
use pddm.Protocol.{
  Transport, Environment, ProtocolState, Effect, send_batch, send_ping, round_u32,
  get_current_query_num, sent, noted, set_round_timer, cancel_round_timer,
}
use pddm.Protocol.Batch.{
  envelopes, split_waiting, split_outgoing, dummy, send_overlay_message_batch,
}
use pddm.Protocol.Round.{
  Subclass, is_encrypted, advance, handle_overlay_message, handle_received, ping_predecessor,
  split_future, super_end_overlay_round, handle_aggregation_message, handle_early,
  start_aggregate_phase, end_overlay_round, handle_round_timeout, enter_round, close_round,
  next_overlay_round, handle_all_early, aggregate_with,
}
use pddm.Protocol.Keeps.Defs.{
  Holds, Keeps, IsKeeping, either-Holds, sent-Holds, batch-Holds, ok-Holds, ping_predecessor-Holds,
}

module _ {Impl : Type 0} (Q : Option ValueTuple → List ValueContribution → Type 0) where
  module _ (env : Environment) (sub : Subclass Impl) (keeping : IsKeeping Q sub) where
    pub handle_overlay_message-Keeps :
        (again : ProtocolState Impl → Outcome (ProtocolState Impl))
        → Keeps Q again
        → (m : Transport) → Keeps Q (λ s. handle_overlay_message env sub again s m)
    unfolding handle_overlay_message
    handle_overlay_message-Keeps again k m s s' e h =
        keeping.handles again k _ _ s' e (either-Holds Q (sub.is_in_overlay_phase s.impl) _ s h h)

    handle_received-Keeps :
        (again : ProtocolState Impl → Outcome (ProtocolState Impl))
        → Keeps Q again
        → (ms : List Transport) → Keeps Q (λ s. handle_received env sub again s ms)
    unfolding handle_received
    handle_received-Keeps again k [] s s' e h = ok-Holds Q s s' e h
    handle_received-Keeps again k (m ∷ ms) s s' e h =
        let (s₁, ran, later) = both_return (handle_overlay_message env sub again s m) _ e in
        handle_received-Keeps again k ms s₁ s' later
          (handle_overlay_message-Keeps again k m s s₁ ran h)

    enter_round-Holds : (s : ProtocolState Impl) → Holds Q s → Holds Q (enter_round env sub s)
    unfolding enter_round
    enter_round-Holds s h =
        let round = s.next_round in
        let s₁ = record s { next_round = round + 1; ping_response_from_predecessor = false } in
        ping_predecessor-Holds Q env sub (predecessor s.meter_id round s.num_meters)
          (set_round_timer (send_overlay_message_batch env round s₁)) (batch-Holds Q env round s₁ h)

    close_round-Keeps :
        (again : ProtocolState Impl → Outcome (ProtocolState Impl))
        → Keeps Q again
        → (round : ℕ) → Keeps Q (close_round env sub again round)
    unfolding close_round
    close_round-Keeps again k round s s' e h = go _ e
      where
        go : (b : Bool) → (elim b [ true ↦ again s | false ↦ ok s ]) ≡ ok s' → Holds Q s'
        go true e = k s s' e h
        go false e = ok-Holds Q s s' e h

    next_overlay_round-Keeps :
        (again : ProtocolState Impl → Outcome (ProtocolState Impl))
        → Keeps Q again
        → Keeps Q (next_overlay_round env sub again)
    unfolding next_overlay_round
    next_overlay_round-Keeps again k s s' e h =
        let s₁ = enter_round env sub s in
        let split =
          split_future (get_current_query_num s₁) s.next_round s₁.future_overlay_messages in
        let entered = record s₁ { future_overlay_messages = split.1 } in
        let (s₂, ran, later) =
          both_return (handle_received env sub again entered split.0)
            (close_round env sub again s.next_round) e in
        close_round-Keeps again k s.next_round s₂ s' later
          (handle_received-Keeps again k split.0 entered s₂ ran (enter_round-Holds s h))

    super_end_overlay_round-Keeps :
        (again : ProtocolState Impl → Outcome (ProtocolState Impl))
        → Keeps Q again
        → Keeps Q (super_end_overlay_round env sub again)
    unfolding super_end_overlay_round
    super_end_overlay_round-Keeps again k s s' e h = go s.is_last_round e
      where
        go :
            (b : Bool)
            → (elim b [
              | true ↦ ok (cancel_round_timer s)
              | false ↦ next_overlay_round env sub again (cancel_round_timer s)
            ])
              ≡ ok s'
            → Holds Q s'
        go true e = ok-Holds Q (cancel_round_timer s) s' e h
        go false e = next_overlay_round-Keeps again k (cancel_round_timer s) s' e h

    pub handle_aggregation_message-Keeps :
        (m : AggregationMessage) → Keeps Q (λ s. handle_aggregation_message env sub s m)
    unfolding handle_aggregation_message
    handle_aggregation_message-Keeps m s s' e h = go s.aggregation_phase_state e
      where
        go :
            (a : Option TreeAggregationState)
            → (elim a [
              | none ↦ undefined
              | some aggregation ↦ Aggregation.handle_message aggregation m >>= λ aggregation'.
                  sub.send_aggregate_if_done
                    (record s { aggregation_phase_state = some aggregation' })
            ])
              ≡ ok s'
            → Holds Q s'
        go none e = cc
        go (some aggregation) e =
            let (next, ran, later) = both_return (Aggregation.handle_message aggregation m) _ e in
            keeping.aggregates (record s { aggregation_phase_state = some next }) s' later h

    handle_early-Keeps : (ms : List AggregationMessage) → Keeps Q (λ s. handle_early env sub s ms)
    unfolding handle_early
    handle_early-Keeps [] s s' e h = ok-Holds Q s s' e h
    handle_early-Keeps (m ∷ ms) s s' e h =
        let (s₁, ran, later) = both_return (handle_aggregation_message env sub s m) _ e in
        handle_early-Keeps ms _ s' later (handle_aggregation_message-Keeps m s s₁ ran h)

    handle_all_early-Keeps : Keeps Q (handle_all_early env sub)
    unfolding handle_all_early
    handle_all_early-Keeps s s' e h = go (sub.is_in_aggregate_phase s.impl) e
      where
        go :
            (b : Bool)
            → (elim b [
              | true ↦ handle_early env sub s s.future_aggregation_messages
              | false ↦ ok s
            ])
              ≡ ok s'
            → Holds Q s'
        go true e = handle_early-Keeps s.future_aggregation_messages s s' e h
        go false e = ok-Holds Q s s' e h

    aggregate_with-Keeps :
        (aggregation : TreeAggregationState) (contribution : ValueTuple)
        → Keeps Q (λ s. aggregate_with env sub s aggregation contribution)
    unfolding aggregate_with
    aggregate_with-Keeps aggregation contribution s s' e h =
        let (s₁, ran, later) = both_return _ _ e in
        let (s₂, ran', last) = both_return (handle_all_early env sub s₁) _ later in
        ok-Holds Q _ s' last (handle_all_early-Keeps s₁ s₂ ran' (keeping.aggregates _ s₁ ran h))

    start_aggregate_phase-Keeps : Keeps Q (start_aggregate_phase env sub)
    unfolding start_aggregate_phase
    start_aggregate_phase-Keeps s s' e h = go s.aggregation_phase_state s.my_contribution e
      where
        go :
            (a : Option TreeAggregationState) (c : Option ValueTuple)
            → (elim a [
              | none ↦ undefined
              | some aggregation ↦ elim c [
                | none ↦ undefined
                | some contribution ↦
                    aggregate_with env sub (cancel_round_timer s) aggregation contribution
              ]
            ])
              ≡ ok s'
            → Holds Q s'
        go none c e = cc
        go (some aggregation) none e = cc
        go (some aggregation) (some contribution) e =
            aggregate_with-Keeps aggregation contribution (cancel_round_timer s) s' e h

    pub end_overlay_round-Keeps : (fuel : ℕ) → Keeps Q (end_overlay_round env sub fuel)
    unfolding end_overlay_round
    end_overlay_round-Keeps zero s s' e h = cc
    end_overlay_round-Keeps (suc fuel) s s' e h =
        let (s₁, ran, later) =
          both_return (sub.end_overlay_round_impl (start_aggregate_phase env sub) s) _ e in
        super_end_overlay_round-Keeps (end_overlay_round env sub fuel)
          (end_overlay_round-Keeps fuel) s₁ s' later
          (keeping.ends (start_aggregate_phase env sub) start_aggregate_phase-Keeps s s₁ ran h)

    -- The same for the handlers from outside.
    pub handle_round_timeout-Keeps : (fuel : ℕ) → Keeps Q (handle_round_timeout env sub fuel)
    unfolding handle_round_timeout
    handle_round_timeout-Keeps fuel s s' e h = go s.ping_response_from_predecessor e
      where
        before : ℕ
        before = predecessor s.meter_id (round_u32 s.next_round) s.num_meters

        waiting : ProtocolState Impl
        waiting = set_round_timer (record s { ping_response_from_predecessor = false })

        go :
            (b : Bool)
            → (elim b [
              | true ↦ ok (sent env (send_ping false before) before waiting)
              | false ↦ end_overlay_round env sub fuel s
            ])
              ≡ ok s'
            → Holds Q s'
        go true e =
            ok-Holds Q (sent env (send_ping false before) before waiting) s' e
              (sent-Holds Q env (send_ping false before) before waiting h)
        go false e = end_overlay_round-Keeps fuel s s' e h
