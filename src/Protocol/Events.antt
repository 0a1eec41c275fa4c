-- ===== src/Protocol/Events.antt =====
-- What can happen to a meter's protocol state from outside, and sequences of it.
use pddm.Prelude.{ℕ, ◌==◌, Bool, true, false, Option, List, [], ◌∷◌, Bool-cases, inl, inr}
use pddm.Messages.{ValueTuple, ValueContribution, AggregationMessage}
use pddm.Messages.Outcome.{Outcome, ok, ◌>>=◌, both_return}
use pddm.Overlay.Gossip.{predecessor}
use pddm.Protocol.{
  Transport, Environment, ProtocolState, round_u32, buffer_future_message,
  buffer_future_aggregation,
}
use pddm.Protocol.Round.{
  Subclass, handle_overlay_message, handle_aggregation_message, end_overlay_round,
  handle_round_timeout, handle_ping_message,
}
use pddm.Protocol.Keeps.Defs.{Holds, Keeps, IsKeeping, ok-Holds}
use pddm.Protocol.Keeps.{
  handle_overlay_message-Keeps, handle_aggregation_message-Keeps, end_overlay_round-Keeps,
  handle_round_timeout-Keeps,
}

-- A message of the current round, or an early one; an aggregate, or an early one; a ping with its
-- `is_response` and its sender; and the timeout of the round.
pub data Event : Type 0 where
  overlay_message early_message : Transport → Event
  aggregation_message early_aggregation : AggregationMessage → Event
  ping : Bool → ℕ → Event
  round_timeout : Event

module _ {Impl : Type 0} (env : Environment) (sub : Subclass Impl) (fuel : ℕ) where
  unfoldable pub handle_event : Event → ProtocolState Impl → Outcome (ProtocolState Impl)
  handle_event (overlay_message m) s =
      handle_overlay_message env sub (end_overlay_round env sub fuel) s m
  handle_event (early_message m) s = ok (buffer_future_message s m)
  handle_event (aggregation_message m) s = handle_aggregation_message env sub s m
  handle_event (early_aggregation m) s = ok (buffer_future_aggregation s m)
  handle_event (ping is_response sender) s = ok (handle_ping_message env sub s is_response sender)
  handle_event round_timeout s = handle_round_timeout env sub fuel s

  unfoldable pub run : List Event → ProtocolState Impl → Outcome (ProtocolState Impl)
  unfolding handle_event
  run [] s = ok s
  run (event ∷ rest) s = do s₁ ← handle_event event s; run rest s₁

  module _ (Q : Option ValueTuple → List ValueContribution → Type 0)
      (keeping : IsKeeping Q sub) where
    pub ping-Holds :
        (s : ProtocolState Impl) (is_response : Bool) (sender : ℕ)
        → Holds Q s
        → Holds Q (handle_ping_message env sub s is_response sender)
    unfolding handle_ping_message
    ping-Holds s false sender h = h
    ping-Holds s true sender h =
        elim (Bool-cases (sender == predecessor s.meter_id (round_u32 s.next_round) s.num_meters)) [
          | inl ours ↦ rw ours h
          | inr other ↦ rw other h
        ]

    handle_event-Keeps : (event : Event) → Keeps Q (handle_event event)
    unfolding handle_event buffer_future_message buffer_future_aggregation
    handle_event-Keeps (overlay_message m) s s' e h =
        handle_overlay_message-Keeps Q env sub keeping (end_overlay_round env sub fuel)
          (end_overlay_round-Keeps Q env sub keeping fuel) m s s' e h
    handle_event-Keeps (early_message m) s s' e h = ok-Holds Q (buffer_future_message s m) s' e h
    handle_event-Keeps (aggregation_message m) s s' e h =
        handle_aggregation_message-Keeps Q env sub keeping m s s' e h
    handle_event-Keeps (early_aggregation m) s s' e h =
        ok-Holds Q (buffer_future_aggregation s m) s' e h
    handle_event-Keeps (ping is_response sender) s s' e h =
        ok-Holds Q (handle_ping_message env sub s is_response sender) s' e
          (ping-Holds s is_response sender h)
    handle_event-Keeps round_timeout s s' e h =
        handle_round_timeout-Keeps Q env sub keeping fuel s s' e h

    -- A subclass that keeps the property keeps it over all events.
    pub run-Keeps : (events : List Event) → Keeps Q (run events)
    unfolding run
    run-Keeps [] s s' e h = ok-Holds Q s s' e h
    run-Keeps (event ∷ rest) s s' e h =
        let (s₁, ran, later) = both_return (handle_event event s) (run rest) e in
        run-Keeps rest s₁ s' later (handle_event-Keeps event s s₁ ran h)
