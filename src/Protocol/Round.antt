-- ===== src/Protocol/Round.antt =====
-- ProtocolState_impl.h: the rounds of the overlay, and the handlers of messages and timeouts.
--
-- A round that ends may end the next one at once, and so on: the recursion is bounded by fuel.
use pddm.Prelude.{
  ℕ, zero, suc, ◌+◌, ◌==◌, if◌then◌else◌, Bool, true, false, not, ◌&&◌, Option, none, some, List,
  [], ◌∷◌, ◌++◌, length, contains,
}
use pddm.Messages.{ValueTuple, AggregationMessage}
use pddm.Messages.Outcome.{Outcome, ok, undefined, out_of_fuel, ◌>>=◌}
use pddm.Messages.Body.{MessageBody}
use pddm.Aggregation
use pddm.Aggregation.{TreeAggregationState}
use pddm.Overlay.Gossip.{predecessor}
use pddm.Protocol.{
  Transport, Environment, ProtocolState, send_ping, sent, noted, cancel_round_timer,
  set_round_timer, get_current_query_num, round_u32,
}
use pddm.Protocol.Batch.{send_overlay_message_batch}

-- What a subclass implements. Its handlers call `end_overlay_round`, the end of a round calls
-- `start_aggregate_phase`.
pub record Subclass (Impl : Type 0) : Type 0 where
  pub is_in_overlay_phase : Impl → Bool
  pub is_in_aggregate_phase : Impl → Bool
  pub send_aggregate_if_done : ProtocolState Impl → Outcome (ProtocolState Impl)
  pub handle_overlay_message_impl :
      (ProtocolState Impl → Outcome (ProtocolState Impl))
      → ProtocolState Impl
      → Transport
      → Outcome (ProtocolState Impl)
  pub end_overlay_round_impl :
      (ProtocolState Impl → Outcome (ProtocolState Impl))
      → ProtocolState Impl
      → Outcome (ProtocolState Impl)

-- The query number of the OverlayMessage that an envelope has.
abbrev pub is_of_query : Option ℕ → MessageBody → Bool
is_of_query none body = false
is_of_query (some n) (MessageBody.overlay query destination encrypted flood body) = query == n
is_of_query (some n) (MessageBody.path_overlay query destination encrypted flood path body) =
    query == n
is_of_query (some n) _ = false

-- The loop over the future messages: those of the round, and the others.
unfoldable pub split_future : Option ℕ → ℕ → List Transport → List Transport × List Transport
split_future query round [] = ([], [])
split_future query round (m ∷ rest) =
    let (received, others) = split_future query round rest in
    if m.sender_round == round && is_of_query query m.body
    then (m ∷ received, others)
    else (received, m ∷ others)

abbrev pub is_encrypted : MessageBody → Bool
is_encrypted (MessageBody.overlay query destination encrypted flood body) = encrypted
is_encrypted (MessageBody.path_overlay query destination encrypted flood path body) = encrypted
is_encrypted _ = false

-- The next hop of a path becomes the destination; the message that has one is forwarded.
abbrev pub advance : MessageBody → MessageBody × List MessageBody
advance (MessageBody.path_overlay query destination encrypted flood (next ∷ rest) body) =
    let forwarded = MessageBody.path_overlay query next encrypted flood rest body in
    (forwarded, forwarded ∷ [])
advance body = (body, [])

module _ {Impl : Type 0} (env : Environment) (sub : Subclass Impl) where
  unfoldable pub handle_overlay_message :
      (ProtocolState Impl → Outcome (ProtocolState Impl))
      → ProtocolState Impl
      → Transport
      → Outcome (ProtocolState Impl)
  handle_overlay_message end_overlay_round s message =
      let s₁ =
        if sub.is_in_overlay_phase s.impl then set_round_timer (cancel_round_timer s) else s in
      let opened =
        if is_encrypted message.body then env.crypto.rsa_decrypt message.body else message.body in
      let (body, forwarded) = advance opened in
      sub.handle_overlay_message_impl end_overlay_round
        (record s₁ { waiting_messages = s₁.waiting_messages ++ forwarded })
        (record message { body = body })

  -- The loop over the messages received for the round.
  unfoldable pub handle_received :
      (ProtocolState Impl → Outcome (ProtocolState Impl))
      → ProtocolState Impl
      → List Transport
      → Outcome (ProtocolState Impl)
  unfolding handle_overlay_message
  handle_received end_overlay_round s [] = ok s
  handle_received end_overlay_round s (m ∷ rest) = do
    s₁ ← handle_overlay_message end_overlay_round s m
    handle_received end_overlay_round s₁ rest

  -- A ping to the predecessor, unless it is known to have failed.
  unfoldable pub ping_predecessor : ℕ → ProtocolState Impl → ProtocolState Impl
  ping_predecessor meter s =
      if contains s.failed_meter_ids meter then s else sent env (send_ping false meter) meter s

  -- The next round's start, up to the ping.
  unfoldable pub enter_round : ProtocolState Impl → ProtocolState Impl
  unfolding ping_predecessor send_overlay_message_batch
  enter_round s =
      let round = s.next_round in
      let s₁ = record s { next_round = round + 1; ping_response_from_predecessor = false } in
      ping_predecessor (predecessor s.meter_id round s.num_meters)
        (set_round_timer (send_overlay_message_batch env round s₁))

  -- The round's end at once, if it is still the round `round` and the predecessor is down.
  unfoldable pub close_round :
      (ProtocolState Impl → Outcome (ProtocolState Impl))
      → ℕ
      → ProtocolState Impl
      → Outcome (ProtocolState Impl)
  close_round end_overlay_round round s =
      elim (s.next_round == round + 1
        && contains s.failed_meter_ids (predecessor s.meter_id round s.num_meters)) [
          | true ↦ end_overlay_round s
          | false ↦ ok s
        ]

  -- `end_overlay_round` is the call at the end, and those of the handlers.
  unfoldable pub next_overlay_round :
      (ProtocolState Impl → Outcome (ProtocolState Impl))
      → ProtocolState Impl
      → Outcome (ProtocolState Impl)
  unfolding handle_received enter_round close_round split_future
  next_overlay_round end_overlay_round s =
      let round = s.next_round in
      let s₁ = enter_round s in
      let (received, others) =
        split_future (get_current_query_num s₁) round s₁.future_overlay_messages in
      (do
        s₂ ←
            handle_received end_overlay_round (record s₁ { future_overlay_messages = others })
              received
        close_round end_overlay_round round s₂)

  unfoldable pub super_end_overlay_round :
      (ProtocolState Impl → Outcome (ProtocolState Impl))
      → ProtocolState Impl
      → Outcome (ProtocolState Impl)
  unfolding next_overlay_round
  super_end_overlay_round end_overlay_round s = elim s.is_last_round [
    | true ↦ ok (cancel_round_timer s)
    | false ↦ next_overlay_round end_overlay_round (cancel_round_timer s)
  ]

  unfoldable pub handle_aggregation_message :
      ProtocolState Impl → AggregationMessage → Outcome (ProtocolState Impl)
  handle_aggregation_message s message = elim s.aggregation_phase_state [
    | none ↦ undefined
    | some aggregation ↦ do
      aggregation' ← Aggregation.handle_message aggregation message
      sub.send_aggregate_if_done (record s { aggregation_phase_state = some aggregation' })
  ]

  -- The loop over the messages that came early.
  unfoldable pub handle_early :
      ProtocolState Impl → List AggregationMessage → Outcome (ProtocolState Impl)
  unfolding handle_aggregation_message
  handle_early s [] = ok s
  handle_early s (m ∷ rest) = do
    s₁ ← handle_aggregation_message s m
    handle_early (record s₁ { future_aggregation_messages = rest }) rest

  -- The messages that came early, if the meter still aggregates.
  unfoldable pub handle_all_early : ProtocolState Impl → Outcome (ProtocolState Impl)
  unfolding handle_early
  handle_all_early s = elim (sub.is_in_aggregate_phase s.impl) [
    | true ↦ handle_early s s.future_aggregation_messages
    | false ↦ ok s
  ]

  -- The phase, with the aggregation's state and this meter's contribution.
  unfoldable pub aggregate_with :
      ProtocolState Impl → TreeAggregationState → ValueTuple → Outcome (ProtocolState Impl)
  unfolding handle_all_early
  aggregate_with s aggregation contribution = do
    s₁ ← sub.send_aggregate_if_done (record s {
      aggregation_phase_state =
          some (Aggregation.initialize aggregation (length contribution.value) s.failed_meter_ids);
    })
    s₂ ← handle_all_early s₁
    ok (record s₂ { is_last_round = true })

  unfoldable pub start_aggregate_phase : ProtocolState Impl → Outcome (ProtocolState Impl)
  unfolding aggregate_with
  start_aggregate_phase s = elim s.aggregation_phase_state [
    | none ↦ undefined
    | some aggregation ↦ elim s.my_contribution [
      | none ↦ undefined
      | some contribution ↦ aggregate_with (cancel_round_timer s) aggregation contribution
    ]
  ]

  unfoldable pub end_overlay_round : ℕ → ProtocolState Impl → Outcome (ProtocolState Impl)
  unfolding super_end_overlay_round start_aggregate_phase
  end_overlay_round zero s = out_of_fuel
  end_overlay_round (suc fuel) s = do
    s₁ ← sub.end_overlay_round_impl start_aggregate_phase s
    super_end_overlay_round (end_overlay_round fuel) s₁

  unfoldable pub handle_round_timeout : ℕ → ProtocolState Impl → Outcome (ProtocolState Impl)
  unfolding end_overlay_round
  handle_round_timeout fuel s = elim s.ping_response_from_predecessor [
    | true ↦
        let before = predecessor s.meter_id (round_u32 s.next_round) s.num_meters in
        ok (
          sent env (send_ping false before) before
            (set_round_timer (record s { ping_response_from_predecessor = false })))
    | false ↦ end_overlay_round fuel s
  ]

  -- `is_response` and `sender` of the ping. The reply's success is not looked at.
  unfoldable pub handle_ping_message : ProtocolState Impl → Bool → ℕ → ProtocolState Impl
  handle_ping_message s is_response sender =
      if not is_response
      then noted (send_ping true sender) s
      else if sender == predecessor s.meter_id (round_u32 s.next_round) s.num_meters
      then record s { ping_response_from_predecessor = true }
      else s
