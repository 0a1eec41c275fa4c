-- ===== src/Protocol/Batch.antt =====
-- ProtocolState_impl.h, `send_overlay_message_batch`: the messages of a round, to one meter.
pub mod Conserve
pub mod Correct
use pddm.Prelude.{
  ℕ, zero, suc, ◌+◌, ◌-◌, ◌==◌, if◌then◌else◌, Bool, true, false, ◌||◌, Option, none, some, List,
  [], ◌∷◌, ◌++◌, map, length,
}
use pddm.Messages.Body.{MessageBody}
use pddm.Overlay.Gossip.{target}
use pddm.Protocol.{Transport, Environment, ProtocolState, send_batch, sent, get_current_query_num}

-- `destination` and `flood` of an OverlayMessage. No other bodies are in the lists.
abbrev pub is_for : ℕ → MessageBody → Bool
is_for meter (MessageBody.overlay query destination encrypted flood body) = destination == meter
is_for meter (MessageBody.path_overlay query destination encrypted flood path body) =
    destination == meter
is_for meter _ = false

abbrev pub floods : MessageBody → Bool
floods (MessageBody.overlay query destination encrypted flood body) = flood
floods (MessageBody.path_overlay query destination encrypted flood path body) = flood
floods _ = false

-- The loop over the waiting messages: those to send now, and those that wait on.
unfoldable pub split_waiting : ℕ → List MessageBody → List MessageBody × List MessageBody
split_waiting meter [] = ([], [])
split_waiting meter (m ∷ rest) =
    let (now, later) = split_waiting meter rest in
    if is_for meter m then (m ∷ now, later) else (now, m ∷ later)

-- The loop over the outgoing messages.
unfoldable pub split_outgoing : ℕ → List MessageBody → List MessageBody × List MessageBody
split_outgoing meter [] = ([], [])
split_outgoing meter (m ∷ rest) =
    let (now, later) = split_outgoing meter rest in
    if floods m || is_for meter m then (m ∷ now, later) else (now, m ∷ later)

-- Each message in its envelope, the last one marked as final.
unfoldable pub envelopes : ℕ → ℕ → List MessageBody → List Transport
envelopes meter_id round [] = []
envelopes meter_id round (m ∷ []) =
    record { sender_id = meter_id; sender_round = round; is_final_message = true; body = m } ∷ []
envelopes meter_id round (m ∷ rest) =
    record { sender_id = meter_id; sender_round = round; is_final_message = false; body = m }
    ∷ envelopes meter_id round rest

-- The dummy message. A query number of -1 does not occur: the overlay runs within a query.
unfoldable pub dummy : ℕ → ℕ → ℕ → Option ℕ → Transport
dummy meter_id round to query_num = record {
  sender_id = meter_id;
  sender_round = round;
  is_final_message = true;
  body =
      MessageBody.overlay (elim query_num [ none ↦ 0 | some n ↦ n ]) to false false
        MessageBody.null;
}

module _ {Impl : Type 0} (env : Environment) where
  -- In the round `round`, which is overlay_round.
  unfoldable pub send_overlay_message_batch : ℕ → ProtocolState Impl → ProtocolState Impl
  unfolding split_waiting split_outgoing envelopes dummy
  send_overlay_message_batch round s =
      let comm_target = target s.meter_id round s.num_meters in
      let (due, kept) = split_waiting comm_target s.waiting_messages in
      let (now, held) = split_outgoing comm_target s.outgoing_messages in
      let s₁ = record s { waiting_messages = kept ++ held; outgoing_messages = [] } in
      elim (envelopes s.meter_id round (due ++ now)) [
        | [] ↦
            sent env
              (send_batch (dummy s.meter_id round comm_target (get_current_query_num s) ∷ [])
                comm_target)
              comm_target s₁
        | first ∷ rest ↦ sent env (send_batch (first ∷ rest) comm_target) comm_target s₁
      ]
