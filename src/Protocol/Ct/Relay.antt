-- ===== src/Protocol/Ct/Relay.antt =====
-- An onion on its way: what `handle_overlay_message` of ProtocolState_impl.h, with the handler of
-- CtProtocolState.cpp, makes of it on the meters of its path.
pub mod Path
pub mod Shuffle
pub mod Echo
use pddm.Prelude.{
  ℕ, ◌==◌, ==_iff, Bool, true, false, ◌&&◌, none, some, List, [], ◌∷◌, ◌++◌, map, All, map, All,
  ◌≡◌, refl, ap, ◌∙◌,
}
use pddm.Messages.{ValueTuple, ValueContribution}
use pddm.Messages.Outcome.{Outcome, ok}
use pddm.Messages.Body.{MessageBody, Crypto}
use pddm.Messages.Onion.{layer, nested, build_encrypted_onion, build_encrypted_onion-nested}
use pddm.Protocol.{
  Transport, Environment, ProtocolState, emplace_value, set_round_timer, cancel_round_timer,
}
use pddm.Protocol.Batch.{is_for}
use pddm.Protocol.Content.{content, payload}
use pddm.Protocol.Round.{handle_overlay_message}
use pddm.Protocol.Ct.{
  State, is_in_overlay_phase, handle_value, handle_content, handle_overlay_message_impl, subclass,
}

-- The state after a message has come: the timer of the round starts again.
abbrev pub restarted : State → State
restarted s = set_round_timer (cancel_round_timer s)

abbrev pub passes_on : MessageBody → State → State
passes_on next s = record (restarted s) { waiting_messages = s.waiting_messages ++ next ∷ [] }

abbrev pub receives : ValueContribution → State → State
receives c s = record (restarted s) { proxy_values = emplace_value c s.proxy_values }

-- The last message of a batch ends the round.
abbrev pub then_ends : Bool → (State → Outcome State) → State → Outcome State
then_ends final end_overlay_round s = elim final [ true ↦ end_overlay_round s | false ↦ ok s ]

-- A meter that shuffles or echoes the values of the query.
pub record Takes (c : ValueContribution) (s : State) : Type 0 where
  pub busy : is_in_overlay_phase s.impl ≡ true
  pub mine : ValueTuple
  pub has : s.my_contribution ≡ some mine
  pub same_query : c.value.query_num ≡ mine.query_num

-- In whatever envelope the message comes, and however a round ends, the meter comes to `after`.
abbrev pub Handles : (State → Environment) → State → MessageBody → State → Type 0
Handles env s body after =
    (end_overlay_round : State → Outcome State) (sender_id sender_round : ℕ) (final : Bool)
    → handle_overlay_message (env s) (subclass (env s)) end_overlay_round s (record {
      sender_id = sender_id;
      sender_round = sender_round;
      is_final_message = final;
      body = body;
    })
      ≡ then_ends final end_overlay_round after

-- The meters take the message from one to the next: it is for the first, which keeps a message for the
-- second to send, and so on, until the last one takes the value.
abbrev pub Relayed : (State → Environment) → ValueContribution → List State → MessageBody → Type 0
Relayed env c [] message = ⊥
Relayed env c (s ∷ []) message =
    (is_for s.meter_id message ≡ true) × Handles env s message (receives c s)
Relayed env c (s ∷ s' ∷ rest) message =
    (is_for s.meter_id message ≡ true)
    × (next : MessageBody) × Handles env s message (passes_on next s)
    × Relayed env c (s' ∷ rest) next

abbrev pub envelope : ℕ → ℕ → Bool → MessageBody → Transport
envelope sender_id sender_round final body = record {
  sender_id = sender_id;
  sender_round = sender_round;
  is_final_message = final;
  body = body;
}

-- The end of the handler, for a meter that is still busy.
pub then_ends_lem :
    (end_overlay_round : State → Outcome State) (final : Bool) (s : State)
    → is_in_overlay_phase s.impl ≡ true
    → elim (final && is_in_overlay_phase s.impl) [ true ↦ end_overlay_round s | false ↦ ok s ]
      ≡ then_ends final end_overlay_round s
then_ends_lem end_overlay_round true s busy = rw busy refl
then_ends_lem end_overlay_round false s busy = refl

-- The subclass's part, for a message that is for this meter: another layer, or the value.
pub impl-layer :
    (end_overlay_round : State → Outcome State) (s : State) (sender_id sender_round : ℕ)
    (final : Bool) (query : ℕ) (next_query id : ℕ) (encrypted flood : Bool) (body : MessageBody)
    → is_in_overlay_phase s.impl ≡ true
    → let next = MessageBody.overlay next_query id encrypted flood body in
      handle_overlay_message_impl end_overlay_round s (
        envelope sender_id sender_round final
          (MessageBody.overlay query s.meter_id false false next))
      ≡ then_ends final end_overlay_round
          (record s { waiting_messages = s.waiting_messages ++ next ∷ [] })
unfolding handle_overlay_message_impl handle_content
impl-layer end_overlay_round s sender_id sender_round final query next_query id encrypted flood body
      busy =
    then_ends_lem end_overlay_round final _ busy

pub impl-value :
    (c : ValueContribution) (end_overlay_round : State → Outcome State) (s : State)
    (sender_id sender_round : ℕ) (final : Bool) (body : MessageBody)
    → Takes c s
    → content s.meter_id body ≡ payload (MessageBody.value_contribution c)
    → handle_overlay_message_impl end_overlay_round s (envelope sender_id sender_round final body)
      ≡ then_ends final end_overlay_round
          (record s { proxy_values = emplace_value c s.proxy_values })
unfolding handle_overlay_message_impl handle_content handle_value
impl-value c end_overlay_round s sender_id sender_round final body takes here =
    let ours : (c.value.query_num == takes.mine.query_num) ≡ true =
      (==_iff c.value.query_num takes.mine.query_num).1 takes.same_query in
    rw (here, takes.busy, takes.has, ours) (then_ends_lem end_overlay_round final _ takes.busy)

pub Takes-restarted : (c : ValueContribution) (s : State) → Takes c s → Takes c (restarted s)
Takes-restarted c s takes = record {
  busy = takes.busy;
  mine = takes.mine;
  has = takes.has;
  same_query = takes.same_query;
}

-- Meters by their ids, with the states they are in.
module _ (state : ℕ → State) where
  pub All-Takes :
      (c : ValueContribution)
      → ((id : ℕ) → Takes c (state id))
      → (path : List ℕ) → All (Takes c) (map state path)
  All-Takes c takes [] = tt
  All-Takes c takes (id ∷ rest) = (takes id, All-Takes c takes rest)

  pub meter_ids :
      ((id : ℕ) → (state id).meter_id ≡ id)
      → (path : List ℕ) → map (λ s. s.meter_id) (map state path) ≡ path
  meter_ids named [] = refl
  meter_ids named (id ∷ rest) = rw (named id, meter_ids named rest) refl
