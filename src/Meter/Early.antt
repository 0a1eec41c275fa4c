-- ===== src/Meter/Early.antt =====
-- The messages that reach MeterClient.cpp early, until their round.
use pddm.Prelude.{
  ℕ, ◌+◌, ◌==◌, ◌<◌, ◌≡◌, inl, inr, refl, if◌then◌else◌, Bool, true, false, ◌&&◌, Bool-cases,
  ==_iff, Option, some, List, [], ◌∷◌, ◌++◌,
}
use pddm.Messages.Outcome.{ok}
use pddm.Messages.Body.{MessageBody}
use pddm.Overlay.Gossip.{target}
use pddm.Protocol.{Transport, Environment, get_current_query_num, buffer_future_message}
use pddm.Protocol.Round.{split_future, is_of_query}
use pddm.Meter.Order.{overlay_message_by_order}
use pddm.Meter.{MeterProtocol, MeterClient, query_num_of}
use pddm.Meter.Handlers.{handle_overlay_message}

-- Whether a message is received in a round.
abbrev is_due : Option ℕ → ℕ → Transport → Bool
is_due query round m = m.sender_round == round && is_of_query query m.body

due_later :
    (query : Option ℕ) (round : ℕ) (ms : List Transport) (m : Transport)
    → is_due query round m ≡ true
    → split_future query round (ms ++ m ∷ [])
      ≡ ((split_future query round ms).0 ++ m ∷ [], (split_future query round ms).1)
unfolding split_future
due_later query round [] m due = rw due refl
due_later query round (x ∷ ms) m due = elim (Bool-cases (is_due query round x)) [
  | inl first ↦ rw (first, due_later query round ms m due) refl
  | inr other ↦ rw (other, due_later query round ms m due) refl
]

not_due_later :
    (query : Option ℕ) (round : ℕ) (ms : List Transport) (m : Transport)
    → is_due query round m ≡ false
    → split_future query round (ms ++ m ∷ [])
      ≡ ((split_future query round ms).0, (split_future query round ms).1 ++ m ∷ [])
unfolding split_future
not_due_later query round [] m due = rw due refl
not_due_later query round (x ∷ ms) m due = elim (Bool-cases (is_due query round x)) [
  | inl first ↦ rw (first, not_due_later query round ms m due) refl
  | inr other ↦ rw (other, not_due_later query round ms m due) refl
]

of-query_num :
    (q : ℕ) (body : MessageBody) → query_num_of body ≡ some q → is_of_query (some q) body ≡ true
of-query_num q (MessageBody.overlay n d e f b) h = let same : n ≡ q = cc in (==_iff n q).1 same
of-query_num q (MessageBody.path_overlay n d e f p b) h =
    let same : n ≡ q = cc in (==_iff n q).1 same
of-query_num q MessageBody.null h = cc
of-query_num q (MessageBody.string_body x) h = cc
of-query_num q (MessageBody.value_contribution x) h = cc
of-query_num q (MessageBody.signed_value x) h = cc
of-query_num q (MessageBody.agreement_value x) h = cc

-- A message put last is the last received in its own round, and is left to wait in every other one.
waits_for_its_round :
    (q round : ℕ) (ms : List Transport) (m : Transport)
    → query_num_of m.body ≡ some q
    → split_future (some q) round (ms ++ m ∷ []) ≡ (
        if m.sender_round == round
        then ((split_future (some q) round ms).0 ++ m ∷ [], (split_future (some q) round ms).1)
        else ((split_future (some q) round ms).0, (split_future (some q) round ms).1 ++ m ∷ []))
waits_for_its_round q round ms m body =
    let of_q = of-query_num q m.body body in
    elim (Bool-cases (m.sender_round == round)) [
      | inl its ↦
          let due : is_due (some q) round m ≡ true = rw (its, of_q) refl in
          rw its (due_later (some q) round ms m due)
      | inr other ↦
          let due : is_due (some q) round m ≡ false = rw other refl in
          rw other (not_due_later (some q) round ms m due)
    ]

module _ {Impl Engine : Type 0} (env : Environment) (protocol : MeterProtocol Impl Engine)
    (fuel : ℕ) where
  -- A message to a meter's own id for the query that the meter's protocol state is in, and for a round
  -- to come, makes no other change than that it waits: when the overlay comes to the round that the
  -- message is for, it is the last of those received in the round, and in every other round it is left
  -- with the messages that go on waiting, after all that were there before it.
  pub early_message_received_in_its_round :
      (c : MeterClient Impl Engine) (m : Transport) (q : ℕ)
      → target m.sender_id m.sender_round c.num_meters ≡ c.meter_id
      → query_num_of m.body ≡ some q
      → get_current_query_num c.primary_protocol_state ≡ some q
      → c.primary_protocol_state.next_round < m.sender_round + 1
      → (waiting : List Transport) × (handle_overlay_message env protocol fuel m c
          ≡ ok (record c {
            primary_protocol_state = record c.primary_protocol_state {
              future_overlay_messages = waiting;
            };
          }))
        × ((round : ℕ)
            → let before = c.primary_protocol_state.future_overlay_messages in
              let (received, others) = split_future (some q) round before in
              split_future (some q) round waiting ≡ (
                if m.sender_round == round
                then (received ++ m ∷ [], others)
                else (received, others ++ m ∷ [])))
  unfolding buffer_future_message
  early_message_received_in_its_round c m q here body mine ahead = (
    c.primary_protocol_state.future_overlay_messages ++ m ∷ [],
    (overlay_message_by_order env protocol fuel c m q q here body mine).1 (inl (inr (refl, ahead))),
    λ round. waits_for_its_round q round c.primary_protocol_state.future_overlay_messages m body,
  )
