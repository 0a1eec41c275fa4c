-- ===== src/Protocol/Batch/Correct.antt =====
-- `send_overlay_message_batch` as a whole, from one state to the next.
use pddm.Prelude.{
  ℕ, ◌+◌, ==_iff, ◌≡◌, refl, sym, ap, ◌∙◌, Bool, false, Bool-cases, inl, inr, none, some, List, [],
  ◌∷◌, ◌++◌, length, All, All-append, arith,
}
use pddm.Messages.Body.{MessageBody}
use pddm.Overlay.Gossip.{target}
use pddm.Protocol.{
  Transport, Environment, ProtocolState, Effect, send_batch, sent, get_current_query_num,
}
use pddm.Protocol.Batch.{
  is_for, split_waiting, split_outgoing, envelopes, dummy, send_overlay_message_batch,
}
use pddm.Protocol.Batch.Conserve.{
  count_if, bodies, EndsFinal, IsDue, IsFrom, count_if-append, split_waiting-count,
  split_outgoing-count, split_waiting-IsDue, split_outgoing-IsDue, envelopes-IsDue,
  count_if-envelopes, envelopes-EndsFinal, envelopes-IsFrom,
}

module _ {Impl : Type 0} where
  -- What a round's batch is, sent from the state `s`, which becomes `s'`.
  pub record IsBatch (round : ℕ) (s s' : ProtocolState Impl) (batch : List Transport) : Type 0 where
    pub goes : s'.effects ≡ send_batch batch (target s.meter_id round s.num_meters) ∷ s.effects
    pub final : EndsFinal batch
    pub from : All (IsFrom s.meter_id round) batch
    pub due : All (IsDue (target s.meter_id round s.num_meters)) (bodies batch)
    pub kept :
        All (λ m. is_for (target s.meter_id round s.num_meters) m ≡ false) s'.waiting_messages
    pub cleared : s'.outgoing_messages ≡ []
    pub counted :
        (p : MessageBody → Bool)
        → ((query to : ℕ) → p (MessageBody.overlay query to false false MessageBody.null) ≡ false)
        → count_if p (bodies batch) + count_if p s'.waiting_messages
          ≡ count_if p s.waiting_messages + count_if p s.outgoing_messages

  sent-fields :
      (env : Environment) (effect : Effect) (to : ℕ) (s : ProtocolState Impl)
      → let s' = sent env effect to s in
        (s'.effects ≡ effect ∷ s.effects)
        × (s'.waiting_messages ≡ s.waiting_messages)
        × (s'.outgoing_messages ≡ s.outgoing_messages)
  sent-fields env effect to s = elim (Bool-cases (env.reaches (length s.effects) to)) [
    | inl up ↦ rw up (refl, refl, refl)
    | inr down ↦ rw down (refl, refl, refl)
  ]

  -- In each round exactly one batch is sent, to the gossip target. It comes from this meter and this
  -- round and is not empty; its last message, and no other, is marked as final; each of its messages
  -- is for the target or is flooded. No message that waits on is for the target, none is outgoing any
  -- more, and of the messages that were waiting or outgoing each is in the batch or waits on, as often
  -- as it was there; the batch has nothing else but a message without a payload.
  pub send_overlay_message_batch-IsBatch :
      (env : Environment) (round : ℕ) (s : ProtocolState Impl)
      → (batch : List Transport) × IsBatch round s (send_overlay_message_batch env round s) batch
  unfolding send_overlay_message_batch dummy envelopes
  send_overlay_message_batch-IsBatch env round s =
      split ((split_waiting to s.waiting_messages).0 ++ (split_outgoing to s.outgoing_messages).0)
        refl
    where
      to : ℕ
      to = target s.meter_id round s.num_meters

      waits : List MessageBody
      waits = (split_waiting to s.waiting_messages).1 ++ (split_outgoing to s.outgoing_messages).1

      s₁ : ProtocolState Impl
      s₁ = record s { waiting_messages = waits; outgoing_messages = [] }

      waits_on : All (λ m. is_for to m ≡ false) waits
      waits_on =
          All-append (λ m. is_for to m ≡ false) _ _ (split_waiting-IsDue to s.waiting_messages).1
            (split_outgoing-IsDue to s.outgoing_messages).1

      total :
          (p : MessageBody → Bool) (ms : List MessageBody)
          → (split_waiting to s.waiting_messages).0 ++ (split_outgoing to s.outgoing_messages).0
            ≡ ms
          → count_if p ms + count_if p waits
            ≡ count_if p s.waiting_messages + count_if p s.outgoing_messages
      total p ms e =
          let a =
            count_if-append p (split_waiting to s.waiting_messages).0
              (split_outgoing to s.outgoing_messages).0 in
          let b =
            count_if-append p (split_waiting to s.waiting_messages).1
              (split_outgoing to s.outgoing_messages).1 in
          let c = split_waiting-count p to s.waiting_messages in
          let d = split_outgoing-count p to s.outgoing_messages in rw (sym e) (omega arith)

      now_due :
          (ms : List MessageBody)
          → (split_waiting to s.waiting_messages).0 ++ (split_outgoing to s.outgoing_messages).0
            ≡ ms
          → All (IsDue to) ms
      now_due ms e = rw e at (
          All-append (IsDue to) _ _ (split_waiting-IsDue to s.waiting_messages).0
            (split_outgoing-IsDue to s.outgoing_messages).0)

      made :
          (batch : List Transport)
          → send_overlay_message_batch env round s ≡ sent env (send_batch batch to) to s₁
          → EndsFinal batch
          → All (IsFrom s.meter_id round) batch
          → All (IsDue to) (bodies batch)
          → ((p : MessageBody → Bool)
              → ((query to : ℕ)
                  → p (MessageBody.overlay query to false false MessageBody.null) ≡ false)
              → count_if p (bodies batch) + count_if p waits
                ≡ count_if p s.waiting_messages + count_if p s.outgoing_messages)
          → (batch : List Transport) × IsBatch round s
              (send_overlay_message_batch env round s)
              batch
      made batch e final from due counted =
          let (effects, waiting, outgoing) = sent-fields env (send_batch batch to) to s₁ in
          (
            batch,
            record {
              goes = rw e effects;
              final = final;
              from = from;
              due = due;
              kept = rw (e, waiting) waits_on;
              cleared = rw e outgoing;
              counted = λ p null. rw (e, waiting) (counted p null);
            },
          )

      split :
          (ms : List MessageBody)
          → (split_waiting to s.waiting_messages).0 ++ (split_outgoing to s.outgoing_messages).0
            ≡ ms
          → (batch : List Transport) × IsBatch round s
              (send_overlay_message_batch env round s)
              batch
      split [] e =
          let query = get_current_query_num s in
          made (dummy s.meter_id round to query ∷ []) (rw (send_overlay_message_batch, e) refl) refl
            ((refl, refl), tt) ((==_iff to to).1 refl, tt)
            (λ p null.
              let nothing : count_if p (bodies (dummy s.meter_id round to query ∷ [])) ≡ 0 =
                rw (null (elim query [ none ↦ 0 | some n ↦ n ]) to) refl in
              omega (arith, total p [] e))
      split (m ∷ []) e =
          made (envelopes s.meter_id round (m ∷ [])) (rw (send_overlay_message_batch, e) refl) refl
            ((refl, refl), tt) (now_due (m ∷ []) e) (λ p null. total p (m ∷ []) e)
      split (m ∷ m' ∷ ms) e =
          let all = m ∷ m' ∷ ms in
          made (envelopes s.meter_id round all) (rw (send_overlay_message_batch, e) refl)
            (envelopes-EndsFinal s.meter_id round m (m' ∷ ms))
            (envelopes-IsFrom s.meter_id round all)
            (envelopes-IsDue to s.meter_id round all (now_due all e))
            (λ p null.
              ap (λ t. t + count_if p waits) (count_if-envelopes p s.meter_id round all)
              ∙ total p all e)
