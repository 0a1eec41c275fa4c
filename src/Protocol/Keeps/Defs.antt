-- ===== src/Protocol/Keeps/Defs.antt =====
-- A property of a meter's contribution and its proxy values, and the operations that keep it.
use pddm.Prelude.{
  ℕ, ◌≡◌, if◌then◌else◌, Bool, true, false, Option, List, [], ◌∷◌, ◌++◌, length, contains,
}
use pddm.Messages.{ValueTuple, ValueContribution}
use pddm.Messages.Outcome.{Outcome, ok}
use pddm.Overlay.Gossip.{target}
use pddm.Protocol.{
  Transport, Environment, ProtocolState, Effect, send_batch, get_current_query_num, sent,
}
use pddm.Protocol.Batch.{
  envelopes, split_waiting, split_outgoing, dummy, send_overlay_message_batch,
}
use pddm.Protocol.Round.{Subclass, ping_predecessor}

module _ {Impl : Type 0} (Q : Option ValueTuple → List ValueContribution → Type 0) where
  -- The property of the two fields.
  abbrev pub Holds : ProtocolState Impl → Type 0
  Holds s = Q s.my_contribution s.proxy_values

  -- An operation after which it still holds, if it returns.
  abbrev pub Keeps : (ProtocolState Impl → Outcome (ProtocolState Impl)) → Type 0
  Keeps f = (s s' : ProtocolState Impl) → f s ≡ ok s' → Holds s → Holds s'

  -- A subclass that keeps it.
  pub record IsKeeping (sub : Subclass Impl) : Type 0 where
    pub aggregates : Keeps sub.send_aggregate_if_done
    pub handles :
        (again : ProtocolState Impl → Outcome (ProtocolState Impl))
        → Keeps again
        → (m : Transport) → Keeps (λ s. sub.handle_overlay_message_impl again s m)
    pub ends :
        (start : ProtocolState Impl → Outcome (ProtocolState Impl))
        → Keeps start
        → Keeps (sub.end_overlay_round_impl start)

  pub either-Holds :
      (b : Bool) (s s' : ProtocolState Impl) → Holds s → Holds s' → Holds (if b then s else s')
  either-Holds true s s' h h' = h
  either-Holds false s s' h h' = h'

  pub sent-Holds :
      (env : Environment) (effect : Effect) (to : ℕ) (s : ProtocolState Impl)
      → Holds s
      → Holds (sent env effect to s)
  sent-Holds env effect to s h = either-Holds (env.reaches (length s.effects) to) _ _ h h

  pub batch-Holds :
      (env : Environment) (round : ℕ) (s : ProtocolState Impl)
      → Holds s
      → Holds (send_overlay_message_batch env round s)
  unfolding send_overlay_message_batch
  batch-Holds env round s h = go (
      envelopes s.meter_id round
        ((split_waiting to s.waiting_messages).0 ++ (split_outgoing to s.outgoing_messages).0))
    where
      to : ℕ
      to = target s.meter_id round s.num_meters

      s₁ : ProtocolState Impl
      s₁ = record s {
        waiting_messages =
            (split_waiting to s.waiting_messages).1 ++ (split_outgoing to s.outgoing_messages).1;
        outgoing_messages = [];
      }

      go :
          (batch : List Transport)
          → Holds (elim batch [
            | [] ↦
                sent env
                  (send_batch (dummy s.meter_id round to (get_current_query_num s) ∷ []) to)
                  to
                  s₁
            | first ∷ rest ↦ sent env (send_batch (first ∷ rest) to) to s₁
          ])
      go [] = sent-Holds env _ to s₁ h
      go (first ∷ rest) = sent-Holds env _ to s₁ h

  pub ok-Holds : (s s' : ProtocolState Impl) → ok s ≡ ok s' → Holds s → Holds s'
  ok-Holds s s' e h = let same : s ≡ s' = cc in rw same at h

  pub ping_predecessor-Holds :
      (env : Environment) (sub : Subclass Impl) (meter : ℕ) (s : ProtocolState Impl)
      → Holds s
      → Holds (ping_predecessor env sub meter s)
  unfolding ping_predecessor
  ping_predecessor-Holds env sub meter s h =
      either-Holds (contains s.failed_meter_ids meter) s _ h (sent-Holds env _ meter s h)
