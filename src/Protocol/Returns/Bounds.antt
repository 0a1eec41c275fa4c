-- ===== src/Protocol/Returns/Bounds.antt =====
-- Bounds on the rounds that are left.
use pddm.Prelude.{
  ℕ, suc, ◌+◌, ◌≤◌, ◌≡◌, ◌⊎◌, inl, inr, arith, if◌then◌else◌, Bool, true, false, Option, none, some,
  List, [], ◌∷◌, ◌++◌, length, contains,
}
use pddm.Messages.Outcome.{Outcome}
use pddm.Messages.Ends.{Ends, Any}
use pddm.Overlay.Gossip.{target}
use pddm.Protocol.{
  Transport, Environment, ProtocolState, Effect, send_batch, get_current_query_num, sent,
}
use pddm.Protocol.Batch.{
  envelopes, split_waiting, split_outgoing, dummy, send_overlay_message_batch,
}
use pddm.Protocol.Round.{Subclass, ping_predecessor}

-- At most `bound` rounds are left, of a number that is unknown outside of the overlay.
abbrev pub IsLeft : ℕ → Option ℕ → Type 0
IsLeft bound none = ⊥
IsLeft bound (some rounds) = rounds ≤ bound

IsLeft-mono : (b c : ℕ) (left : Option ℕ) → b ≤ c → IsLeft b left → IsLeft c left
IsLeft-mono b c none le h = h
IsLeft-mono b c (some rounds) le h = omega arith

-- `left` has the rounds that are left, by log2n, the next round, and the subclass's own state.
module _ {Impl : Type 0} (left : ℕ → ℕ → Impl → Option ℕ) where
  abbrev pub IsLast : ProtocolState Impl → Type 0
  IsLast s = s.is_last_round ≡ true

  -- The last round is over, or the rounds left are within a bound.
  abbrev pub Within : ℕ → ProtocolState Impl → Type 0
  Within bound s = IsLast s ⊎ IsLeft bound (left s.log2n s.next_round s.impl)

  -- After the subclass's part: the next round, if there is one, has a smaller bound.
  abbrev pub After : ℕ → ProtocolState Impl → Type 0
  After bound s =
      IsLast s ⊎ ((c : ℕ) × (bound ≡ suc c) × IsLeft c (left s.log2n (s.next_round + 1) s.impl))

  -- A subclass whose rounds are bounded by `left`.
  pub record IsBounded (sub : Subclass Impl) : Type 0 where
    pub aggregates : (s : ProtocolState Impl) → Ends Any (sub.send_aggregate_if_done s)
    pub handles :
        (again : ProtocolState Impl → Outcome (ProtocolState Impl)) (bound : ℕ)
        → ((s : ProtocolState Impl) → Within bound s → Ends (Within bound) (again s))
        → (m : Transport) (s : ProtocolState Impl) → Within bound s
        → Ends (Within bound) (sub.handle_overlay_message_impl again s m)
    pub ends :
        (start : ProtocolState Impl → Outcome (ProtocolState Impl))
        → ((s : ProtocolState Impl) → Ends IsLast (start s))
        → (bound : ℕ) (s : ProtocolState Impl) → Within bound s
        → Ends (After bound) (sub.end_overlay_round_impl start s)

  pub Within-mono : (b c : ℕ) (s : ProtocolState Impl) → b ≤ c → Within b s → Within c s
  Within-mono b c s le (inl last) = inl last
  Within-mono b c s le (inr few) = inr (IsLeft-mono b c _ le few)

  pub either-Within :
      (c : ℕ) (b : Bool) (s s' : ProtocolState Impl)
      → Within c s
      → Within c s'
      → Within c (if b then s else s')
  either-Within c true s s' h h' = h
  either-Within c false s s' h h' = h'

  sent-Within :
      (env : Environment) (c : ℕ) (effect : Effect) (to : ℕ) (s : ProtocolState Impl)
      → Within c s
      → Within c (sent env effect to s)
  sent-Within env c effect to s h = either-Within c (env.reaches (length s.effects) to) _ _ h h

  pub batch-Within :
      (env : Environment) (c round : ℕ) (s : ProtocolState Impl)
      → Within c s
      → Within c (send_overlay_message_batch env round s)
  unfolding send_overlay_message_batch
  batch-Within env c round s h = go (
      envelopes s.meter_id round
        ((split_waiting to s.waiting_messages).0 ++ (split_outgoing to s.outgoing_messages).0))
    where
      to : ℕ
      to = target s.meter_id round s.num_meters

      s₁ : ProtocolState Impl
      s₁ = record s {
        waiting_messages =
            (split_waiting to s.waiting_messages).1 ++ (split_outgoing to s.outgoing_messages).1;
        outgoing_messages = [];
      }

      go :
          (batch : List Transport)
          → Within c (elim batch [
            | [] ↦
                sent env
                  (send_batch (dummy s.meter_id round to (get_current_query_num s) ∷ []) to)
                  to
                  s₁
            | first ∷ rest ↦ sent env (send_batch (first ∷ rest) to) to s₁
          ])
      go [] = sent-Within env c _ to s₁ h
      go (first ∷ rest) = sent-Within env c _ to s₁ h

  pub ping_predecessor-Within :
      (env : Environment) (sub : Subclass Impl) (c meter : ℕ) (s : ProtocolState Impl)
      → Within c s
      → Within c (ping_predecessor env sub meter s)
  unfolding ping_predecessor
  ping_predecessor-Within env sub c meter s h =
      either-Within c (contains s.failed_meter_ids meter) s _ h (sent-Within env c _ meter s h)
