-- ===== src/Protocol/Hft/Floods/Sent.antt =====
-- What the start of a round, in ProtocolState_impl.h, does with outgoing messages that are flooded.
use mathlib.Core.List.{Memᴰ}
use mathlib.Core.List.Memᴰ
use mathlib.Core.Path.{subst}
use pddm.Prelude.{
  ℕ, ◌+◌, ◌≡◌, refl, sym, ◌||◌, if◌then◌else◌, Bool, true, false, Bool-cases, inl, inr, List, [],
  ◌∷◌, ◌++◌, length, contains,
}
use pddm.Messages.Body.{MessageBody}
use pddm.Overlay.Gossip.{target, predecessor}
use pddm.Protocol.{
  Transport, Environment, ProtocolState, Effect, send_batch, send_ping, sent, set_round_timer,
  get_current_query_num,
}
use pddm.Protocol.Batch.{
  is_for, floods, split_waiting, split_outgoing, envelopes, dummy, send_overlay_message_batch,
}
use pddm.Protocol.Batch.Conserve.{bodies, envelopes-bodies}
use pddm.Protocol.Round.{Subclass, enter_round, ping_predecessor}

split-flooded :
    (to : ℕ) (m : MessageBody) (ms : List MessageBody)
    → floods m ≡ true
    → Memᴰ m ms
    → Memᴰ m (split_outgoing to ms).0
unfolding split_outgoing
split-flooded to m [] flag inside = absurd (Memᴰ.not-nil inside)
split-flooded to m (x ∷ xs) flag inside = elim (Bool-cases (floods x || is_for to x)) [
  | inl now ↦ rw now (elim (Memᴰ.cases_cons inside) [
    | inl same ↦ Memᴰ.head same
    | inr later ↦ Memᴰ.tail (split-flooded to m xs flag later)
  ])
  | inr held ↦ rw held (elim (Memᴰ.cases_cons inside) [
    | inl same ↦ let bad : ⊥ = cc in elim bad [ ]
    | inr later ↦ split-flooded to m xs flag later
  ])
]

module _ {Impl : Type 0} (env : Environment) where
  -- The envelopes of the messages that go out in a round, or of a message without a payload.
  filled : ℕ → ProtocolState Impl → List Transport → List Transport
  filled round s [] =
      dummy s.meter_id round (target s.meter_id round s.num_meters) (get_current_query_num s) ∷ []
  filled round s (first ∷ rest) = first ∷ rest

  due : ℕ → ProtocolState Impl → List MessageBody
  due round s =
      let to = target s.meter_id round s.num_meters in
      (split_waiting to s.waiting_messages).0 ++ (split_outgoing to s.outgoing_messages).0

  batch_of : ℕ → ProtocolState Impl → List Transport
  batch_of round s = filled round s (envelopes s.meter_id round (due round s))

  sent-effects :
      (effect : Effect) (to : ℕ) (s : ProtocolState Impl)
      → (sent env effect to s).effects ≡ effect ∷ s.effects
  sent-effects effect to s = elim (Bool-cases (env.reaches (length s.effects) to)) [
    | inl up ↦ rw up refl
    | inr down ↦ rw down refl
  ]

  batch-effects :
      (round : ℕ) (s : ProtocolState Impl)
      → (send_overlay_message_batch env round s).effects
        ≡ send_batch (batch_of round s) (target s.meter_id round s.num_meters) ∷ s.effects
  unfolding send_overlay_message_batch batch_of filled due
  batch-effects round s = go (envelopes s.meter_id round (due round s)) refl
    where
      to : ℕ
      to = target s.meter_id round s.num_meters

      s₁ : ProtocolState Impl
      s₁ = record s {
        waiting_messages =
            (split_waiting to s.waiting_messages).1 ++ (split_outgoing to s.outgoing_messages).1;
        outgoing_messages = [];
      }

      go :
          (sealed : List Transport)
          → envelopes s.meter_id round (due round s) ≡ sealed
          → (send_overlay_message_batch env round s).effects
            ≡ send_batch (filled round s sealed) (target s.meter_id round s.num_meters) ∷ s.effects
      go [] e = rw (send_overlay_message_batch, e) (sent-effects _ to s₁)
      go (first ∷ rest) e = rw (send_overlay_message_batch, e) (sent-effects _ to s₁)

  either :
      (b : Bool) (effect : Effect) (s s' : ProtocolState Impl)
      → Memᴰ effect s.effects
      → Memᴰ effect s'.effects
      → Memᴰ effect (if b then s else s').effects
  either true effect s s' h k = h
  either false effect s s' h k = k

  ping-keeps :
      (sub : Subclass Impl) (meter : ℕ) (effect : Effect) (s : ProtocolState Impl)
      → Memᴰ effect s.effects
      → Memᴰ effect (ping_predecessor env sub meter s).effects
  unfolding ping_predecessor
  ping-keeps sub meter effect s there =
      either (contains s.failed_meter_ids meter) effect s (sent env (send_ping false meter) meter s)
        there
        (subst (λ es. Memᴰ effect es) (sym (sent-effects (send_ping false meter) meter s))
          (Memᴰ.tail there))

  -- The batch that a round starts with is sent, and has all outgoing messages that are to be flooded.
  pub enter_round-floods :
      (sub : Subclass Impl) (s : ProtocolState Impl)
      → (batch : List Transport) × Memᴰ
          (send_batch batch (target s.meter_id s.next_round s.num_meters))
          (enter_round env sub s).effects
        × ((m : MessageBody) → Memᴰ m s.outgoing_messages → floods m ≡ true → Memᴰ m (bodies batch))
  unfolding enter_round ping_predecessor batch_of filled due
  enter_round-floods sub s = (batch_of round s₁, goes, has)
    where
      round : ℕ
      round = s.next_round

      s₁ : ProtocolState Impl
      s₁ = record s { next_round = round + 1; ping_response_from_predecessor = false }

      to : ℕ
      to = target s.meter_id round s.num_meters

      first :
          Memᴰ
            (send_batch (batch_of round s₁) to)
            (set_round_timer (send_overlay_message_batch env round s₁)).effects
      first = rw (batch-effects round s₁) (Memᴰ.tail (Memᴰ.head refl))

      goes : Memᴰ (send_batch (batch_of round s₁) to) (enter_round env sub s).effects
      goes =
          ping-keeps sub (predecessor s.meter_id round s.num_meters) _
            (set_round_timer (send_overlay_message_batch env round s₁)) first

      held :
          (m : MessageBody) (sealed : List Transport)
          → bodies sealed ≡ due round s₁
          → Memᴰ m (due round s₁)
          → Memᴰ m (bodies (filled round s₁ sealed))
      held m [] e inside = let bad : Memᴰ m [] = rw e inside in absurd (Memᴰ.not-nil bad)
      held m (x ∷ xs) e inside = rw e inside

      has :
          (m : MessageBody)
          → Memᴰ m s.outgoing_messages
          → floods m ≡ true
          → Memᴰ m (bodies (batch_of round s₁))
      has m inside flag =
          held m (envelopes s.meter_id round (due round s₁))
            (envelopes-bodies s.meter_id round (due round s₁))
            (Memᴰ.append_right (split_waiting to s.waiting_messages).0
              (split-flooded to m s.outgoing_messages flag inside))
