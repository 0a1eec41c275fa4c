-- ===== src/Protocol/Hft/Floods.antt =====
-- The messages that HftProtocolState.cpp floods, over a round.
pub mod Sent
use mathlib.Core.List.{Memᴰ}
use mathlib.Core.List.Memᴰ
use pddm.Prelude.{
  ℕ, ◌+◌, leb, ◌<◌, ◌≡◌, ◌↔◌, refl, ap, ◌∙◌, ◌-◌, if◌then◌else◌, true, false, Bool-cases, inl, inr,
  arith, List, [], ◌∷◌,
}
use pddm.Messages.Outcome.{Outcome, ok, ◌>>=◌}
use pddm.Messages.Body.{MessageBody}
use pddm.Overlay.Gossip.{target}
use pddm.Protocol.{Transport, Environment, send_batch, cancel_round_timer}
use pddm.Protocol.Batch.{floods}
use pddm.Protocol.Batch.Conserve.{bodies}
use pddm.Protocol.Round.{enter_round}
use pddm.Protocol.Hft.Floods.Sent.{enter_round-floods}
use pddm.Protocol.Hft.{
  HftProtocolPhase, MessageSets, State, is_in_overlay_phase, phase_rounds, arrives_at,
  still_flooding, send_floods, end_phase, end_overlay_round_impl, subclass,
}

-- What floods on is what does not arrive.
still_flooding_iff :
    (meter : ℕ) (m : MessageBody) (ms : List MessageBody)
    → Memᴰ m (still_flooding meter ms) ↔ (Memᴰ m ms × (arrives_at meter m ≡ false))
unfolding still_flooding
still_flooding_iff meter m [] =
    (λ h. elim (Memᴰ.not-nil h) [ ], λ (h, e). elim (Memᴰ.not-nil h) [ ])
still_flooding_iff meter m (x ∷ xs) =
    let (on, off) = still_flooding_iff meter m xs in
    elim (Bool-cases (arrives_at meter x)) [
      | inl arrived ↦ rw arrived (
        λ h. let (there, e) = on h in (Memᴰ.tail there, e),
        λ (h, e). elim (Memᴰ.cases_cons h) [
          | inl same ↦ let absurd : ⊥ = cc in elim absurd [ ]
          | inr there ↦ off (there, e)
        ],
      )
      | inr going ↦ rw going (
        λ h. elim (Memᴰ.cases_cons h) [
          | inl same ↦ (Memᴰ.head same, rw same going)
          | inr there ↦ let (there', e) = on there in (Memᴰ.tail there', e)
        ],
        λ (h, e). elim (Memᴰ.cases_cons h) [
          | inl same ↦ Memᴰ.head same
          | inr there ↦ Memᴰ.tail (off (there, e))
        ],
      )
    ]

-- The scatter or the gather goes on after the round.
abbrev pub GoesOn : Environment → State → Type 0
GoesOn env s = elim s.impl.protocol_phase [
  | HftProtocolPhase.scatter ↦ s.next_round < phase_rounds env s + 1
  | HftProtocolPhase.gather ↦ s.next_round < s.impl.gather_start_round + phase_rounds env s + 1
  | _ ↦ ⊥
]

module _ (env : Environment) (sets : MessageSets) (start_phase : State → Outcome State) where
  phase-GoesOn : (s : State) → GoesOn env s → end_phase env start_phase s ≡ ok s
  unfolding end_phase
  phase-GoesOn s h = go s.impl.protocol_phase refl
    where
      gathering : State
      gathering = record s {
        impl = record {
          protocol_phase = HftProtocolPhase.gather;
          gather_start_round = s.next_round - 1;
          current_flood_messages = s.impl.relay_messages;
          relay_messages = [];
        };
      }

      aggregating : State
      aggregating = record s {
        impl = record s.impl {
          protocol_phase = HftProtocolPhase.aggregate;
          current_flood_messages = [];
        };
      }

      go :
          (p : HftProtocolPhase)
          → s.impl.protocol_phase ≡ p
          → (elim p [
            | HftProtocolPhase.scatter ↦
                if leb (phase_rounds env s + 1) s.next_round then ok gathering else ok s
            | HftProtocolPhase.gather ↦
                if leb (s.impl.gather_start_round + phase_rounds env s + 1) s.next_round
                then start_phase aggregating
                else ok s
            | _ ↦ ok s
          ])
            ≡ ok s
      go HftProtocolPhase.idle c = refl
      go HftProtocolPhase.scatter c =
          let before : s.next_round < phase_rounds env s + 1 = rw c at h in
          let e : leb (phase_rounds env s + 1) s.next_round ≡ false = ground arith in rw e
      go HftProtocolPhase.gather c =
          let before : s.next_round < s.impl.gather_start_round + phase_rounds env s + 1 =
            rw c at h in
          let e : leb (s.impl.gather_start_round + phase_rounds env s + 1) s.next_round ≡ false =
            ground arith in
          rw e
      go HftProtocolPhase.aggregate c = refl

  overlay-GoesOn : (s : State) → GoesOn env s → is_in_overlay_phase s.impl ≡ true
  overlay-GoesOn s h = go s.impl.protocol_phase refl
    where
      go : (p : HftProtocolPhase) → s.impl.protocol_phase ≡ p → is_in_overlay_phase s.impl ≡ true
      go HftProtocolPhase.idle c = let absurd : ⊥ = rw c at h in elim absurd [ ]
      go HftProtocolPhase.scatter c = rw c refl
      go HftProtocolPhase.gather c = rw c refl
      go HftProtocolPhase.aggregate c = let absurd : ⊥ = rw c at h in elim absurd [ ]

  round-GoesOn :
      (s : State)
      → GoesOn env s
      → end_overlay_round_impl env sets start_phase s ≡ ok (send_floods sets s)
  unfolding end_overlay_round_impl
  round-GoesOn s h =
      ap
        (λ (r : Outcome State).
          r >>= (λ s₁. ok (if is_in_overlay_phase s₁.impl then send_floods sets s₁ else s₁)))
        (phase-GoesOn s h)
      ∙ ap (λ flooding. ok (if flooding then send_floods sets s else s)) (overlay-GoesOn s h)

  -- While the scatter or the gather goes on, and all messages that the meter floods have the flag for
  -- it: the end of a round returns, and the start of the next one sends a batch to its target that has
  -- every message that the meter floods; and the meter goes on to flood exactly those of them that the
  -- target is not the destination of, in whatever order the set of messages has them.
  pub floods_until_arrival :
      (s : State)
      → GoesOn env s
      → ((m : MessageBody) → Memᴰ m s.impl.current_flood_messages → floods m ≡ true)
      → let to = target s.meter_id s.next_round s.num_meters in
        (s' : State) × (batch : List Transport) × (end_overlay_round_impl env sets start_phase s
          ≡ ok s')
        × Memᴰ
            (send_batch batch to)
            (enter_round env (subclass env sets) (cancel_round_timer s')).effects
        × ((m : MessageBody)
            → Memᴰ m s.impl.current_flood_messages
            → Memᴰ m (bodies batch)
              × (Memᴰ m s'.impl.current_flood_messages ↔ (arrives_at to m ≡ false)))
  unfolding send_floods
  floods_until_arrival s h flags =
      let to = target s.meter_id s.next_round s.num_meters in
      let s' = send_floods sets s in
      let (batch, goes, has) = enter_round-floods env (subclass env sets) (cancel_round_timer s') in
      (
        s',
        batch,
        round-GoesOn s h,
        goes,
        λ m flooded.
            let sent = (sets.mem-order m s.impl.current_flood_messages).1 flooded in
            let (on, off) = still_flooding_iff to m (sets.order s.impl.current_flood_messages) in
            (
              has m (Memᴰ.append_right s.outgoing_messages sent) (flags m flooded),
              (λ still. (on still).1, λ elsewhere. off (sent, elsewhere)),
            ),
      )
