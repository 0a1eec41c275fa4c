-- ===== src/Protocol/Hft/Returns.antt =====
-- The ends of the rounds of HftProtocolState.cpp.
pub mod Handlers
use pddm.Prelude.{
  ℕ, suc, ◌+◌, ◌-◌, leb, leb→le, not_leb→lt, ◌≤◌, ◌<◌, ◌≡◌, ◌≢◌, refl, inl, inr, ◌⊎◌, arith,
  if◌then◌else◌, Bool, true, false, Bool-cases, Option, none, some, List, [], ◌∷◌, ◌++◌,
}
use pddm.Messages.Outcome.{Outcome, ok, undefined, out_of_fuel, ◌>>=◌}
use pddm.Messages.Ends.{Ends, Any, Ends-returns, bind-Ends, weaken-Ends}
use pddm.Protocol.{Environment, ProtocolState}
use pddm.Protocol.Round.{end_overlay_round}
use pddm.Protocol.Returns.{end_overlay_round-Ends}
use pddm.Protocol.Returns.Stages
use pddm.Protocol.Returns.Stages.{Stage, first_over, first_on, second_on, outside-After}
use pddm.Protocol.Returns.Bounds.{IsLeft, IsLast, Within, After, IsBounded}
use pddm.Protocol.Hft.{
  HftProtocolPhase, HftProtocolState, MessageSets, State, is_in_overlay_phase, phase_rounds,
  send_floods, end_phase, end_overlay_round_impl, subclass,
}
use pddm.Protocol.Hft.Returns.Handlers.{
  stage, rounds_left, InTime, Next, handle_overlay_message_impl-Ends, send_aggregate_if_done-Ends,
}

module _ (env : Environment) where
  abbrev length_of : ℕ → ℕ
  length_of log2n = log2n + env.failures_tolerated

  abbrev start_of : HftProtocolState → ℕ
  start_of p = p.gather_start_round

  abbrev Few : ℕ → State → Stage → Type 0
  Few = Stages.Few length_of stage start_of

  end_phase-Ends :
      (start_phase : State → Outcome State)
      → ((s : State) → Ends (IsLast (rounds_left env)) (start_phase s))
      → (b : ℕ) (s : State) → InTime env b s
      → Ends (Next env b) (end_phase env start_phase s)
  unfolding end_phase
  end_phase-Ends start_phase k b s h = go s.impl.protocol_phase refl
    where
      rounds : ℕ
      rounds = phase_rounds env s

      gathering : State
      gathering = record s {
        impl = record {
          protocol_phase = HftProtocolPhase.gather;
          gather_start_round = s.next_round - 1;
          current_flood_messages = s.impl.relay_messages;
          relay_messages = [];
        };
      }

      aggregating : State
      aggregating = record s {
        impl = record s.impl {
          protocol_phase = HftProtocolPhase.aggregate;
          current_flood_messages = [];
        };
      }

      scatter :
          s.impl.protocol_phase ≡ HftProtocolPhase.scatter
          → Ends (Next env b) (if leb (rounds + 1) s.next_round then ok gathering else ok s)
      scatter c =
          let few : Few b s Stage.first = rw c at h in
          elim (Bool-cases (leb (rounds + 1) s.next_round)) [
            | inl over ↦ rw over (
                first_over length_of stage start_of b s (leb→le (rounds + 1) s.next_round over) few)
            | inr before ↦
                rw (before, c)
                  (first_on length_of stage start_of b s
                    (not_leb→lt (rounds + 1) s.next_round before) few)
          ]

      gather :
          s.impl.protocol_phase ≡ HftProtocolPhase.gather
          → Ends (Next env b) (
              if leb (s.impl.gather_start_round + rounds + 1) s.next_round
              then start_phase aggregating
              else ok s)
      gather c =
          let few : Few b s Stage.second = rw c at h in
          elim (Bool-cases (leb (s.impl.gather_start_round + rounds + 1) s.next_round)) [
            | inl over ↦
                rw over (
                  weaken-Ends (IsLast (rounds_left env)) (Next env b) _ (k _) (λ s' last. inl last))
            | inr before ↦
                rw (before, c)
                  (second_on length_of stage start_of b s
                    (not_leb→lt (s.impl.gather_start_round + rounds + 1) s.next_round before) few)
          ]

      go :
          (p : HftProtocolPhase)
          → s.impl.protocol_phase ≡ p
          → Ends (Next env b) (elim p [
            | HftProtocolPhase.scatter ↦
                if leb (rounds + 1) s.next_round then ok gathering else ok s
            | HftProtocolPhase.gather ↦
                if leb (s.impl.gather_start_round + rounds + 1) s.next_round
                then start_phase aggregating
                else ok s
            | _ ↦ ok s
          ])
      go HftProtocolPhase.idle c = outside-After length_of stage start_of b s (rw c refl) h
      go HftProtocolPhase.scatter c = scatter c
      go HftProtocolPhase.gather c = gather c
      go HftProtocolPhase.aggregate c = outside-After length_of stage start_of b s (rw c refl) h

  module _ (sets : MessageSets) where
    -- The flood takes no round.
    flooded :
        (b : ℕ) (s : State) (flooding : Bool)
        → Next env b s
        → Next env b (if flooding then send_floods sets s else s)
    unfolding send_floods
    flooded b s true h = h
    flooded b s false h = h

    end_overlay_round_impl-Ends :
        (start_phase : State → Outcome State)
        → ((s : State) → Ends (IsLast (rounds_left env)) (start_phase s))
        → (b : ℕ) (s : State) → InTime env b s
        → Ends (Next env b) (end_overlay_round_impl env sets start_phase s)
    unfolding end_overlay_round_impl
    end_overlay_round_impl-Ends start_phase k b s h =
        bind-Ends (Next env b) (Next env b) (end_phase env start_phase s) _
          (end_phase-Ends start_phase k b s h)
          (λ s₁ h'. flooded b s₁ (is_in_overlay_phase s₁.impl) h')

    bounded : IsBounded (rounds_left env) (subclass env sets)
    unfolding subclass
    bounded = record {
      aggregates = send_aggregate_if_done-Ends env;
      handles = handle_overlay_message_impl-Ends env sets;
      ends = end_overlay_round_impl-Ends;
    }

    -- In the protocol that floods, while the scatter or the gather runs, the end of a round comes to an
    -- end, whatever the buffered messages make it handle, whatever meters are down, and however the
    -- sets of messages order them: fuel beyond the rounds left, which are at most two phases and two
    -- rounds at the start, never runs out.
    pub hft_round_returns :
        (fuel rounds : ℕ) (s : State)
        → rounds_left env s.log2n s.next_round s.impl ≡ some rounds
        → rounds < fuel
        → end_overlay_round env (subclass env sets) fuel s ≢ out_of_fuel
    hft_round_returns fuel rounds s e lt = Ends-returns (InTime env rounds) _ (
        end_overlay_round-Ends (rounds_left env) env (subclass env sets) bounded fuel rounds lt s
          (inr (rw e (omega arith))))
