-- ===== src/Protocol/Bft/Returns/Phases.antt =====
-- The rounds left by BftProtocolState.cpp, over the ends of its rounds.
use pddm.Prelude.{
  ℕ, ◌+◌, ◌-◌, ◌*◌, leb, ◌≡◌, refl, ◌⊎◌, inl, inr, if◌then◌else◌, Bool, true, false, Bool-cases,
  Option, none, some, List, [], ◌∷◌, ◌++◌, leb→le, not_leb→lt, &&-false_right,
}
use pddm.Messages.{ValueContribution}
use pddm.Messages.Outcome.{Outcome, ok, undefined, ◌>>=◌}
use pddm.Messages.Ends.{Ends, Any, bind-Ends, weaken-Ends}
use pddm.Messages.Body.{MessageBody}
use pddm.Messages.Multicast.{multicast}
use pddm.Agreement.{CrusaderAgreementState, finish_phase_1}
use pddm.Protocol.{Environment, get_current_query_num}
use pddm.Protocol.Returns.Bounds.{IsLeft, IsLast, After}
use pddm.Protocol.Returns.Steps.{multicast-Ends, finish_phase_1-Ends}
use pddm.Protocol.Bft.Rounds.{
  IsLess, is_finished, left_in, rounds_left, shuffle_ends, shuffle_goes_on, phase_1_ends,
  phase_1_goes_on, phase_2_goes_on,
}
use pddm.Protocol.Bft.{
  BftProtocolPhase, State, phase_rounds, signed_values, end_agreement_round, end_shuffle_round,
  end_agreement_phase, end_overlay_round_impl,
}
use pddm.Protocol.Bft.Returns.Handlers.{InTime}

map_right : {A B C : Type 0} → A ⊎ B → (B → C) → A ⊎ C
map_right (inl a) f = inl a
map_right (inr b) f = inr (f b)

module _ (env : Environment) where
  signed_values-Ends :
      (s : State) (values : List ValueContribution) → Ends Any (signed_values env s values)
  unfolding signed_values
  signed_values-Ends s [] = tt
  signed_values-Ends s (v ∷ rest) = go (get_current_query_num s) (signed_values-Ends s rest)
    where
      go :
          (num : Option ℕ)
          → Ends Any (signed_values env s rest)
          → Ends Any (elim num [
            | none ↦ undefined
            | some query_num ↦
                multicast env.crypto env.order query_num s.meter_id s.num_meters s.next_round
                  v.value.proxies
                  (MessageBody.signed_value (record {
                    value = v;
                    signatures = (s.meter_id, env.crypto.sign_contribution v) ∷ [];
                  }))
                >>= (λ first. signed_values env s rest >>= (λ later. ok (first ++ later)))
          ])
      go none h = tt
      go (some query_num) h =
          bind-Ends Any Any _ _
            (multicast-Ends env.crypto env.order query_num s.meter_id s.num_meters s.next_round
              v.value.proxies _)
            (λ first h'. bind-Ends Any Any (signed_values env s rest) _ h (λ later h''. tt))

  abbrev Next : ℕ → State → Type 0
  Next = After (rounds_left env)

  -- The states after which fewer rounds are left, by the parts of the state that matter.
  abbrev Fewer : ℕ → State → BftProtocolPhase → ℕ → Bool → Type 0
  Fewer b s phase start finished =
      IsLast (rounds_left env) s
      ⊎ IsLess b (left_in (phase_rounds env s) phase start finished (s.next_round + 1))

  abbrev Few : ℕ → State → BftProtocolPhase → Bool → Type 0
  Few b s phase finished =
      IsLast (rounds_left env) s
      ⊎ IsLeft b
          (left_in (phase_rounds env s) phase s.impl.agreement_start_round finished s.next_round)

  shuffle_end-Ends :
      (b : ℕ) (s : State)
      → s.impl.protocol_phase ≡ BftProtocolPhase.shuffle
      → InTime env b s
      → Ends (Next b) (end_shuffle_round env s)
  unfolding end_shuffle_round
  shuffle_end-Ends b s c h =
      let rounds = phase_rounds env s in
      let start = s.impl.agreement_start_round in
      let finished = is_finished s.impl.agreement_phase_state in
      let few : Few b s BftProtocolPhase.shuffle finished = rw c at h in
      elim (Bool-cases (leb (rounds + 1) s.next_round)) [
        | inl over ↦
            let fewer : Fewer b s BftProtocolPhase.agreement (s.next_round - 1) finished =
              map_right few (
                shuffle_ends rounds start s.next_round b finished
                  (leb→le (rounds + 1) s.next_round over)) in
            rw over (
              bind-Ends Any (Next b) (signed_values env s s.proxy_values) _
                (signed_values-Ends s s.proxy_values) (λ messages h'. fewer))
        | inr before ↦
            let fewer : Fewer b s BftProtocolPhase.shuffle start finished = map_right few (
              shuffle_goes_on rounds start s.next_round b finished
                (not_leb→lt (rounds + 1) s.next_round before)) in
            rw (before, c) fewer
      ]

  phase_2-Ends :
      (start_phase : State → Outcome State)
      → ((s : State) → Ends (IsLast (rounds_left env)) (start_phase s))
      → (b : ℕ) (s : State) (agreed : CrusaderAgreementState)
      → s.impl.protocol_phase ≡ BftProtocolPhase.agreement
      → s.impl.agreement_phase_state ≡ some agreed
      → agreed.phase_1_finished ≡ true
      → InTime env b s
      → Ends (Next b) (end_agreement_round env start_phase s agreed)
  unfolding end_agreement_round
  phase_2-Ends start_phase k b s agreed c a f h =
      let rounds = phase_rounds env s in
      let start = s.impl.agreement_start_round in
      let few : Few b s BftProtocolPhase.agreement true = rw (c, a, f) at h in
      elim (Bool-cases (leb (start + 2 * rounds + 1) s.next_round)) [
        | inl over ↦
            rw (over, f)
              (weaken-Ends (IsLast (rounds_left env)) (Next b) _ (k _) (λ s' last. inl last))
        | inr before ↦
            let fewer : Fewer b s BftProtocolPhase.agreement start true = map_right few (
              phase_2_goes_on rounds start s.next_round b
                (not_leb→lt (start + 2 * rounds + 1) s.next_round before)) in
            rw (before, f, &&-false_right, c, a, f) fewer
      ]

  phase_1-Ends :
      (start_phase : State → Outcome State)
      → (b : ℕ) (s : State) (agreed : CrusaderAgreementState)
      → s.impl.protocol_phase ≡ BftProtocolPhase.agreement
      → s.impl.agreement_phase_state ≡ some agreed
      → agreed.phase_1_finished ≡ false
      → InTime env b s
      → Ends (Next b) (end_agreement_round env start_phase s agreed)
  unfolding end_agreement_round finish_phase_1
  phase_1-Ends start_phase b s agreed c a f h =
      let rounds = phase_rounds env s in
      let start = s.impl.agreement_start_round in
      let few : Few b s BftProtocolPhase.agreement false = rw (c, a, f) at h in
      elim (Bool-cases (leb (start + rounds + 1) s.next_round)) [
        | inl over ↦
            let fewer : Fewer b s BftProtocolPhase.agreement start true = map_right few (
              phase_1_ends rounds start s.next_round b
                (leb→le (start + rounds + 1) s.next_round over)) in
            rw (f, &&-false_right, over)
              (bind-Ends (λ r. r.0.phase_1_finished ≡ true) (Next b)
                (finish_phase_1 env.crypto env.order agreed (s.next_round - 1)) _
                (finish_phase_1-Ends env.crypto env.order agreed (s.next_round - 1))
                (λ r f'. rw (c, f') fewer))
        | inr before ↦
            let fewer : Fewer b s BftProtocolPhase.agreement start false = map_right few (
              phase_1_goes_on rounds start s.next_round b
                (not_leb→lt (start + rounds + 1) s.next_round before)) in
            rw (f, &&-false_right, before, c, a, f) fewer
      ]

  agreement_end-Ends :
      (start_phase : State → Outcome State)
      → ((s : State) → Ends (IsLast (rounds_left env)) (start_phase s))
      → (b : ℕ) (s : State) → s.impl.protocol_phase ≡ BftProtocolPhase.agreement
      → InTime env b s
      → Ends (Next b) (end_agreement_phase env start_phase s)
  unfolding end_agreement_phase
  agreement_end-Ends start_phase k b s c h = go s.impl.agreement_phase_state refl
    where
      rounds : ℕ
      rounds = phase_rounds env s

      start : ℕ
      start = s.impl.agreement_start_round

      without :
          s.impl.agreement_phase_state ≡ none
          → Ends (Next b) (if leb (start + rounds + 1) s.next_round then undefined else ok s)
      without a =
          let few : Few b s BftProtocolPhase.agreement false = rw (c, a) at h in
          elim (Bool-cases (leb (start + rounds + 1) s.next_round)) [
            | inl over ↦ rw over tt
            | inr before ↦
                let fewer : Fewer b s BftProtocolPhase.agreement start false = map_right few (
                  phase_1_goes_on rounds start s.next_round b
                    (not_leb→lt (start + rounds + 1) s.next_round before)) in
                rw (before, c, a) fewer
          ]

      go :
          (agreed : Option CrusaderAgreementState)
          → s.impl.agreement_phase_state ≡ agreed
          → Ends (Next b) (elim agreed [
            | none ↦ if leb (start + rounds + 1) s.next_round then undefined else ok s
            | some agreed ↦ end_agreement_round env start_phase s agreed
          ])
      go none a = without a
      go (some agreed) a = elim (Bool-cases agreed.phase_1_finished) [
        | inl f ↦ phase_2-Ends start_phase k b s agreed c a f h
        | inr f ↦ phase_1-Ends start_phase b s agreed c a f h
      ]

  outside :
      (b : ℕ) (s : State)
      → left_in
          (phase_rounds env s)
          s.impl.protocol_phase
          s.impl.agreement_start_round
          (is_finished s.impl.agreement_phase_state)
          s.next_round
        ≡ none
      → InTime env b s
      → Next b s
  outside b s none_left (inl last) = inl last
  outside b s none_left (inr few) = let absurd : ⊥ = rw none_left at few in elim absurd [ ]

  pub end_overlay_round_impl-Ends :
      (start_phase : State → Outcome State)
      → ((s : State) → Ends (IsLast (rounds_left env)) (start_phase s))
      → (b : ℕ) (s : State) → InTime env b s
      → Ends (Next b) (end_overlay_round_impl env start_phase s)
  unfolding end_overlay_round_impl
  end_overlay_round_impl-Ends start_phase k b s h = go s.impl.protocol_phase refl
    where
      go :
          (p : BftProtocolPhase)
          → s.impl.protocol_phase ≡ p
          → Ends (Next b) (elim p [
            | BftProtocolPhase.shuffle ↦ end_shuffle_round env s
            | BftProtocolPhase.agreement ↦ end_agreement_phase env start_phase s
            | _ ↦ ok s
          ])
      go BftProtocolPhase.idle c = outside b s (rw c refl) h
      go BftProtocolPhase.setup c = outside b s (rw c refl) h
      go BftProtocolPhase.shuffle c = shuffle_end-Ends b s c h
      go BftProtocolPhase.agreement c = agreement_end-Ends start_phase k b s c h
      go BftProtocolPhase.aggregate c = outside b s (rw c refl) h
