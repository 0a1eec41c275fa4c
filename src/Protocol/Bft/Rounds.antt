-- ===== src/Protocol/Bft/Rounds.antt =====
-- How many rounds a query in the Byzantine protocol has left.
use pddm.Prelude.{
  ℕ, suc, ◌+◌, ◌-◌, ◌*◌, ◌≤◌, ◌<◌, ◌≡◌, arith, Bool, true, false, Option, none, some,
}
use pddm.Protocol.{Environment}
use pddm.Protocol.Returns.Bounds.{IsLeft}
use pddm.Agreement.{CrusaderAgreementState}
use pddm.Protocol.Bft.{BftProtocolPhase, BftProtocolState}

abbrev pub is_finished : Option CrusaderAgreementState → Bool
is_finished none = false
is_finished (some agreed) = agreed.phase_1_finished

-- By the number of rounds of a phase of the agreement, the phase of the protocol, the agreement's start
-- and whether its first phase is over, and the next round.
abbrev pub left_in : ℕ → BftProtocolPhase → ℕ → Bool → ℕ → Option ℕ
left_in rounds BftProtocolPhase.idle start finished next = none
left_in rounds BftProtocolPhase.setup start finished next = none
left_in rounds BftProtocolPhase.shuffle start finished next =
    some (rounds + 1 - next + (2 * rounds + 2))
left_in rounds BftProtocolPhase.agreement start true next = some (start + 2 * rounds + 1 - next)
left_in rounds BftProtocolPhase.agreement start false next =
    some (start + rounds + 1 - next + (rounds + 1))
left_in rounds BftProtocolPhase.aggregate start finished next = none

abbrev pub rounds_left : Environment → ℕ → ℕ → BftProtocolState → Option ℕ
rounds_left env log2n next p =
    left_in (2 * env.failures_tolerated + log2n * log2n + 1) p.protocol_phase
      p.agreement_start_round (is_finished p.agreement_phase_state) next

-- That the next round has fewer rounds left than the bound.
abbrev pub IsLess : ℕ → Option ℕ → Type 0
IsLess b left = (c : ℕ) × (b ≡ suc c) × IsLeft c left

module _ (rounds start next b : ℕ) where
  pub shuffle_ends :
      (finished : Bool)
      → rounds + 1 ≤ next
      → IsLeft b (left_in rounds BftProtocolPhase.shuffle start finished next)
      → IsLess b (left_in rounds BftProtocolPhase.agreement (next - 1) finished (next + 1))
  shuffle_ends true over few = (b - 1, omega arith, omega arith)
  shuffle_ends false over few = (b - 1, omega arith, omega arith)

  pub shuffle_goes_on :
      (finished : Bool)
      → next < rounds + 1
      → IsLeft b (left_in rounds BftProtocolPhase.shuffle start finished next)
      → IsLess b (left_in rounds BftProtocolPhase.shuffle start finished (next + 1))
  shuffle_goes_on finished before few = (b - 1, omega arith, omega arith)

  pub phase_1_ends :
      start + rounds + 1 ≤ next
      → IsLeft b (left_in rounds BftProtocolPhase.agreement start false next)
      → IsLess b (left_in rounds BftProtocolPhase.agreement start true (next + 1))
  phase_1_ends over few = (b - 1, omega arith, omega arith)

  pub phase_1_goes_on :
      next < start + rounds + 1
      → IsLeft b (left_in rounds BftProtocolPhase.agreement start false next)
      → IsLess b (left_in rounds BftProtocolPhase.agreement start false (next + 1))
  phase_1_goes_on before few = (b - 1, omega arith, omega arith)

  pub phase_2_goes_on :
      next < start + 2 * rounds + 1
      → IsLeft b (left_in rounds BftProtocolPhase.agreement start true next)
      → IsLess b (left_in rounds BftProtocolPhase.agreement start true (next + 1))
  phase_2_goes_on before few = (b - 1, omega arith, omega arith)

pub whole_query : (rounds next : ℕ) → rounds + 1 - next + (2 * rounds + 2) ≤ 3 * rounds + 3
whole_query rounds next = omega arith
