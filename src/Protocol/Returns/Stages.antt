-- ===== src/Protocol/Returns/Stages.antt =====
-- The rounds left of a protocol with two stages of the same length, as CtProtocolState.cpp and
-- HftProtocolState.cpp have.
use pddm.Prelude.{ℕ, suc, ◌+◌, ◌-◌, ◌≤◌, ◌<◌, ◌≡◌, ◌⊎◌, inl, inr, arith, Option, none, some}
use pddm.Protocol.{ProtocolState}
use pddm.Protocol.Returns.Bounds.{IsLeft, IsLast, Within, After}

pub data Stage : Type 0 where
  outside first second : Stage

-- By the number of rounds of a stage, the stage, the second one's start, and the next round.
abbrev pub left_in : ℕ → Stage → ℕ → ℕ → Option ℕ
left_in rounds outside start next = none
left_in rounds first start next = some (rounds + 1 - next + (rounds + 1))
left_in rounds second start next = some (start + rounds + 1 - next)

-- The rounds of a stage by log2n, the stage that a subclass's own state is in, and the start of the
-- second stage.
module _ {Impl : Type 0} (rounds : ℕ → ℕ) (stage : Impl → Stage) (start : Impl → ℕ) where
  abbrev pub staged : ℕ → ℕ → Impl → Option ℕ
  staged log2n next p = left_in (rounds log2n) (stage p) (start p) next

  -- Fewer rounds are left if the next round's stage is the given one, started at `from`.
  abbrev pub Fewer : ℕ → ProtocolState Impl → Stage → ℕ → Type 0
  Fewer b s at from =
      IsLast staged s
      ⊎ ((c : ℕ) × (b ≡ suc c) × IsLeft c (left_in (rounds s.log2n) at from (s.next_round + 1)))

  abbrev pub Few : ℕ → ProtocolState Impl → Stage → Type 0
  Few b s at = IsLast staged s ⊎ IsLeft b (left_in (rounds s.log2n) at (start s.impl) s.next_round)

  pub first_over :
      (b : ℕ) (s : ProtocolState Impl)
      → rounds s.log2n + 1 ≤ s.next_round
      → Few b s first
      → Fewer b s second (s.next_round - 1)
  first_over b s over (inl last) = inl last
  first_over b s over (inr few) = inr (b - 1, omega arith, omega arith)

  pub first_on :
      (b : ℕ) (s : ProtocolState Impl)
      → s.next_round < rounds s.log2n + 1
      → Few b s first
      → Fewer b s first (start s.impl)
  first_on b s before (inl last) = inl last
  first_on b s before (inr few) = inr (b - 1, omega arith, omega arith)

  pub second_on :
      (b : ℕ) (s : ProtocolState Impl)
      → s.next_round < start s.impl + rounds s.log2n + 1
      → Few b s second
      → Fewer b s second (start s.impl)
  second_on b s before (inl last) = inl last
  second_on b s before (inr few) = inr (b - 1, omega arith, omega arith)

  -- Outside the stages, only the last round is within a bound.
  pub outside-After :
      (b : ℕ) (s : ProtocolState Impl)
      → staged s.log2n s.next_round s.impl ≡ none
      → Within staged b s
      → After staged b s
  outside-After b s none_left (inl last) = inl last
  outside-After b s none_left (inr few) = let absurd : ⊥ = rw none_left at few in elim absurd [ ]
