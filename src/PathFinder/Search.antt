-- ===== src/PathFinder/Search.antt =====
-- A path of `find_path` as a route.
use mathlib.Core.List.{Memᴰ}
use mathlib.Core.List.Memᴰ
use pddm.Prelude.{
  ℕ, zero, suc, ◌+◌, ◌-◌, ◌≤◌, ◌<◌, ◌≡◌, ◌≢◌, refl, ap, inl, inr, Bool, true, false, not, ◌&&◌,
  ◌==◌, arith, List, [], ◌∷◌, contains, ltb, if◌then◌else◌, Bool-cases, ==_iff,
}
use pddm.Overlay.Gossip.{target}
use pddm.Messages.Outcome.{Outcome, ok}
use pddm.PathFinder.Defs.{
  InfectedNode, origin, infected_by, id, ids, infected_on_round, insert_node, insert_nodes, trace,
  Sweep, found, spread, sweep, infect_rounds, find_path, min_path_length,
}
use pddm.PathFinder.Routes.{arrived, hop, IsTrace, trace-IsTrace}
use pddm.PathFinder.Infection.{
  IsInfected, AllInfected, IsReached, later_infected, insert_nodes-AllInfected,
}

-- A path from the source to the goal: its hops are a route that starts in round `start` and takes
-- at least `min_path_length` rounds more than one, and the nodes between are free, and all distinct.
abbrev pub IsPath : (n start source : ℕ) (exclude : List ℕ) (goal last : ℕ) → List ℕ → Type 0
IsPath n start source exclude goal last path =
    (mids : List ℕ) × IsTrace n start source exclude goal (start + 4) last path mids (goal ∷ [])

-- `order` yields the elements of a set in some order.
abbrev pub KeepsMembers : (List InfectedNode → List InfectedNode) → Type 0
KeepsMembers order = (set : List InfectedNode) (x : InfectedNode) → Memᴰ x (order set) → Memᴰ x set

-- The three tests of a sweep, and what holds where each of the four branches is taken.
sweep_cases :
    (P : Sweep → Type 0) (used at_goal early : Bool) (skip path infect : Sweep)
    → P skip
    → (at_goal ≡ true → early ≡ false → P path)
    → (used ≡ false → at_goal ≡ false → P infect)
    → P (
        if used && not at_goal
        then skip
        else if at_goal && early
        then skip
        else if at_goal
        then path
        else infect)
sweep_cases P true false early skip path infect s p i = s
sweep_cases P false false early skip path infect s p i = i refl refl
sweep_cases P true true true skip path infect s p i = s
sweep_cases P true true false skip path infect s p i = p refl refl
sweep_cases P false true true skip path infect s p i = s
sweep_cases P false true false skip path infect s p i = p refl refl

sweep_outcome :
    (P : Type 0) (path : List ℕ) (IsGood : Sweep → Type 0)
    (continue : List InfectedNode → Outcome (List ℕ)) (outcome : Sweep)
    → IsGood outcome
    → ((path' : List ℕ) → IsGood (found path') → path' ≡ path → P)
    → ((new : List InfectedNode) → IsGood (spread new) → continue new ≡ ok path → P)
    → (elim outcome as (λ _. Outcome (List ℕ)) [ found p ↦ ok p | spread new ↦ continue new ])
      ≡ ok path
    → P
sweep_outcome P path IsGood continue (found path') good at_end on h =
    at_end path' good (ground arith)
sweep_outcome P path IsGood continue (spread new) good at_end on h = on new good h

module _ (order : List InfectedNode → List InfectedNode) (keeps : KeepsMembers order)
    (n start source : ℕ) (exclude : List ℕ) (goal last : ℕ) where
  abbrev SweepIsGood : ℕ → List InfectedNode → Sweep → Type 0
  SweepIsGood time set (found path) = IsPath n start source exclude goal last path
  SweepIsGood time set (spread new) =
      (node : InfectedNode) → Memᴰ node new → IsReached n start source exclude goal time set node

  found-IsPath :
      (time : ℕ) (set : List InfectedNode) (node : InfectedNode)
      → start + 3 ≤ time
      → time < last
      → IsInfected n start source exclude goal time set node
      → target (id node) time n ≡ goal
      → IsPath n start source exclude goal last (trace node (goal ∷ []))
  found-IsPath time set node long within known edge =
      trace-IsTrace n start source exclude goal (start + 4) last node [] (goal ∷ []) known.sound
        (omega (arith, known.by_now)) (hop time known.by_now within edge (arrived (omega arith))) tt
        tt (λ j h. refl)

  -- A node that one more edge reaches may join the new ones.
  reaches :
      (time : ℕ) (set : List InfectedNode) (node : InfectedNode) (new : List InfectedNode)
      (end_id : ℕ)
      → Memᴰ node set
      → infected_on_round node < time + 1
      → target (id node) time n ≡ end_id
      → contains exclude end_id ≡ false
      → end_id ≢ goal
      → ((x : InfectedNode) → Memᴰ x new → IsReached n start source exclude goal time set x)
      → (x : InfectedNode) → Memᴰ x (insert_node (infected_by end_id (time + 1) node) new)
      → IsReached n start source exclude goal time set x
  unfolding insert_node
  reaches time set node new end_id m less edge unused other reached =
      elim (Bool-cases (contains (ids new) end_id)) [
        | inl old ↦ rw old reached
        | inr fresh ↦ rw fresh (λ x e. elim (Memᴰ.cases_cons e) [
          | inl same ↦ rw same (m, refl, less, edge, unused, other)
          | inr before ↦ reached x before
        ])
      ]

  sweep-IsGood :
      (time : ℕ) (set nodes new : List InfectedNode)
      → start ≤ time
      → time < last
      → AllInfected n start source exclude goal time set
      → ((node : InfectedNode) → Memᴰ node nodes → Memᴰ node set)
      → ((node : InfectedNode)
          → Memᴰ node new
          → IsReached n start source exclude goal time set node)
      → SweepIsGood time set (sweep order n start goal time exclude nodes new)
  unfolding sweep
  sweep-IsGood time set [] new s l all sub reached = reached
  sweep-IsGood time set (node ∷ rest) new s l all sub reached =
      let end_id = target (id node) time n in
      let in_rest = λ (x : InfectedNode) (m : Memᴰ x rest). sub x (Memᴰ.tail m) in
      let known = all node (sub node (Memᴰ.head refl)) in
      sweep_cases (SweepIsGood time set) (contains exclude end_id) (end_id == goal)
        (ltb (time - start) min_path_length) (sweep order n start goal time exclude rest new) _
        (sweep order n start goal time exclude rest
          (insert_node (infected_by end_id (time + 1) node) new))
        (sweep-IsGood time set rest new s l all in_rest reached)
        (λ at_goal late.
          let same : end_id ≡ goal = (==_iff _ _).0 at_goal in
          rw (ap (λ e. trace node (e ∷ [])) same)
            (found-IsPath time set node (ground arith) l known same))
        (λ unused elsewhere.
          sweep-IsGood time set rest (insert_node (infected_by end_id (time + 1) node) new) s l all
            in_rest
            (reaches time set node new end_id (sub node (Memᴰ.head refl))
              (omega (arith, known.by_now)) refl unused (ground arith) reached))

  rounds-IsPath :
      (rounds time : ℕ) (set : List InfectedNode) (path : List ℕ)
      → start ≤ time
      → rounds + time ≡ last
      → AllInfected n start source exclude goal time set
      → infect_rounds order n start rounds goal time exclude set ≡ ok path
      → IsPath n start source exclude goal last path
  unfolding infect_rounds
  rounds-IsPath zero time set path s e all h = cc
  rounds-IsPath (suc rounds) time set path s e all h =
      sweep_outcome (IsPath n start source exclude goal last path) path (SweepIsGood time set)
        (λ new.
          infect_rounds order n start rounds goal (time + 1) exclude (insert_nodes (order new) set))
        (sweep order n start goal time exclude (order set) [])
        (sweep-IsGood time set (order set) [] s (omega arith) all (keeps set)
          (λ x m. absurd (Memᴰ.not-nil m)))
        (λ path' good same. rw same at good)
        (λ new good more.
          rounds-IsPath rounds (time + 1) (insert_nodes (order new) set) path (omega arith)
            (omega arith)
            (insert_nodes-AllInfected n start source exclude goal time set (order new)
              (later_infected n start source exclude goal time set all)
              (λ x m. good x (keeps new x m)))
            more)
        h

  -- The path that `find_path` returns, if it returns one, runs from the source to the target.
  pub find_path-IsPath :
      (path : List ℕ)
      → start ≤ last
      → find_path order n start source goal last exclude ≡ ok path
      → IsPath n start source exclude goal last path
  unfolding find_path
  find_path-IsPath path s h =
      rounds-IsPath (last - start) start (origin source start ∷ []) path (omega arith) (omega arith)
        (λ x m.
          rw (Memᴰ.eq_of_singleton m)
            (record { sound = (refl, refl); by_now = omega arith; held = λ j e. e }))
        h
