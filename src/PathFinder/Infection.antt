-- ===== src/PathFinder/Infection.antt =====
-- The set of infected nodes, while a round infects more of them.
use mathlib.Core.List.{Memᴰ}
use mathlib.Core.List.Memᴰ
use pddm.Prelude.{
  ℕ, ◌+◌, ◌-◌, ◌≤◌, ◌<◌, ◌≡◌, ◌≢◌, refl, inl, inr, true, false, arith, List, [], ◌∷◌, contains,
  Bool-cases,
}
use pddm.Overlay.Gossip.{target}
use pddm.PathFinder.Defs.{
  InfectedNode, origin, infected_by, id, ids, infected_on_round, insert_node, insert_nodes,
}
use pddm.PathFinder.Routes.{IsSound, lineage}

module _ (n start source : ℕ) (exclude : List ℕ) (goal : ℕ) where
  -- The nodes are sound, were infected by `time`, and their ancestors are in the set.
  pub record IsInfected (time : ℕ) (set : List InfectedNode) (node : InfectedNode) : Type 0 where
    pub sound : IsSound n start source exclude goal node
    pub by_now : infected_on_round node ≤ time
    pub held : (j : ℕ) → contains (lineage node) j ≡ true → contains (ids set) j ≡ true

  abbrev pub AllInfected : ℕ → List InfectedNode → Type 0
  AllInfected time set = (node : InfectedNode) → Memᴰ node set → IsInfected time set node

  -- A node that the round `time` has reached from the set.
  abbrev pub IsReached : ℕ → List InfectedNode → InfectedNode → Type 0
  IsReached time set (origin i r) = ⊥
  IsReached time set (infected_by i r parent) =
      Memᴰ parent set
      × (r ≡ time + 1)
      × (infected_on_round parent < r)
      × (target (id parent) time n ≡ i)
      × (contains exclude i ≡ false)
      × (i ≢ goal)

  pub later_infected :
      (time : ℕ) (set : List InfectedNode) → AllInfected time set → AllInfected (time + 1) set
  later_infected time set all node m =
      let old = all node m in
      record { sound = old.sound; by_now = omega (arith, old.by_now); held = old.held }

  -- A reached node with a new id joins the set.
  joins :
      (time : ℕ) (set : List InfectedNode) (node : InfectedNode)
      → AllInfected (time + 1) set
      → IsReached time set node
      → contains (ids set) (id node) ≡ false
      → IsInfected (time + 1) (node ∷ set) node
  joins time set (origin i r) all reached fresh = absurd reached
  joins time set (infected_by i r parent) all (m, now, less, edge, unused, other) fresh =
      let known = all parent m in
      let edge' : target (id parent) (r - 1) n ≡ i =
        let e : r - 1 ≡ time = omega arith in rw e edge in
      record {
        sound = (known.sound, less, edge', unused, other, unrelated known);
        by_now = omega arith;
        held = λ j h. ground (arith, known.held j);
      }
    where
      unrelated : IsInfected (time + 1) set parent → contains (lineage parent) i ≡ false
      unrelated known = elim (Bool-cases (contains (lineage parent) i)) [
        | inl in_chain ↦ cc (known.held i in_chain)
        | inr out ↦ out
      ]

  stays :
      (time : ℕ) (set : List InfectedNode) (node other : InfectedNode)
      → IsInfected time set other
      → IsInfected time (node ∷ set) other
  stays time set node other old = record {
    sound = old.sound;
    by_now = old.by_now;
    held = λ j h. ground (arith, old.held j);
  }

  insert_node-mem :
      (node other : InfectedNode) (set : List InfectedNode)
      → Memᴰ other set
      → Memᴰ other (insert_node node set)
  unfolding insert_node
  insert_node-mem node other set m = elim (Bool-cases (contains (ids set) (id node))) [
    | inl old ↦ rw old m
    | inr new ↦ rw new (Memᴰ.tail m)
  ]

  insert_node-AllInfected :
      (time : ℕ) (set : List InfectedNode) (node : InfectedNode)
      → AllInfected (time + 1) set
      → IsReached time set node
      → AllInfected (time + 1) (insert_node node set)
  unfolding insert_node
  insert_node-AllInfected time set node all reached =
      elim (Bool-cases (contains (ids set) (id node))) [
        | inl old ↦ rw old all
        | inr new ↦ rw new (λ other m. elim (Memᴰ.cases_cons m) [
          | inl e ↦ rw e (joins time set node all reached new)
          | inr before ↦ stays (time + 1) set node other (all other before)
        ])
      ]

  IsReached-mono :
      (time : ℕ) (set set' : List InfectedNode) (node : InfectedNode)
      → ((x : InfectedNode) → Memᴰ x set → Memᴰ x set')
      → IsReached time set node
      → IsReached time set' node
  IsReached-mono time set set' (origin i r) grows reached = reached
  IsReached-mono time set set' (infected_by i r parent) grows (m, now, less, edge, unused, other) =
      (grows parent m, now, less, edge, unused, other)

  -- After the round's nodes are inserted, the set is one of infected nodes again.
  pub insert_nodes-AllInfected :
      (time : ℕ) (set new : List InfectedNode)
      → AllInfected (time + 1) set
      → ((node : InfectedNode) → Memᴰ node new → IsReached time set node)
      → AllInfected (time + 1) (insert_nodes new set)
  unfolding insert_nodes
  insert_nodes-AllInfected time set [] all reached = all
  insert_nodes-AllInfected time set (node ∷ new) all reached =
      insert_nodes-AllInfected time (insert_node node set) new
        (insert_node-AllInfected time set node all (reached node (Memᴰ.head refl)))
        (λ other m.
          IsReached-mono time set (insert_node node set) other (λ x. insert_node-mem node x set)
            (reached other (Memᴰ.tail m)))
