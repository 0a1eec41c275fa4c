-- ===== src/PathFinder/Routes.antt =====
-- Routes through the gossip graph, and the route that a chain of parents describes.
use pddm.Prelude.{
  ℕ, ◌+◌, ◌-◌, ◌≤◌, ◌<◌, ◌≡◌, ◌≢◌, true, false, arith, List, [], ◌∷◌, ◌++◌, contains,
}
use pddm.Overlay.Gossip.{target}
use pddm.PathFinder.Defs.{InfectedNode, origin, infected_by, id, infected_on_round, trace}

-- The hops of a message that leaves `node` in round `time` or later: each hop is the gossip target
-- of the node before it, in a round after that of the hop before it. The rounds lie below `last`,
-- and the message is there from round `earliest` on, or later.
pub data Route (n earliest last : ℕ) : ℕ → ℕ → List ℕ → Type 0 where
  arrived : {node time : ℕ} → earliest ≤ time → Route n earliest last node time []
  hop :
      {node time next : ℕ} {rest : List ℕ} (round : ℕ)
      → time ≤ round
      → round < last
      → target node round n ≡ next
      → Route n earliest last next (round + 1) rest
      → Route n earliest last node time (next ∷ rest)

-- No id stands twice in the list.
abbrev pub IsSimple : List ℕ → Type 0
IsSimple [] = Unit {0}
IsSimple (a ∷ rest) = (contains rest a ≡ false) × IsSimple rest

-- The nodes of a path may be used: they are not excluded, and the goal is not among them.
abbrev pub AreFree : List ℕ → ℕ → List ℕ → Type 0
AreFree exclude goal [] = Unit {0}
AreFree exclude goal (a ∷ rest) =
    (contains exclude a ≡ false) × (a ≢ goal) × AreFree exclude goal rest

-- The ids of the ancestors of a node, itself included, the source last.
abbrev pub lineage : InfectedNode → List ℕ
lineage (origin i r) = i ∷ []
lineage (infected_by i r parent) = i ∷ lineage parent

-- What the search keeps true of an infected node.
abbrev pub IsSound : ℕ → ℕ → ℕ → List ℕ → ℕ → InfectedNode → Type 0
IsSound n start source exclude goal (origin i r) = (i ≡ source) × (r ≡ start)
IsSound n start source exclude goal (infected_by i r parent) =
    IsSound n start source exclude goal parent
    × (infected_on_round parent < r)
    × (target (id parent) (r - 1) n ≡ i)
    × (contains exclude i ≡ false)
    × (i ≢ goal)
    × (contains (lineage parent) i ≡ false)

-- The path that `trace` builds from a sound node, in front of what is there already.
pub record IsTrace (n start source : ℕ) (exclude : List ℕ) (goal earliest last : ℕ)
    (path mids rest : List ℕ) : Type 0 where
  pub shape : path ≡ source ∷ mids ++ rest
  pub route : Route n earliest last source start (mids ++ rest)
  pub free : AreFree exclude goal mids
  pub simple : IsSimple (source ∷ mids)

module _ (n start source : ℕ) (exclude : List ℕ) (goal earliest last : ℕ) where
  -- The ids already in the path are not those of the chain that is still to come.
  abbrev AvoidsLineage : InfectedNode → List ℕ → Type 0
  AvoidsLineage node mids = (j : ℕ) → contains (lineage node) j ≡ true → contains mids j ≡ false

  avoids_parent :
      (i r : ℕ) (parent : InfectedNode) (mids : List ℕ)
      → contains (lineage parent) i ≡ false
      → AvoidsLineage (infected_by i r parent) mids
      → AvoidsLineage parent (i ∷ mids)
  avoids_parent i r parent mids fresh avoids j h = ground (arith, avoids j)

  avoids_self :
      (i r : ℕ) (parent : InfectedNode) (mids : List ℕ)
      → AvoidsLineage (infected_by i r parent) mids
      → contains mids i ≡ false
  avoids_self i r parent mids avoids = avoids i (ground arith)

  pub trace-IsTrace :
      (node : InfectedNode) (mids rest : List ℕ)
      → IsSound n start source exclude goal node
      → infected_on_round node ≤ last
      → Route n earliest last (id node) (infected_on_round node) (mids ++ rest)
      → AreFree exclude goal mids
      → IsSimple mids
      → AvoidsLineage node mids
      → (all : List ℕ) × IsTrace n start source exclude goal earliest last
          (trace node (mids ++ rest))
          all
          rest
  unfolding trace
  trace-IsTrace (origin i r) mids rest (same, begun) bound route free simple avoids = (
    mids,
    record {
      shape = rw same;
      route = rw (same, begun) at route;
      free = free;
      simple = (rw same at (avoids i (ground arith)), simple);
    },
  )
  trace-IsTrace (infected_by i r parent) mids rest sound bound route free simple avoids =
      let (sound', later, edge, unused, other, fresh) = sound in
      let again : r ≡ r - 1 + 1 = omega arith in
      trace-IsTrace parent (i ∷ mids) rest sound' (omega arith)
        (hop (r - 1) (omega arith) (omega arith) edge (rw again at route)) (unused, other, free)
        (avoids_self i r parent mids avoids, simple) (avoids_parent i r parent mids fresh avoids)
