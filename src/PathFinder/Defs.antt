-- ===== src/PathFinder/Defs.antt =====
-- util/PathFinder.cpp: `InfectedNode`, `find_path`, `find_another` and `find_paths`.
--
-- The iteration order of a std::unordered_set is not specified: it is the argument `order`.
use pddm.Prelude.{
  ℕ, zero, suc, ◌+◌, ◌-◌, ◌*◌, ltb, leb, ◌==◌, if◌then◌else◌, not, ◌&&◌, List, [], ◌∷◌, map, length,
  contains, insert_id,
}
use pddm.Prelude.Log.{ceil_log2}
use pddm.Messages.Outcome.{Outcome, ok, invalid_node, no_path, ◌>>=◌}
use pddm.Overlay.Gossip.{target}

abbrev pub min_path_length : ℕ
min_path_length = 3

-- A node's id, the round of its infection, and its parent. The source has a null parent.
pub data InfectedNode : Type 0 where
  origin : ℕ → ℕ → InfectedNode
  infected_by : ℕ → ℕ → InfectedNode → InfectedNode

abbrev pub id : InfectedNode → ℕ
id (origin i r) = i
id (infected_by i r parent) = i

abbrev pub infected_on_round : InfectedNode → ℕ
infected_on_round (origin i r) = r
infected_on_round (infected_by i r parent) = r

abbrev pub ids : List InfectedNode → List ℕ
ids = map id

-- Two nodes with one id are equal, so an insertion never replaces a node.
unfoldable pub insert_node : InfectedNode → List InfectedNode → List InfectedNode
insert_node node set = if contains (ids set) (id node) then set else node ∷ set

-- `infected.insert(begin, end)`.
unfoldable pub insert_nodes : List InfectedNode → List InfectedNode → List InfectedNode
unfolding insert_node
insert_nodes [] set = set
insert_nodes (node ∷ rest) set = insert_nodes rest (insert_node node set)

-- The `while` loop over the parent pointers, which pushes each id to the front of the path.
unfoldable pub trace : InfectedNode → List ℕ → List ℕ
trace (origin i r) path = i ∷ path
trace (infected_by i r parent) path = trace parent (i ∷ path)

-- What a round comes to: a path, or the nodes that are newly infected.
pub data Sweep : Type 0 where
  found : List ℕ → Sweep
  spread : List InfectedNode → Sweep

-- `used_nodes.insert(hop)` for each hop but the two ends.
unfoldable pub use_hops : ℕ → ℕ → List ℕ → List ℕ → List ℕ
use_hops source goal [] used = used
use_hops source goal (hop ∷ rest) used =
    use_hops source goal rest
      (if not (hop == source) && not (hop == goal) then insert_id hop used else used)

-- `paths[i].pop_front()`.
abbrev pub pop_front : List ℕ → List ℕ
pop_front [] = []
pop_front (hop ∷ rest) = rest

module _ (order : List InfectedNode → List InfectedNode) (n start : ℕ) where
  -- The `for` loop over the infected nodes, in the round `time`.
  unfoldable pub sweep : ℕ → ℕ → List ℕ → List InfectedNode → List InfectedNode → Sweep
  unfolding insert_node trace
  sweep goal time exclude [] new = spread new
  sweep goal time exclude (node ∷ rest) new =
      let end_id = target (id node) time n in
      let end_pt = infected_by end_id (time + 1) node in
      let skip = sweep goal time exclude rest new in
      let infect = sweep goal time exclude rest (insert_node end_pt new) in
      if contains exclude end_id && not (end_id == goal)
      then skip
      else if end_id == goal && ltb (time - start) min_path_length
      then skip
      else if end_id == goal
      then found (trace node (end_id ∷ []))
      else infect

  -- The `for` loop over the rounds that are left. It should not finish if the target can be reached.
  unfoldable pub infect_rounds : ℕ → ℕ → ℕ → List ℕ → List InfectedNode → Outcome (List ℕ)
  unfolding insert_nodes sweep
  infect_rounds zero goal time exclude infected = no_path
  infect_rounds (suc rounds) goal time exclude infected =
      elim (sweep goal time exclude (order infected) []) [
        | found path ↦ ok path
        | spread new ↦
            infect_rounds rounds goal (time + 1) exclude (insert_nodes (order new) infected)
      ]

  unfoldable pub find_path : ℕ → ℕ → ℕ → List ℕ → Outcome (List ℕ)
  unfolding infect_rounds
  find_path source goal max_round exclude =
      infect_rounds (max_round - start) goal start exclude (origin source start ∷ [])

  -- The path and the nodes used from then on.
  unfoldable pub find_another : ℕ → ℕ → ℕ → List ℕ → Outcome (List ℕ × List ℕ)
  unfolding find_path use_hops
  find_another source goal max_round used =
      if leb n goal
      then invalid_node
      else do path ← find_path source goal max_round used; ok (path, use_hops source goal path used)

  -- The loop of `find_paths`, over the targets that are left.
  unfoldable pub find_each : ℕ → ℕ → List ℕ → List ℕ → Outcome (List (List ℕ))
  unfolding find_another
  find_each source max_round [] used = ok []
  find_each source max_round (goal ∷ goals) used = do
    (path, used') ← find_another source goal max_round used
    paths ← find_each source max_round goals used'
    ok (pop_front path ∷ paths)

-- `set<int> used_nodes(target_ids.begin(), target_ids.end())`.
unfoldable pub set_of : List ℕ → List ℕ
set_of [] = []
set_of (a ∷ rest) = insert_id a (set_of rest)

unfoldable pub find_paths :
    (List InfectedNode → List InfectedNode) → ℕ → List ℕ → ℕ → ℕ → Outcome (List (List ℕ))
unfolding find_each set_of
find_paths order source_id target_ids num_nodes start_round =
    let rounds_limit = ceil_log2 num_nodes * length target_ids + min_path_length in
    find_each order num_nodes start_round source_id (start_round + rounds_limit) target_ids
      (set_of target_ids)
