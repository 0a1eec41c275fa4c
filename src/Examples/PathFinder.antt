-- ===== src/Examples/PathFinder.antt =====
-- Two node-disjoint paths among eleven nodes.
use pddm.Prelude.{◌+◌, ◌*◌, ◌≡◌, refl, [], ◌∷◌}
use pddm.Prelude.Log.{ceil_log2}
use pddm.Overlay.ModPow.{mod_pow}
use pddm.Overlay.Gossip.{target}
use pddm.Messages.Outcome.{ok}
use pddm.PathFinder.Defs.{find_paths, min_path_length}
use pddm.PathFinder.Disjoint.{AreDisjointRoutes, find_paths-disjoint}

pub two_paths : find_paths (λ l. l) 0 (7 ∷ 9 ∷ []) 11 0 ≡ ok ((2 ∷ 7 ∷ []) ∷ (1 ∷ 9 ∷ []) ∷ [])
unfolding find_paths ceil_log2 target mod_pow
two_paths = refl

find_paths-disjoint_example :
    AreDisjointRoutes 11 0 0
      (0 + (ceil_log2 11 * 2 + min_path_length))
      (7 ∷ 9 ∷ [])
      (7 ∷ 9 ∷ [])
      ((2 ∷ 7 ∷ []) ∷ (1 ∷ 9 ∷ []) ∷ [])
find_paths-disjoint_example =
    find_paths-disjoint (λ l. l) 0 (7 ∷ 9 ∷ []) 11 0 ((2 ∷ 7 ∷ []) ∷ (1 ∷ 9 ∷ []) ∷ [])
      (λ set x m. m) two_paths
