-- ===== src/PathFinder/Disjoint.antt =====
-- The paths of `find_paths` together: their ends, and the nodes on the way.
use native.Mathlib.Decide.{ℕ_discrete}
use pddm.Prelude.{
  ℕ, ◌+◌, ◌*◌, ◌≤◌, ◌<◌, ◌≡◌, ◌≢◌, refl, ◌∙◌, ap, inl, inr, true, false, ◌||◌, ◌==◌, arith, List,
  [], ◌∷◌, ◌++◌, length, leb, contains, contains-insert_id, Bool-cases,
}
use pddm.Prelude.Log.{ceil_log2}
use pddm.Messages.Outcome.{ok, both_return}
use pddm.PathFinder.Defs.{
  InfectedNode, find_path, use_hops, find_another, pop_front, find_each, find_paths, set_of,
  min_path_length,
}
use pddm.PathFinder.Routes.{Route, IsSimple, AreFree}
use pddm.PathFinder.Search.{IsPath, KeepsMembers, find_path-IsPath}

-- A path without its last node.
abbrev pub inner : List ℕ → List ℕ
inner [] = []
inner (a ∷ []) = []
inner (a ∷ b ∷ rest) = a ∷ inner (b ∷ rest)

inner-append : (mids : List ℕ) (a : ℕ) → inner (mids ++ a ∷ []) ≡ mids
inner-append [] a = refl
inner-append (x ∷ []) a = refl
inner-append (x ∷ y ∷ rest) a = ap (◌∷◌ x) (inner-append (y ∷ rest) a)

-- None of the nodes is a node on the way of one of the paths.
abbrev pub NoneOnPaths : List ℕ → List (List ℕ) → Type 0
NoneOnPaths nodes [] = Unit {0}
NoneOnPaths nodes (q ∷ rest) =
    ((x : ℕ) → contains nodes x ≡ true → contains (inner q) x ≡ false) × NoneOnPaths nodes rest

-- The paths, one for each goal: a route from the source to the goal, whose nodes on the way are all
-- different, are not the source, are none of `used`, and are on no later path.
abbrev pub AreDisjointRoutes : (n start source last : ℕ) → List ℕ → List ℕ → List (List ℕ) → Type 0
AreDisjointRoutes n start source last used [] [] = Unit {0}
AreDisjointRoutes n start source last used (goal ∷ goals) (path ∷ paths) =
    (path ≡ inner path ++ goal ∷ [])
    × (goal < n)
    × Route n (start + 4) last source start path
    × IsSimple (source ∷ inner path)
    × ((x : ℕ) → contains (inner path) x ≡ true → contains used x ≡ false)
    × NoneOnPaths (inner path) paths
    × AreDisjointRoutes n start source last used goals paths
AreDisjointRoutes n start source last used _ _ = ⊥

use_hops-keeps :
    (source goal x : ℕ) (hops used : List ℕ)
    → contains used x ≡ true
    → contains (use_hops source goal hops used) x ≡ true
unfolding use_hops
use_hops-keeps source goal x [] used h = h
use_hops-keeps source goal x (hop ∷ rest) used h =
    use_hops-keeps source goal x rest _ (ground (arith, contains-insert_id hop x used))

use_hops-adds :
    (source goal x : ℕ) (hops used : List ℕ)
    → contains hops x ≡ true
    → x ≢ source
    → x ≢ goal
    → contains (use_hops source goal hops used) x ≡ true
unfolding use_hops
use_hops-adds source goal x [] used h s g = cc
use_hops-adds source goal x (hop ∷ rest) used h s g = elim (ℕ_discrete hop x) [
  | yes here ↦ use_hops-keeps source goal x rest _ (ground (arith, contains-insert_id hop x used))
  | no later ↦ use_hops-adds source goal x rest _ (ground arith) s g
]

contains-append : (x : ℕ) (xs ys : List ℕ) → contains xs x ≡ true → contains (xs ++ ys) x ≡ true
contains-append x [] ys h = cc
contains-append x (a ∷ xs) ys h = ground (arith, contains-append x xs ys)

free-mem :
    (exclude : List ℕ) (goal x : ℕ) (mids : List ℕ)
    → AreFree exclude goal mids
    → contains mids x ≡ true
    → (contains exclude x ≡ false) × (x ≢ goal)
free-mem exclude goal x [] free h = cc
free-mem exclude goal x (a ∷ mids) free h = elim (ℕ_discrete a x) [
  | yes here ↦ ground arith
  | no later ↦ free-mem exclude goal x mids free.2 (ground arith)
]

-- Paths that avoid the nodes of a set avoid those of a part of it.
AreDisjointRoutes-mono :
    (n start source last : ℕ) (used used' goals : List ℕ) (paths : List (List ℕ))
    → ((x : ℕ) → contains used x ≡ true → contains used' x ≡ true)
    → AreDisjointRoutes n start source last used' goals paths
    → AreDisjointRoutes n start source last used goals paths
AreDisjointRoutes-mono n start source last used used' [] [] sub r = r
AreDisjointRoutes-mono n start source last used used' [] (p ∷ paths) sub r = absurd r
AreDisjointRoutes-mono n start source last used used' (g ∷ goals) [] sub r = absurd r
AreDisjointRoutes-mono n start source last used used' (g ∷ goals) (p ∷ paths) sub
      (shape, valid, route, simple, avoids, none_on, rest) =
    (
      shape,
      valid,
      route,
      simple,
      λ x m. ground (arith, sub x, avoids x m),
      none_on,
      AreDisjointRoutes-mono n start source last used used' goals paths sub rest,
    )

used-NoneOnPaths :
    (n start source last : ℕ) (nodes used goals : List ℕ) (paths : List (List ℕ))
    → ((x : ℕ) → contains nodes x ≡ true → contains used x ≡ true)
    → AreDisjointRoutes n start source last used goals paths
    → NoneOnPaths nodes paths
used-NoneOnPaths n start source last nodes used [] [] sub r = tt
used-NoneOnPaths n start source last nodes used [] (p ∷ paths) sub r = absurd r
used-NoneOnPaths n start source last nodes used (g ∷ goals) [] sub r = absurd r
used-NoneOnPaths n start source last nodes used (g ∷ goals) (p ∷ paths) sub
      (shape, valid, route, simple, avoids, none_on, rest) =
    (
      λ x m. elim (Bool-cases (contains (inner p) x)) [
        | inl met ↦ cc (sub x m, avoids x met)
        | inr free ↦ free
      ],
      used-NoneOnPaths n start source last nodes used goals paths sub rest,
    )

module _ (order : List InfectedNode → List InfectedNode) (keeps : KeepsMembers order)
    (n start source last : ℕ) (begun : start ≤ last) where
  -- One path, and what it adds to the used nodes.
  find_another_lem :
      (goal : ℕ) (used path used' : List ℕ)
      → find_another order n start source goal last used ≡ ok (path, used')
      → (goal < n)
        × IsPath n start source used goal last path
        × (used' ≡ use_hops source goal path used)
  unfolding find_another
  find_another_lem goal used path used' h = elim (Bool-cases (leb n goal)) [
    | inl invalid ↦ cc (rw (invalid, find_another) at h)
    | inr valid ↦
        let (p, e, r) =
          both_return (find_path order n start source goal last used) _
            (rw (valid, find_another) at h) in
        let same : p ≡ path = ground arith in
        (
          ground arith,
          find_path-IsPath order keeps n start source used goal last path begun (rw same at e),
          ground arith,
        )
  ]

  -- A path in front of paths that avoid its nodes.
  prepend :
      (goal : ℕ) (used path used' goals : List ℕ) (paths : List (List ℕ))
      → goal < n
      → IsPath n start source used goal last path
      → used' ≡ use_hops source goal path used
      → AreDisjointRoutes n start source last used' goals paths
      → AreDisjointRoutes n start source last used (goal ∷ goals) (pop_front path ∷ paths)
  prepend goal used path used' goals paths valid (mids, t) grown rest =
      let way = inner-append mids goal in
      rw (t.shape, way)
        (
          refl,
          valid,
          t.route,
          t.simple,
          λ x m. (free-mem used goal x mids t.free m).0,
          used-NoneOnPaths n start source last mids used' goals paths adds rest,
          AreDisjointRoutes-mono n start source last used used' goals paths keeps_used rest,
        )
    where
      keeps_used : (x : ℕ) → contains used x ≡ true → contains used' x ≡ true
      keeps_used x m = rw grown (use_hops-keeps source goal x path used m)

      adds : (x : ℕ) → contains mids x ≡ true → contains used' x ≡ true
      adds x m =
          let other : x ≢ source = λ e. cc (rw e at m, t.simple.0) in
          let on_way : contains path x ≡ true =
            rw t.shape (ground (arith, contains-append x mids (goal ∷ []))) in
          rw grown (
            use_hops-adds source goal x path used on_way other
              (free-mem used goal x mids t.free m).1)

  find_each_lem :
      (goals used : List ℕ) (paths : List (List ℕ))
      → find_each order n start source last goals used ≡ ok paths
      → AreDisjointRoutes n start source last used goals paths
  unfolding find_each
  find_each_lem [] used paths h = let e : paths ≡ [] = ground arith in rw e tt
  find_each_lem (goal ∷ goals) used paths h =
      let ((path, used'), e, h') =
        both_return (find_another order n start source goal last used) _ h in
      let (rest, e', h'') = both_return (find_each order n start source last goals used') _ h' in
      let same : paths ≡ pop_front path ∷ rest = ground arith in
      let (valid, is_path, grown) = find_another_lem goal used path used' e in
      rw same (
        prepend goal used path used' goals rest valid is_path grown
          (find_each_lem goals used' rest e'))

contains-set_of : (x : ℕ) (goals : List ℕ) → contains (set_of goals) x ≡ contains goals x
unfolding set_of
contains-set_of x [] = refl
contains-set_of x (g ∷ goals) =
    contains-insert_id g x (set_of goals) ∙ ap (◌||◌ (g == x)) (contains-set_of x goals)

-- Whenever `find_paths` returns, in whatever order it runs through its sets, it has a path for each
-- target, in the order of the targets: a route from the source to the target that starts in
-- `start_round` and arrives after at least four rounds and within the limit on rounds. The nodes on
-- the way of a path are all different, are neither the source nor any target, and are on no other of
-- the paths.
pub find_paths-disjoint :
    (order : List InfectedNode → List InfectedNode) (source : ℕ) (targets : List ℕ) (n start : ℕ)
    (paths : List (List ℕ))
    → KeepsMembers order
    → find_paths order source targets n start ≡ ok paths
    → AreDisjointRoutes n start source
        (start + (ceil_log2 n * length targets + min_path_length))
        targets
        targets
        paths
unfolding find_paths
find_paths-disjoint order source targets n start paths keeps h =
    AreDisjointRoutes-mono n start source _ targets (set_of targets) targets paths
      (λ x m. contains-set_of x targets ∙ m)
      (find_each_lem order keeps n start source _ (omega arith) targets (set_of targets) paths h)
