-- ===== src/Overlay/Proxies.antt =====
-- util/Overlay.cpp, `random_int_exclude` and `pick_proxies`, over a source of randomness.
pub mod Correct
use pddm.Prelude.{
  ℕ, zero, suc, ◌+◌, ◌-◌, ◌*◌, ◌≤◌, ltb, leb, ◌==◌, if◌then◌else◌, ◌&&◌, List, [], ◌∷◌, ◌++◌,
}
use pddm.Overlay.Groups.{standard_group_size, second_last_group_size}

-- std::mt19937 with std::uniform_int_distribution: a draw lies between its two bounds, inclusive.
pub record Uniform : Type 1 where
  pub Engine : Type 0
  pub draw : ℕ → ℕ → Engine → ℕ × Engine
  pub draw_low : (low high : ℕ) (e : Engine) → low ≤ high → low ≤ (draw low high e).0
  pub draw_high : (low high : ℕ) (e : Engine) → low ≤ high → (draw low high e).0 ≤ high

module _ (u : Uniform) where
  open u use {Engine, draw}

  -- What a call of `pick_proxies` does: it returns the proxies, throws std::runtime_error, or, with
  -- less than two groups, writes in front of the vector.
  pub data Picked : Type 0 where
    picked : List ℕ → Engine → Picked
    too_many_groups out_of_bounds : Picked

  random_int_exclude : ℕ → ℕ → ℕ → Engine → ℕ × Engine
  random_int_exclude low high exclude e =
      let (choice, e') = draw low (high - 1) e in (if choice == exclude then high else choice, e')

  -- The `if` that is written out once in the loop and twice below it.
  unfoldable pub pick_between : ℕ → ℕ → ℕ → Engine → ℕ × Engine
  unfolding random_int_exclude
  pick_between node_id group_begin group_end e =
      if leb group_begin node_id && leb node_id group_end
      then random_int_exclude group_begin group_end node_id e
      else draw group_begin group_end e

  -- The loop over the full-size groups, from `group_num` on. Each round writes the next element.
  unfoldable pub pick_full_groups : ℕ → ℕ → ℕ → ℕ → Engine → List ℕ × Engine
  pick_full_groups zero group_num node_id group_size e = ([], e)
  pick_full_groups (suc rounds) group_num node_id group_size e =
      let group_begin = group_num * group_size in
      let group_end = group_begin + (group_size - 1) in
      let (proxy, e') = pick_between node_id group_begin group_end e in
      let (rest, e'') = pick_full_groups rounds (group_num + 1) node_id group_size e' in
      (proxy ∷ rest, e'')

  unfoldable pub pick_proxies : ℕ → ℕ → ℕ → Engine → Picked
  unfolding pick_between pick_full_groups
  pick_proxies node_id num_groups num_meters e =
      let group_size = standard_group_size num_groups num_meters in
      let second_last_size = second_last_group_size num_groups num_meters in
      if ltb group_size 2
      then too_many_groups
      else if ltb num_groups 2
      then out_of_bounds
      else let (full, e₁) = pick_full_groups (num_groups - 2) 0 node_id group_size e in
        let group_begin = (num_groups - 2) * group_size in
        let group_end = group_begin + (second_last_size - 1) in
        let (second_last, e₂) = pick_between node_id group_begin group_end e₁ in
        let (last, e₃) = pick_between node_id (group_end + 1) (num_meters - 1) e₂ in
        picked (full ++ second_last ∷ last ∷ []) e₃
