-- ===== src/Overlay/Gossip.antt =====
-- util/Overlay.cpp, `gossip_target`, `gossip_predecessor` and their memo tables; util/Overlay.h.
pub mod Correct
pub mod Memo
use pddm.Prelude.{
  ℕ, ◌+◌, ◌-◌, ◌%◌, ◌==◌, leb, if◌then◌else◌, Bool, true, false, ◌&&◌, Option, none, some, List, [],
  ◌∷◌,
}
use pddm.Overlay.ModPow.{u32, mod_pow}

-- A memo table, keyed by (group size, round, node): a std::map, whose entries are never replaced.
abbrev pub MemoTable : Type 0
MemoTable = List ((ℕ × ℕ × ℕ) × ℕ)

abbrev pub same_key : ℕ × ℕ × ℕ → ℕ × ℕ × ℕ → Bool
same_key (n, t, i) (n', t', i') = n == n' && t == t' && i == i'

abbrev pub find : MemoTable → ℕ × ℕ × ℕ → Option ℕ
find [] k = none
find ((k', v) ∷ rest) k = if same_key k' k then some v else find rest k

-- The table after the call, and its result: the value found, or a new one, which is put into the table.
abbrev pub recall : (ℕ × ℕ × ℕ → ℕ) → MemoTable → ℕ × ℕ × ℕ → Option ℕ → MemoTable × ℕ
recall f table key (some v) = (table, v)
recall f table key none = let v = f key in ((key, v) ∷ table, v)

abbrev pub memoised : (ℕ × ℕ × ℕ → ℕ) → MemoTable → ℕ × ℕ × ℕ → MemoTable × ℕ
memoised f table key = recall f table key (find table key)

-- The body of `gossip_target` below the lookup. The sum of an int and a uint32_t is a uint32_t.
unfoldable pub target : ℕ → ℕ → ℕ → ℕ
target source_id round group_size = u32 (source_id + mod_pow 2 round group_size) % group_size

-- x - y of two ints in [0, m]: C++'s `%` keeps the sign of a negative difference, to which m is added.
unfoldable pub mod_subtract : ℕ → ℕ → ℕ → ℕ
mod_subtract x y m = if leb y x then (x - y) % m else m - (y - x) % m

unfoldable pub predecessor : ℕ → ℕ → ℕ → ℕ
unfolding mod_subtract
predecessor target_id round group_size =
    mod_subtract target_id (mod_pow 2 round group_size) group_size

unfoldable pub gossip_target : MemoTable → ℕ → ℕ → ℕ → MemoTable × ℕ
gossip_target table source_id round group_size =
    memoised (λ (n, t, i). target i t n) table (group_size, round, source_id)

unfoldable pub gossip_predecessor : MemoTable → ℕ → ℕ → ℕ → MemoTable × ℕ
gossip_predecessor table target_id round group_size =
    memoised (λ (n, t, j). predecessor j t n) table (group_size, round, target_id)
