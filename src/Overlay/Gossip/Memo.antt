-- ===== src/Overlay/Gossip/Memo.antt =====
-- The memo tables of `gossip_target` and `gossip_predecessor` over a sequence of calls.
use pddm.Prelude.{
  ℕ, ◌≡◌, refl, sym, ap, ◌∙◌, inl, inr, true, some, none, [], ◌∷◌, arith, Option, Bool-cases,
}
use pddm.Overlay.Gossip.{
  MemoTable, same_key, find, recall, memoised, target, predecessor, gossip_target,
  gossip_predecessor,
}

-- Each entry of the table is a value of `f`.
abbrev pub IsMemo : (ℕ × ℕ × ℕ → ℕ) → MemoTable → Type 0
IsMemo f [] = Unit {0}
IsMemo f ((k, v) ∷ rest) = (v ≡ f k) × IsMemo f rest

same_key-eq : (k l : ℕ × ℕ × ℕ) → same_key k l ≡ true → k ≡ l
same_key-eq (n, t, i) (n', t', i') h = ground arith

find-IsMemo :
    (f : ℕ × ℕ × ℕ → ℕ) (table : MemoTable) (k : ℕ × ℕ × ℕ) (v : ℕ)
    → IsMemo f table
    → find table k ≡ some v
    → v ≡ f k
find-IsMemo f [] k v m h = cc
find-IsMemo f ((l, w) ∷ rest) k v m h = elim (Bool-cases (same_key l k)) [
  | inl hit ↦ let here : w ≡ v = ground arith in sym here ∙ m.0 ∙ ap f (same_key-eq l k hit)
  | inr miss ↦ find-IsMemo f rest k v m.1 (rw miss at h)
]

recall_lem :
    (f : ℕ × ℕ × ℕ → ℕ) (table : MemoTable) (k : ℕ × ℕ × ℕ) (o : Option ℕ)
    → IsMemo f table
    → ((v : ℕ) → o ≡ some v → v ≡ f k)
    → IsMemo f (recall f table k o).0 × ((recall f table k o).1 ≡ f k)
recall_lem f table k none m found = ((refl, m), refl)
recall_lem f table k (some v) m found = (m, found v refl)

memoised_lem :
    (f : ℕ × ℕ × ℕ → ℕ) (table : MemoTable) (k : ℕ × ℕ × ℕ)
    → IsMemo f table
    → IsMemo f (memoised f table k).0 × ((memoised f table k).1 ≡ f k)
memoised_lem f table k m =
    recall_lem f table k (find table k) m (λ v e. find-IsMemo f table k v m e)

abbrev pub target_of : ℕ × ℕ × ℕ → ℕ
target_of (n, t, i) = target i t n

abbrev pub predecessor_of : ℕ × ℕ × ℕ → ℕ
predecessor_of (n, t, j) = predecessor j t n

-- With the memo tables, the two functions return what they compute without them, and keep the tables
-- true, so this holds of every sequence of calls from empty tables.
pub gossip-IsMemo :
    (targets predecessors : MemoTable) (i t n : ℕ)
    → IsMemo target_of targets
    → IsMemo predecessor_of predecessors
    → ((gossip_target targets i t n).1 ≡ target i t n)
      × IsMemo target_of (gossip_target targets i t n).0
      × ((gossip_predecessor predecessors i t n).1 ≡ predecessor i t n)
      × IsMemo predecessor_of (gossip_predecessor predecessors i t n).0
unfolding gossip_target gossip_predecessor
gossip-IsMemo targets predecessors i t n p q =
    let (kept, value) = memoised_lem target_of targets (n, t, i) p in
    let (kept', value') = memoised_lem predecessor_of predecessors (n, t, i) q in
    (value, kept, value', kept')
