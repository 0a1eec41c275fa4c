-- ===== src/Utility/Batch.antt =====
-- The order in which the queries of a batch run.
use pddm.Prelude.{
  ℕ, zero, suc, ◌≤◌, ◌≡◌, refl, ap, leb, leb→le, ◌==◌, if◌then◌else◌, Bool-cases, inl, inr, Option,
  some, List, [], ◌∷◌, ◌++◌, map, length, All, All-imp, arith,
}
use pddm.Messages.{QueryRequest}
use pddm.Messages.Outcome.{Outcome, ok, ◌>>=◌}
use pddm.Utility.{UtilityClient, Effect}
use pddm.Utility.Client.{start_query, pop_least, start_next, start_queries, end_query}

abbrev pub numbers : List QueryRequest → List ℕ
numbers qs = map (λ q. q.query_number) qs

-- How often a number occurs.
abbrev pub occurrences : ℕ → List ℕ → ℕ
occurrences z [] = 0
occurrences z (x ∷ xs) = if x == z then suc (occurrences z xs) else occurrences z xs

-- The list ascends from `low` on.
abbrev pub Ascending : ℕ → List ℕ → Type 0
Ascending low [] = Unit {0}
Ascending low (x ∷ xs) = (low ≤ x) × Ascending x xs

length-pop_least :
    (q : QueryRequest) (rest : List QueryRequest) → length (pop_least q rest).1 ≡ length rest
unfolding pop_least
length-pop_least q [] = refl
length-pop_least q (p ∷ rest) =
    elim (Bool-cases (leb q.query_number (pop_least p rest).0.query_number)) [
      | inl first ↦ rw first refl
      | inr later ↦ rw later (ap suc (length-pop_least p rest))
    ]

pop_least-occurrences :
    (z : ℕ) (q : QueryRequest) (rest : List QueryRequest)
    → occurrences z ((pop_least q rest).0.query_number ∷ numbers (pop_least q rest).1)
      ≡ occurrences z (q.query_number ∷ numbers rest)
unfolding pop_least
pop_least-occurrences z q [] = refl
pop_least-occurrences z q (p ∷ rest) =
    let same = pop_least-occurrences z p rest in
    elim (Bool-cases (leb q.query_number (pop_least p rest).0.query_number)) [
      | inl first ↦ rw first refl
      | inr later ↦ rw later (ground arith)
    ]

All-lower :
    (a b : ℕ) (qs : List QueryRequest)
    → a ≤ b
    → All (λ q. b ≤ q.query_number) qs
    → All (λ q. a ≤ q.query_number) qs
All-lower a b qs h =
    All-imp (λ q. b ≤ q.query_number) (λ q. a ≤ q.query_number) qs (λ q k. omega arith)

le-pop_least :
    (n : ℕ) (q : QueryRequest) (rest : List QueryRequest)
    → All (λ p. n ≤ p.query_number) (q ∷ rest)
    → n ≤ (pop_least q rest).0.query_number
unfolding pop_least
le-pop_least n q [] h = h.0
le-pop_least n q (p ∷ rest) h =
    let below = le-pop_least n p rest h.1 in
    elim (Bool-cases (leb q.query_number (pop_least p rest).0.query_number)) [
      | inl first ↦ rw first h.0
      | inr later ↦ rw later below
    ]

pop_least-le :
    (q : QueryRequest) (rest : List QueryRequest) (least : ℕ)
    → (pop_least q rest).0.query_number ≡ least
    → (least ≤ q.query_number)
      × All (λ p. least ≤ p.query_number) (pop_least q rest).1
      × All (λ p. least ≤ p.query_number) rest
unfolding pop_least
pop_least-le q [] least e = (omega arith, tt, tt)
pop_least-le q (p ∷ rest) least e =
    let next = (pop_least p rest).0.query_number in
    let (le, others, all) = pop_least-le p rest next refl in
    elim (Bool-cases (leb q.query_number next)) [
      | inl first ↦
          let is : q.query_number ≡ least = rw first at e in
          let below : q.query_number ≤ next = leb→le q.query_number next first in
          let up = All-lower least next rest (omega arith) all in
          rw first (omega arith, (omega arith, up), (omega arith, up))
      | inr later ↦
          let is : next ≡ least = rw later at e in
          let above : least ≤ q.query_number = ground arith in
          rw later (
            above,
            (above, All-lower least next (pop_least p rest).1 (omega arith) others),
            (omega arith, All-lower least next rest (omega arith) all),
          )
    ]

-- The client's query after each of a number of calls of `end_query`.
unfoldable pub queries_after : ℕ → UtilityClient → Outcome (List (Option ℕ))
queries_after zero s = ok []
queries_after (suc calls) s = do
  (s', effects) ← end_query s
  later ← queries_after calls s'
  ok (s'.query_num ∷ later)

-- What the next call of `end_query` leads to.
end_query-next :
    (s : UtilityClient) (n : ℕ) (q : QueryRequest) (rest : List QueryRequest)
    → s.query_num ≡ some n
    → s.pending_batch_queries ≡ q ∷ rest
    → (result : UtilityClient × List Effect) × (end_query s ≡ ok result)
      × (result.0.query_num ≡ some (pop_least q rest).0.query_number)
      × (result.0.pending_batch_queries ≡ (pop_least q rest).1)
unfolding end_query start_next start_query
end_query-next s n q rest e p =
    (_, ap end_query (λ i. record s { query_num = e i; pending_batch_queries = p i }), refl, refl)

-- The calls of `end_query` start all the pending queries, in order.
runs_in_order :
    (k : ℕ) (s : UtilityClient) (n : ℕ) (pending : List QueryRequest)
    → s.query_num ≡ some n
    → s.pending_batch_queries ≡ pending
    → length pending ≡ k
    → All (λ q. n ≤ q.query_number) pending
    → (ns : List ℕ) × (queries_after k s ≡ ok (map some ns))
      × Ascending n ns
      × ((z : ℕ) → occurrences z ns ≡ occurrences z (numbers pending))
unfolding queries_after
runs_in_order zero s n [] e p l h = ([], refl, tt, λ z. refl)
runs_in_order zero s n (q ∷ rest) e p l h = absurd (omega arith)
runs_in_order (suc k) s n [] e p l h = absurd (omega arith)
runs_in_order (suc k) s n (q ∷ rest) e p l h =
    let (result, ran, num, left) = end_query-next s n q rest e p in
    let least = (pop_least q rest).0.query_number in
    let (le, others, all) = pop_least-le q rest least refl in
    let (ns, after, up, same) =
      runs_in_order k result.0 least (pop_least q rest).1 num left
        (omega (arith, length-pop_least q rest)) others in
    (
      least ∷ ns,
      rw (ran, after, num) refl,
      (le-pop_least n q rest h, up),
      λ z. rw (same z) (pop_least-occurrences z q rest),
    )

-- When a batch is given to a client, the first query that it starts, and those that the next calls of
-- `end_query` start, one less than there are queries in the batch and pending before, are these
-- queries, each as often as it is among them, in the order of their numbers; and no call fails.
pub batch_in_order :
    (s : UtilityClient) (q : QueryRequest) (rest : List QueryRequest)
    → let left = rest ++ s.pending_batch_queries in
      (n : ℕ) × (ns : List ℕ) × ((start_queries s (q ∷ rest)).0.query_num ≡ some n)
      × (queries_after (length left) (start_queries s (q ∷ rest)).0 ≡ ok (map some ns))
      × Ascending n ns
      × ((z : ℕ) → occurrences z (n ∷ ns) ≡ occurrences z (numbers (q ∷ left)))
unfolding start_queries start_next start_query
batch_in_order s q rest =
    let left = rest ++ s.pending_batch_queries in
    let least = (pop_least q left).0.query_number in
    let (le, others, all) = pop_least-le q left least refl in
    let (ns, after, up, same) =
      runs_in_order (length left) (start_queries s (q ∷ rest)).0 least (pop_least q left).1 refl
        refl (length-pop_least q left) others in
    (least, ns, refl, after, up, λ z. rw (same z) (pop_least-occurrences z q left))
