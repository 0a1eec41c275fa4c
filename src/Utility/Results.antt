-- ===== src/Utility/Results.antt =====
-- What the utility takes as the result of a query, and when.
use pddm.Prelude.{
  ℕ, suc, ◌+◌, ◌*◌, ◌≤◌, ◌<◌, ◌≡◌, refl, ap, leb, le→leb, ◌==◌, ==_iff, if◌then◌else◌, true, false,
  ◌&&◌, &&-true, Bool-cases, inl, inr, some, List, [], ◌∷◌, length, same_list, same_list_iff, arith,
}
use pddm.Messages.{AggregationMessage}
use pddm.Utility.{QueryProtocol, UtilityClient}
use pddm.Utility.Client.{same_message, count, agreed_result, query_result}

same_message-parts :
    (a b : AggregationMessage)
    → same_message a b ≡ true
    → (a.num_contributors ≡ b.num_contributors) × (a.query_num ≡ b.query_num) × (a.body ≡ b.body)
same_message-parts a b h =
    let (pq, r) =
      &&-true ((a.num_contributors == b.num_contributors) && (a.query_num == b.query_num))
        (same_list a.body b.body) h in
    let (p, q) =
      &&-true (a.num_contributors == b.num_contributors) (a.query_num == b.query_num) pq in
    (
      (==_iff a.num_contributors b.num_contributors).0 p,
      (==_iff a.query_num b.query_num).0 q,
      (same_list_iff a.body b.body).0 r,
    )

same_message-from :
    (a b : AggregationMessage)
    → a.num_contributors ≡ b.num_contributors
    → a.query_num ≡ b.query_num
    → a.body ≡ b.body
    → same_message a b ≡ true
same_message-from a b p q r =
    rw
      (
        (==_iff a.num_contributors b.num_contributors).1 p,
        (==_iff a.query_num b.query_num).1 q,
        (same_list_iff a.body b.body).1 r,
      )
      refl

-- Two messages that equal a third one have the same count.
count-same :
    (m k : AggregationMessage) (xs : List AggregationMessage)
    → same_message m k ≡ true
    → count m xs ≡ count k xs
count-same m k [] h = refl
count-same m k (x ∷ xs) h =
    let (p, q, r) = same_message-parts m k h in
    let rest = count-same m k xs h in
    let same : same_message x m ≡ same_message x k = rw (p, q, r) refl in rw (same, rest) refl

-- The messages that do not equal `m`.
abbrev pub count_others : AggregationMessage → List AggregationMessage → ℕ
count_others m [] = 0
count_others m (x ∷ xs) = if same_message x m then count_others m xs else suc (count_others m xs)

count-split :
    (m : AggregationMessage) (xs : List AggregationMessage)
    → count m xs + count_others m xs ≡ length xs
count-split m [] = refl
count-split m (x ∷ xs) = elim (Bool-cases (same_message x m)) [
  | inl same ↦ rw same (omega (arith, count-split m xs))
  | inr other ↦ rw other (omega (arith, count-split m xs))
]

-- A message that does not equal `m` is counted among those that do not.
count-other :
    (m k : AggregationMessage) (xs : List AggregationMessage)
    → same_message k m ≡ false
    → count k xs ≤ count_others m xs
count-other m k [] h = omega arith
count-other m k (x ∷ xs) h = elim (Bool-cases (same_message x k)) [
  | inl same ↦
      let (p, q, r) = same_message-parts x k same in
      let other : same_message x m ≡ false = rw (p, q, r) h in
      rw (same, other) (omega (arith, count-other m k xs h))
  | inr different ↦ rw different (ground (arith, count-other m k xs h))
]

agreed_result_correct :
    (failures : ℕ) (m : AggregationMessage) (all left : List AggregationMessage)
    → count_others m all ≤ failures
    → failures < count m all
    → 0 < count m left
    → agreed_result failures all left ≡ some m.body
unfolding agreed_result
agreed_result_correct failures m all [] few many h = absurd (omega arith)
agreed_result_correct failures m all (x ∷ left) few many h = elim (Bool-cases (same_message x m)) [
  | inl same ↦
      let enough : failures + 1 ≤ count x all = omega (arith, count-same x m all same) in
      let (p, q, r) = same_message-parts x m same in rw (le→leb _ _ enough) (ap some r)
  | inr other ↦
      let bound = count-other m x all other in
      let no : leb (failures + 1) (count x all) ≡ false = ground arith in
      rw no (agreed_result_correct failures m all left few many (rw other at h))
]

-- In the Byzantine protocol, with more than 2 F results of which all but F at most are equal to one
-- message (as the roots of the 2 F + 1 groups send it if they are correct), the result of the query is
-- the body of that message, in whatever order the results are looked at.
pub query_result_correct :
    (s : UtilityClient) (m : AggregationMessage)
    → s.query_protocol ≡ QueryProtocol.bft
    → count_others m s.curr_query_results ≤ s.failures_tolerated
    → 2 * s.failures_tolerated < length s.curr_query_results
    → query_result s ≡ some m.body
unfolding query_result
query_result_correct s m bft few many =
    let all = s.curr_query_results in
    let split = count-split m all in
    rw bft (agreed_result_correct s.failures_tolerated m all all few (omega arith) (omega arith))
