-- ===== src/Aggregation/Total.antt =====
-- The messages of a meter's children and its own accepted values, added up over a query.
use native.Mathlib.Nat.{mod-add-mod, add_assoc}
use pddm.Prelude.{
  ℕ, zero, suc, ◌+◌, ◌%◌, ◌^◌, ◌<◌, ◌≤◌, ◌↔◌, ◌≡◌, true, refl, sym, ap, ◌∙◌, Bool, some, List, [],
  ◌∷◌, length, replicate, length-replicate, arith,
}
use pddm.Messages.{AggregationMessage, ValueContribution, QueryRequest, is_single_valued_query}
use pddm.Messages.Outcome.{Outcome, ok, ◌>>=◌}
use pddm.Overlay.Tree.{aggregation_tree_parent}
use pddm.Aggregation.{
  TreeAggregationState, new_state, initialize, handle_message, add_contributions,
  compute_and_send_aggregate, add_message, done_receiving_from_children,
}
use pddm.Aggregation.Children.{live_children, waits_for_live_children}
use pddm.Aggregation.Sums.{
  get_or, share, Fits, IsAdded, add_message-IsAdded, add_contribution-IsAdded,
}

nothing-IsAdded : (m : AggregationMessage) → IsAdded (λ i. 0) 0 m m
nothing-IsAdded m = record {
  sender = refl;
  query = refl;
  counted = omega arith;
  size = refl;
  columns = λ i h. omega arith;
}

-- Two additions in a row.
IsAdded-twice :
    (f g : ℕ → ℕ) (c d k : ℕ) (a b e : AggregationMessage)
    → c + d ≡ k
    → IsAdded f c a b
    → IsAdded g d b e
    → IsAdded (λ i. f i + g i) k a e
IsAdded-twice f g c d k a b e count p q = record {
  sender = q.sender ∙ p.sender;
  query = q.query ∙ p.query;
  counted = omega (arith, p.counted, q.counted);
  size = q.size ∙ p.size;
  columns = λ i h.
      q.columns i (omega (arith, p.size))
      ∙ sym (mod-add-mod (get_or b.body i 0) (2 ^ 64) (g i))
      ∙ ap (λ t. (t + g i) % 2 ^ 64) (p.columns i h)
      ∙ mod-add-mod (get_or a.body i 0 + f i) (2 ^ 64) (g i)
      ∙ ap (λ t. t % 2 ^ 64) (add_assoc (get_or a.body i 0) (f i) (g i));
}

-- A sequence of calls of `handle_message`, as the children's messages come in.
pub handle_messages : TreeAggregationState → List AggregationMessage → Outcome TreeAggregationState
handle_messages s [] = ok s
handle_messages s (m ∷ rest) = do s' ← handle_message s m; handle_messages s' rest

-- The specification: sums over all columns, and the number of contributors.
abbrev pub messages_total : Bool → List AggregationMessage → ℕ → ℕ
messages_total single [] i = 0
messages_total single (m ∷ rest) i = share single m.body i + messages_total single rest i

abbrev pub contributors_total : List AggregationMessage → ℕ
contributors_total [] = 0
contributors_total (m ∷ rest) = m.num_contributors + contributors_total rest

abbrev pub values_total : Bool → List ValueContribution → ℕ → ℕ
values_total single [] i = 0
values_total single (c ∷ rest) i = share single c.value.value i + values_total single rest i

abbrev pub MessagesFit : Bool → ℕ → List AggregationMessage → Type 0
MessagesFit single n [] = Unit {0}
MessagesFit single n (m ∷ rest) = Fits single n m.body × MessagesFit single n rest

abbrev pub ValuesFit : Bool → ℕ → List ValueContribution → Type 0
ValuesFit single n [] = Unit {0}
ValuesFit single n (c ∷ rest) = Fits single n c.value.value × ValuesFit single n rest

add_contributions-IsAdded :
    (single : Bool) (before : AggregationMessage) (n : ℕ) (cs : List ValueContribution)
    → length before.body ≡ n
    → ValuesFit single n cs
    → (sum : AggregationMessage) × (add_contributions single before cs ≡ ok sum)
      × IsAdded (values_total single cs) (length cs) before sum
unfolding add_contributions
add_contributions-IsAdded single before n [] e fits = (before, refl, nothing-IsAdded before)
add_contributions-IsAdded single before n (c ∷ cs) e fits =
    let (mid, ran, p) = add_contribution-IsAdded single before c (rw e fits.0) in
    let (sum, ran', q) = add_contributions-IsAdded single mid n cs (p.size ∙ e) fits.1 in
    (
      sum,
      rw ran ran',
      IsAdded-twice (share single c.value.value) (values_total single cs) 1 (length cs) _ before mid
          sum (omega arith) p q,
    )

-- One message that can be added, handled.
handle_message_lem :
    (single : Bool) (s : TreeAggregationState) (before m sum : AggregationMessage)
    → is_single_valued_query s.current_query.request_type ≡ single
    → s.aggregation_intermediate ≡ some before
    → add_message single before m ≡ ok sum
    → handle_message s m
      ≡ ok (record s {
        aggregation_intermediate = some sum;
        children_received_from = s.children_received_from + 1;
      })
unfolding handle_message
handle_message_lem single s before m sum q h e = rw (h, q, e)

handle_messages-IsAdded :
    (single : Bool) (s : TreeAggregationState) (before : AggregationMessage) (n k : ℕ)
    (ms : List AggregationMessage)
    → is_single_valued_query s.current_query.request_type ≡ single
    → s.aggregation_intermediate ≡ some before
    → length before.body ≡ n
    → s.children_received_from + length ms ≡ k
    → MessagesFit single n ms
    → (sum : AggregationMessage) × (handle_messages s ms
        ≡ ok (record s { aggregation_intermediate = some sum; children_received_from = k }))
      × IsAdded (messages_total single ms) (contributors_total ms) before sum
unfolding handle_messages
handle_messages-IsAdded single s before n k [] q h e count fits =
    (before, ground arith, nothing-IsAdded before)
handle_messages-IsAdded single s before n k (m ∷ ms) q h e count fits =
    let (mid, ran, p) = add_message-IsAdded single before m (rw e fits.0) in
    let s' = record s {
      aggregation_intermediate = some mid;
      children_received_from = s.children_received_from + 1;
    } in
    let (sum, ran', p') =
      handle_messages-IsAdded single s' mid n k ms q refl (p.size ∙ e) (omega arith) fits.1 in
    (
      sum,
      rw (handle_message_lem single s before m mid q h ran) ran',
      IsAdded-twice (share single m.body) (messages_total single ms) m.num_contributors
          (contributors_total ms) _ before mid sum refl p p',
    )

compute_and_send_aggregate_lem :
    (single : Bool) (s : TreeAggregationState) (before sum : AggregationMessage)
    (cs : List ValueContribution)
    → is_single_valued_query s.current_query.request_type ≡ single
    → s.aggregation_intermediate ≡ some before
    → add_contributions single before cs ≡ ok sum
    → compute_and_send_aggregate s cs
      ≡ ok (
        record s { aggregation_intermediate = some sum },
        aggregation_tree_parent s.node_id s.num_groups s.num_meters,
        sum,
      )
unfolding compute_and_send_aggregate
compute_and_send_aggregate_lem single s before sum cs q h e = rw (h, q, e)

get_or-replicate : (n i : ℕ) → get_or (replicate n 0) i 0 ≡ 0
get_or-replicate zero i = refl
get_or-replicate (suc n) zero = refl
get_or-replicate (suc n) (suc i) = get_or-replicate n i

done_iff :
    (s : TreeAggregationState) (received needed : ℕ)
    → s.children_received_from ≡ received
    → s.children_needed ≡ needed
    → (done_receiving_from_children s ≡ true) ↔ (needed ≤ received)
unfolding done_receiving_from_children
done_iff s received needed e e' = ground arith

-- The life of a meter's aggregation state for a query: it is initialized with a vector of `n` zeros,
-- its children's messages come in, in any number, and it sends to its parent, with the values that it
-- has accepted as a proxy. If all the vectors fit, nothing throws or fails; what it sends names the
-- meter and the query, goes to its parent in the tree, and has in each column the sum of the children's
-- and of its own vectors modulo 2^64, of a single-valued query in the first column only. It counts the
-- contributors of the children's messages, its own accepted values, and one more. When it sends, the
-- meter is done exactly if it has received at least as many messages as it has children in the tree
-- that are not among the failed meters.
pub sent_aggregate :
    (node groups meters : ℕ) (query : QueryRequest) (n : ℕ) (failed : List ℕ)
    (ms : List AggregationMessage) (cs : List ValueContribution)
    → let single = is_single_valued_query query.request_type in
      let begun = initialize (new_state node groups meters query) n failed in
      MessagesFit single n ms
      → ValuesFit single n cs
      → (s s' : TreeAggregationState) × (sent : AggregationMessage) × (handle_messages begun ms
          ≡ ok s)
        × (compute_and_send_aggregate s cs
            ≡ ok (s', aggregation_tree_parent node groups meters, sent))
        × (s.children_received_from ≡ length ms)
        × ((done_receiving_from_children s ≡ true)
            ↔ (live_children node groups meters failed ≤ length ms))
        × (s.children_needed ≡ begun.children_needed)
        × (sent.sender_id ≡ node)
        × (sent.query_num ≡ query.query_number)
        × (sent.num_contributors ≡ 1 + contributors_total ms + length cs)
        × (length sent.body ≡ n)
        × ((i : ℕ)
            → i < n
            → get_or sent.body i 0 % 2 ^ 64
              ≡ (messages_total single ms i + values_total single cs i) % 2 ^ 64)
unfolding initialize new_state
sent_aggregate node groups meters query n failed ms cs fits fits' =
    let single = is_single_valued_query query.request_type in
    let begun = initialize (new_state node groups meters query) n failed in
    let zeros : length (replicate {A = ℕ} n 0) ≡ n = length-replicate n 0 in
    let (mid, ran, p) =
      handle_messages-IsAdded single begun _ n (length ms) ms refl refl zeros (omega arith) fits in
    let s = record begun {
      aggregation_intermediate = some mid;
      children_received_from = length ms;
    } in
    let (sum, ran', q) = add_contributions-IsAdded single mid n cs (p.size ∙ zeros) fits' in
    let both =
      IsAdded-twice (messages_total single ms) (values_total single cs) (contributors_total ms)
        (length cs) _ _ mid sum refl p q in
    (
      s,
      record s { aggregation_intermediate = some sum },
      sum,
      ran,
      compute_and_send_aggregate_lem single s mid sum cs refl refl ran',
      refl,
      done_iff s (length ms) (live_children node groups meters failed) refl
          (waits_for_live_children node groups meters query n failed).0,
      refl,
      both.sender,
      both.query,
      omega (arith, both.counted),
      both.size ∙ zeros,
      λ i h.
          both.columns i (omega (arith, zeros))
          ∙ ap (λ t. t % 2 ^ 64) (omega (arith, get_or-replicate n i)),
    )
