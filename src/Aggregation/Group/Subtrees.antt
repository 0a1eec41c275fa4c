-- ===== src/Aggregation/Group/Subtrees.antt =====
-- What each meter of an aggregation group sends to its parent.
use native.Mathlib.Decide.{dec_lt}
use pddm.Prelude.{
  ℕ, zero, suc, ◌+◌, ◌*◌, ◌%◌, ◌^◌, ◌≤◌, ◌<◌, ◌≡◌, refl, sym, ap, ◌∙◌, ◌⊎◌, inl, inr, Bool, true,
  false, some, List, [], ◌∷◌, ◌++◌, length, leb, if◌then◌else◌, Bool-cases, arith,
}
use pddm.Messages.{QueryRequest, ValueContribution, AggregationMessage, is_single_valued_query}
use pddm.Messages.Outcome.{ok}
use pddm.Overlay.Tree.{aggregation_tree_parent, aggregation_tree_children}
use pddm.Overlay.Tree.Shape.{child_at, children_at, parent_iff_child}
use pddm.Overlay.Groups.Partition.{first_of_group, size_of_group}
use pddm.Aggregation.{TreeAggregationState, new_state, initialize, done_receiving_from_children}
use pddm.Aggregation.Sums.{get_or}
use pddm.Aggregation.Children.{waits_for_live_children, live}
use pddm.Aggregation.Total.{values_total, ValuesFit, sent_aggregate}
use pddm.Aggregation.Group.{group_run, from_child}
use pddm.Aggregation.Group.Heap.{sum_from, sum_from-outside, sum_from-inside}
use pddm.Aggregation.Group.Messages.{
  Brings, nothing-Brings, one-Brings, both-Brings, Fits-sized, share-sum_from,
}

module _ (g m : ℕ) (two : 2 ≤ g) (enough : g ≤ m) (k : ℕ) (inside : k < g) (query : QueryRequest)
    (n : ℕ) (accepted : ℕ → List ValueContribution) (left_first : ℕ → Bool) where
  abbrev first : ℕ
  first = first_of_group k g m

  abbrev size : ℕ
  size = size_of_group k g m

  abbrev single : Bool
  single = is_single_valued_query query.request_type

  -- The contributors that the j-th meter of the group counts, and its share of column i.
  abbrev counts : ℕ → ℕ
  counts j = 1 + length (accepted (j + first))

  abbrev adds : ℕ → ℕ → ℕ
  adds i j = values_total single (accepted (j + first)) i

  -- A message with all that comes from the subtree of the j-th meter.
  pub record HasSubtree (j : ℕ) (sent : AggregationMessage) : Type 0 where
    pub sender : sent.sender_id ≡ j + first
    pub numbered : sent.query_num ≡ query.query_number
    pub counted : sent.num_contributors ≡ sum_from counts size j
    pub sized : length sent.body ≡ n
    pub columns :
        (i : ℕ) → i < n → get_or sent.body i 0 % 2 ^ 64 ≡ sum_from (adds i) size j % 2 ^ 64

  -- The j-th meter sends such a message to its parent.
  unfoldable pub Sends : ℕ → ℕ → Type 0
  Sends fuel j =
      (sent : AggregationMessage) × (group_run g m query n accepted left_first fuel (j + first)
        ≡ ok (aggregation_tree_parent (j + first) g m, sent))
      × HasSubtree j sent

  -- The message of the child with the relative id `c` of the j-th meter, if there is such a child.
  FromChild : ℕ → ℕ → ℕ → Type 0
  FromChild fuel j c =
      (ms : List AggregationMessage) × (from_child (group_run g m query n accepted left_first fuel)
          (j + first) (child_at first size c)
        ≡ ok ms)
      × Brings single n (length (live (child_at first size c) [])) (sum_from counts size c)
          (λ i. sum_from (adds i) size c) ms

  no_child : (fuel j c : ℕ) → size ≤ c → FromChild fuel j c
  unfolding FromChild
  no_child fuel j c h = elim (Bool-cases (leb size c)) [
    | inr e ↦ absurd (ground arith)
    | inl e ↦ rw e (
      [],
      refl,
      nothing-Brings single n _ _ (sum_from-outside counts size c h)
          (λ i. sum_from-outside (adds i) size c h),
    )
  ]

  a_child :
      (fuel j c : ℕ)
      → c < size
      → aggregation_tree_parent (c + first) g m ≡ some (j + first)
      → 0 < n
      → Sends fuel c
      → FromChild fuel j c
  unfolding Sends FromChild
  a_child fuel j c h e pos (sent, runs, r) =
      let there : leb size c ≡ false = ground arith in
      let fits = Fits-sized single n sent.body pos r.sized in
      rw there (
        sent ∷ [],
        rw (runs, e) (ground arith),
        one-Brings single n _ _ sent fits r.counted (λ i b.
            share-sum_from single (λ l. accepted (l + first)) size c sent.body i (r.columns i b)),
      )

  -- What a meter has in its hands after its children's messages, and that it is done.
  done_after :
      (j : ℕ) (ms : List AggregationMessage) (s : TreeAggregationState)
      → j < size
      → s.children_received_from ≡ length ms
      → s.children_needed ≡ (initialize (new_state (j + first) g m query) n []).children_needed
      → length ms
        ≡ length (live (child_at first size (2 * j + 1)) [])
          + length (live (child_at first size (2 * j + 2)) [])
      → done_receiving_from_children s ≡ true
  unfolding done_receiving_from_children
  done_after j ms s h received needed slots =
      let waits = (waits_for_live_children (j + first) g m query n []).0 in
      let all = rw (children_at g m two enough k j inside h) at waits in ground (arith, all)

  Sends-step :
      (fuel j : ℕ)
      → j < size
      → ValuesFit single n (accepted (j + first))
      → FromChild fuel j (2 * j + 1)
      → FromChild fuel j (2 * j + 2)
      → Sends (suc fuel) j
  unfolding Sends FromChild group_run
  Sends-step fuel j h fits (ls, left, p) (rs, right, q) =
      let order = left_first (j + first) in
      let ms : List AggregationMessage = if order then ls ++ rs else rs ++ ls in
      let both = both-Brings single order n _ _ _ _ _ _ ls rs p q in
      let (s, s', sent, handled, sends, received, _, needed, sender, number, count, len, columns) =
        sent_aggregate (j + first) g m query n [] ms (accepted (j + first)) both.fit fits in
      let done = done_after j ms s h received needed both.slots_taken in
      (
        sent,
        rw (children_at g m two enough k j inside h, left, right, handled, done, sends) refl,
        record {
          sender = sender;
          numbered = number;
          counted = omega (arith, count, both.counted, sum_from-inside counts size j h);
          sized = len;
          columns = λ i b.
              columns i b ∙ omega (arith, both.columns i b, sum_from-inside (adds i) size j h);
        },
      )

  module _ (within : first + size ≤ m) (pos : 0 < n)
      (fit : (j : ℕ) → j < size → ValuesFit single n (accepted (j + first))) where
    parent_of :
        (j c : ℕ)
        → j < size
        → c < size
        → let children = aggregation_tree_children (j + first) g m in
          (children.0 ≡ some (c + first)) ⊎ (children.1 ≡ some (c + first))
          → aggregation_tree_parent (c + first) g m ≡ some (j + first)
    parent_of j c h i e =
        (parent_iff_child g m two enough (j + first) (c + first) (omega arith) (omega arith)).0 e

    child_there : (c : ℕ) → c < size → child_at first size c ≡ some (c + first)
    child_there c h = ground arith

    child_parent :
        (j c : ℕ)
        → j < size
        → c < size
        → (c ≡ 2 * j + 1) ⊎ (c ≡ 2 * j + 2)
        → aggregation_tree_parent (c + first) g m ≡ some (j + first)
    child_parent j c h i (inl e) = parent_of j c h i (
        inl (
          ap (λ t. t.0) (children_at g m two enough k j inside h)
          ∙ ap (child_at first size) (sym e)
          ∙ child_there c i))
    child_parent j c h i (inr e) = parent_of j c h i (
        inr (
          ap (λ t. t.1) (children_at g m two enough k j inside h)
          ∙ ap (child_at first size) (sym e)
          ∙ child_there c i))

    pub sends : (fuel j : ℕ) → size ≤ j + fuel → j < size → Sends fuel j
    sends zero j f h = absurd (omega arith)
    sends (suc fuel) j f h =
        let child : (c : ℕ) → j < c → (c ≡ 2 * j + 1) ⊎ (c ≡ 2 * j + 2) → FromChild fuel j c =
          λ c less e. elim (dec_lt c size) [
            | yes i ↦ a_child fuel j c i (child_parent j c h i e) pos (sends fuel c (omega arith) i)
            | no i ↦ no_child fuel j c (omega arith)
          ] in
        Sends-step fuel j h (fit j h) (child (2 * j + 1) (omega arith) (inl refl))
          (child (2 * j + 2) (omega arith) (inr refl))
