-- ===== src/Aggregation/Group/Messages.antt =====
-- What the messages that a meter gets from its children add up to.
use pddm.Prelude.{
  ℕ, zero, suc, ◌+◌, ◌%◌, ◌^◌, ◌<◌, ◌≡◌, refl, Bool, true, false, List, [], ◌∷◌, ◌++◌, length,
  length-append, if◌then◌else◌, arith,
}
use pddm.Messages.{AggregationMessage, ValueContribution}
use pddm.Aggregation.Sums.{get_or, share, Fits}
use pddm.Aggregation.Group.Heap.{sum_from, sum_from_zero}
use pddm.Aggregation.Total.{messages_total, contributors_total, values_total, MessagesFit}

-- `ms` are `slots` messages that fit, with `count` contributors and `total i` in each column i.
pub record Brings (single : Bool) (n slots count : ℕ) (total : ℕ → ℕ) (ms : List AggregationMessage)
    : Type 0 where
  pub fit : MessagesFit single n ms
  pub slots_taken : length ms ≡ slots
  pub counted : contributors_total ms ≡ count
  pub columns : (i : ℕ) → i < n → messages_total single ms i % 2 ^ 64 ≡ total i % 2 ^ 64

module _ (single : Bool) where
  MessagesFit-append :
      (n : ℕ) (ms ks : List AggregationMessage)
      → MessagesFit single n ms
      → MessagesFit single n ks
      → MessagesFit single n (ms ++ ks)
  MessagesFit-append n [] ks p q = q
  MessagesFit-append n (m ∷ ms) ks p q = (p.0, MessagesFit-append n ms ks p.1 q)

  messages_total-append :
      (ms ks : List AggregationMessage) (i : ℕ)
      → messages_total single (ms ++ ks) i ≡ messages_total single ms i + messages_total single ks i
  messages_total-append [] ks i = omega arith
  messages_total-append (m ∷ ms) ks i = omega (arith, messages_total-append ms ks i)

  contributors_total-append :
      (ms ks : List AggregationMessage)
      → contributors_total (ms ++ ks) ≡ contributors_total ms + contributors_total ks
  contributors_total-append [] ks = omega arith
  contributors_total-append (m ∷ ms) ks = omega (arith, contributors_total-append ms ks)

  pub nothing-Brings :
      (n count : ℕ) (total : ℕ → ℕ)
      → count ≡ 0
      → ((i : ℕ) → total i ≡ 0)
      → Brings single n 0 count total []
  nothing-Brings n count total none zeros = record {
    fit = tt;
    slots_taken = refl;
    counted = omega (arith, none);
    columns = λ i h. omega (arith, zeros i);
  }

  append-Brings :
      (n a b c d k l : ℕ) (f g : ℕ → ℕ) (ms ks : List AggregationMessage)
      → a + b ≡ k
      → c + d ≡ l
      → Brings single n a c f ms
      → Brings single n b d g ks
      → Brings single n k l (λ i. f i + g i) (ms ++ ks)
  append-Brings n a b c d k l f g ms ks e e' p q = record {
    fit = MessagesFit-append n ms ks p.fit q.fit;
    slots_taken = omega (arith, length-append ms ks, p.slots_taken, q.slots_taken);
    counted = omega (arith, contributors_total-append ms ks, p.counted, q.counted);
    columns = λ i h. omega (arith, messages_total-append ms ks i, p.columns i h, q.columns i h);
  }

  swap-Brings :
      (n a c : ℕ) (f g : ℕ → ℕ) (ms : List AggregationMessage)
      → Brings single n a c (λ i. g i + f i) ms
      → Brings single n a c (λ i. f i + g i) ms
  swap-Brings n a c f g ms p = record {
    fit = p.fit;
    slots_taken = p.slots_taken;
    counted = p.counted;
    columns = λ i h. omega (arith, p.columns i h);
  }

  -- The messages of two children, in whatever order they come in.
  pub both-Brings :
      (left_first : Bool) (n a b c d : ℕ) (f g : ℕ → ℕ) (ms ks : List AggregationMessage)
      → Brings single n a c f ms
      → Brings single n b d g ks
      → Brings single n (a + b) (c + d) (λ i. f i + g i) (if left_first then ms ++ ks else ks ++ ms)
  both-Brings true n a b c d f g ms ks p q =
      append-Brings n a b c d (a + b) (c + d) f g ms ks refl refl p q
  both-Brings false n a b c d f g ms ks p q =
      swap-Brings n (a + b) (c + d) f g (ks ++ ms)
        (append-Brings n b a d c (a + b) (c + d) g f ks ms (omega arith) (omega arith) q p)

  -- One message.
  pub one-Brings :
      (n count : ℕ) (total : ℕ → ℕ) (m : AggregationMessage)
      → Fits single n m.body
      → m.num_contributors ≡ count
      → ((i : ℕ) → i < n → share single m.body i % 2 ^ 64 ≡ total i % 2 ^ 64)
      → Brings single n 1 count total (m ∷ [])
  one-Brings n count total m fits counted columns = record {
    fit = (fits, tt);
    slots_taken = refl;
    counted = omega (arith, counted);
    columns = λ i h. omega (arith, columns i h);
  }

pub Fits-sized :
    (single : Bool) (n : ℕ) (values : List ℕ) → 0 < n → length values ≡ n → Fits single n values
Fits-sized true n values pos e = omega arith
Fits-sized false n values pos e = e

-- A single-valued query has nothing but its first column.
values_total-later : (cs : List ValueContribution) (i : ℕ) → values_total true cs (suc i) ≡ 0
values_total-later [] i = refl
values_total-later (c ∷ cs) i = omega (arith, values_total-later cs i)

-- So a sum of shares in a column is what its parent takes of it.
pub share-sum_from :
    (single : Bool) (values : ℕ → List ValueContribution) (size c : ℕ) (body : List ℕ) (i : ℕ)
    → let total = sum_from (λ j. values_total single (values j) i) size c in
      get_or body i 0 % 2 ^ 64 ≡ total % 2 ^ 64 → share single body i % 2 ^ 64 ≡ total % 2 ^ 64
share-sum_from true values size c body zero e = e
share-sum_from true values size c body (suc i) e =
    let none =
      sum_from_zero (λ j. values_total true (values j) (suc i)) size
        (λ j. values_total-later (values j) i) c in
    rw none refl
share-sum_from false values size c body i e = e
