-- ===== src/Aggregation/Sums.antt =====
-- What one addition does to the intermediate message, column by column.
use native.Mathlib.Nat.{mod-mod, add_comm}
use pddm.Prelude.{
  ℕ, zero, suc, ◌+◌, ◌%◌, ◌^◌, ◌<◌, ◌≡◌, refl, ap, Bool, true, false, List, [], ◌∷◌, length, arith,
  ==_iff,
}
use pddm.Messages.{AggregationMessage, ValueContribution}
use pddm.Messages.FixedPoint.{◌+fp◌}
use pddm.Messages.Outcome.{ok}
use pddm.Aggregation.{add_elements, add_message, add_contribution}

abbrev pub get_or : List ℕ → ℕ → ℕ → ℕ
get_or [] i d = d
get_or (x ∷ xs) zero d = x
get_or (x ∷ xs) (suc i) d = get_or xs i d

-- What a vector adds to column `i`: a single-valued query takes its first element only.
abbrev pub share : Bool → List ℕ → ℕ → ℕ
share true values zero = get_or values 0 0
share true values (suc i) = 0
share false values i = get_or values i 0

-- A vector that can be added to one of `n` elements.
abbrev pub Fits : Bool → ℕ → List ℕ → Type 0
Fits true n values = (0 < length values) × (0 < n)
Fits false n values = length values ≡ n

get_or-add_elements :
    (xs ys : List ℕ) (i : ℕ)
    → length xs ≡ length ys
    → i < length ys
    → get_or (add_elements xs ys) i 0 ≡ (get_or ys i 0 + get_or xs i 0) % 2 ^ 64
unfolding add_elements
get_or-add_elements [] [] i e h = absurd (omega arith)
get_or-add_elements [] (y ∷ ys) i e h = absurd (omega arith)
get_or-add_elements (x ∷ xs) [] i e h = absurd (omega arith)
get_or-add_elements (x ∷ xs) (y ∷ ys) zero e h = ap (λ t. t % 2 ^ 64) (add_comm x y)
get_or-add_elements (x ∷ xs) (y ∷ ys) (suc i) e h =
    get_or-add_elements xs ys i (omega arith) (omega arith)

length-add_elements : (xs ys : List ℕ) → length (add_elements xs ys) ≡ length ys
unfolding add_elements
length-add_elements [] ys = refl
length-add_elements (x ∷ xs) [] = refl
length-add_elements (x ∷ xs) (y ∷ ys) = ap suc (length-add_elements xs ys)

-- `after` is `before` with `added i` added in each column i, modulo 2^64, and `count` contributors.
pub record IsAdded (added : ℕ → ℕ) (count : ℕ) (before after : AggregationMessage) : Type 0 where
  pub sender : after.sender_id ≡ before.sender_id
  pub query : after.query_num ≡ before.query_num
  pub counted : after.num_contributors ≡ before.num_contributors + count
  pub size : length after.body ≡ length before.body
  pub columns :
      (i : ℕ)
      → i < length before.body
      → get_or after.body i 0 % 2 ^ 64 ≡ (get_or before.body i 0 + added i) % 2 ^ 64

abbrev message_of : ℕ → ℕ → ℕ → List ℕ → AggregationMessage
message_of sender query contributors body = record {
  sender_id = sender;
  num_contributors = contributors;
  query_num = query;
  body = body;
}

module _ (sender query contributors count : ℕ) where
  add_value-IsAdded :
      (x y : ℕ) (xs ys : List ℕ)
      → IsAdded
          (share true (x ∷ xs))
          count
          (message_of sender query contributors (y ∷ ys))
          (message_of sender query (contributors + count) ((y +fp x) ∷ ys))
  add_value-IsAdded x y xs ys = record {
    sender = refl;
    query = refl;
    counted = refl;
    size = refl;
    columns = column;
  }
    where
      column :
          (i : ℕ)
          → i < length (y ∷ ys)
          → get_or ((y +fp x) ∷ ys) i 0 % 2 ^ 64
            ≡ (get_or (y ∷ ys) i 0 + share true (x ∷ xs) i) % 2 ^ 64
      column zero h = mod-mod (y + x) (2 ^ 64)
      column (suc i) h = omega arith

  add_values-IsAdded :
      (values body : List ℕ)
      → length values ≡ length body
      → IsAdded
          (share false values)
          count
          (message_of sender query contributors body)
          (message_of sender query (contributors + count) (add_elements values body))
  add_values-IsAdded values body e = record {
    sender = refl;
    query = refl;
    counted = refl;
    size = length-add_elements values body;
    columns = λ i h. rw (get_or-add_elements values body i e h) (mod-mod _ _);
  }

  -- The call of `add_message` and of `add_contribution`, with the vectors laid open.
  message-IsAdded :
      (single : Bool) (body values : List ℕ) (from q : ℕ)
      → Fits single (length body) values
      → let before = message_of sender query contributors body in
        (sum : AggregationMessage) × (add_message single before (message_of from q count values)
          ≡ ok sum)
        × IsAdded (share single values) count before sum
  unfolding add_message
  message-IsAdded true [] values from q f = absurd (omega arith)
  message-IsAdded true (y ∷ ys) [] from q f = absurd (omega arith)
  message-IsAdded true (y ∷ ys) (x ∷ xs) from q f = (_, refl, add_value-IsAdded x y xs ys)
  message-IsAdded false body values from q f =
      (_, rw ((==_iff _ _).1 f), add_values-IsAdded values body f)

-- A child's vector that fits is added, without an exception, a failed assertion or a read past the
-- end of a vector.
pub add_message-IsAdded :
    (single : Bool) (intermediate message : AggregationMessage)
    → Fits single (length intermediate.body) message.body
    → (sum : AggregationMessage) × (add_message single intermediate message ≡ ok sum)
      × IsAdded (share single message.body) message.num_contributors intermediate sum
add_message-IsAdded single intermediate message =
    message-IsAdded intermediate.sender_id intermediate.query_num intermediate.num_contributors
      message.num_contributors single intermediate.body message.body message.sender_id
      message.query_num

contribution-IsAdded :
    (sender query contributors : ℕ) (single : Bool) (body values : List ℕ) (q : ℕ)
    (proxies signature : List ℕ)
    → Fits single (length body) values
    → let before = message_of sender query contributors body in
      (sum : AggregationMessage) × (add_contribution single before (record {
        value = record { query_num = q; value = values; proxies = proxies };
        signature = signature;
      })
        ≡ ok sum)
      × IsAdded (share single values) 1 before sum
unfolding add_contribution
contribution-IsAdded s q n true [] values r ps sig f = absurd (omega arith)
contribution-IsAdded s q n true (y ∷ ys) [] r ps sig f = absurd (omega arith)
contribution-IsAdded s q n true (y ∷ ys) (x ∷ xs) r ps sig f =
    (_, refl, add_value-IsAdded s q n 1 x y xs ys)
contribution-IsAdded s q n false body values r ps sig f =
    (_, rw ((==_iff _ _).1 f), add_values-IsAdded s q n 1 values body f)

-- So is an accepted contribution, as one contributor.
pub add_contribution-IsAdded :
    (single : Bool) (intermediate : AggregationMessage) (c : ValueContribution)
    → Fits single (length intermediate.body) c.value.value
    → (sum : AggregationMessage) × (add_contribution single intermediate c ≡ ok sum)
      × IsAdded (share single c.value.value) 1 intermediate sum
add_contribution-IsAdded single intermediate c =
    contribution-IsAdded intermediate.sender_id intermediate.query_num intermediate.num_contributors
      single intermediate.body c.value.value c.value.query_num c.value.proxies c.signature
