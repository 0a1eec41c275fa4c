-- ===== src/Protocol/Batch/Conserve.antt =====
-- The parts of a batch: the messages that are split off, and their envelopes.
use pddm.Prelude.{
  ℕ, suc, ◌+◌, ◌≡◌, refl, ap, if◌then◌else◌, Bool, true, false, ◌||◌, Bool-cases, inl, inr, List,
  [], ◌∷◌, ◌++◌, map, All, arith, ||-true_right,
}
use pddm.Messages.Body.{MessageBody}
use pddm.Protocol.{Transport}
use pddm.Protocol.Batch.{is_for, floods, split_waiting, split_outgoing, envelopes}

-- How many messages have a property.
abbrev pub count_if : (MessageBody → Bool) → List MessageBody → ℕ
count_if p [] = 0
count_if p (m ∷ rest) = if p m then suc (count_if p rest) else count_if p rest

abbrev pub bodies : List Transport → List MessageBody
bodies batch = map (λ m. m.body) batch

-- The last message is marked as final, and no other one is.
abbrev pub EndsFinal : List Transport → Type 0
EndsFinal [] = ⊥
EndsFinal (m ∷ []) = m.is_final_message ≡ true
EndsFinal (m ∷ rest) = (m.is_final_message ≡ false) × EndsFinal rest

-- A message that is due for a meter in this round.
abbrev pub IsDue : ℕ → MessageBody → Type 0
IsDue meter m = (floods m || is_for meter m) ≡ true

pub count_if-append :
    (p : MessageBody → Bool) (xs ys : List MessageBody)
    → count_if p (xs ++ ys) ≡ count_if p xs + count_if p ys
count_if-append p [] ys = omega arith
count_if-append p (x ∷ xs) ys = ground (arith, count_if-append p xs ys)

pub split_waiting-count :
    (p : MessageBody → Bool) (meter : ℕ) (ms : List MessageBody)
    → count_if p (split_waiting meter ms).0 + count_if p (split_waiting meter ms).1 ≡ count_if p ms
unfolding split_waiting
split_waiting-count p meter [] = refl
split_waiting-count p meter (m ∷ rest) =
    let later = split_waiting-count p meter rest in
    elim (Bool-cases (is_for meter m)) [
      | inl due ↦ rw due (ground arith)
      | inr not_due ↦ rw not_due (ground arith)
    ]

pub split_outgoing-count :
    (p : MessageBody → Bool) (meter : ℕ) (ms : List MessageBody)
    → count_if p (split_outgoing meter ms).0 + count_if p (split_outgoing meter ms).1
      ≡ count_if p ms
unfolding split_outgoing
split_outgoing-count p meter [] = refl
split_outgoing-count p meter (m ∷ rest) =
    let later = split_outgoing-count p meter rest in
    elim (Bool-cases (floods m || is_for meter m)) [
      | inl due ↦ rw due (ground arith)
      | inr not_due ↦ rw not_due (ground arith)
    ]

pub split_waiting-IsDue :
    (meter : ℕ) (ms : List MessageBody)
    → All (IsDue meter) (split_waiting meter ms).0
      × All (λ m. is_for meter m ≡ false) (split_waiting meter ms).1
unfolding split_waiting
split_waiting-IsDue meter [] = (tt, tt)
split_waiting-IsDue meter (m ∷ rest) =
    let (due, not_due) = split_waiting-IsDue meter rest in
    elim (Bool-cases (is_for meter m)) [
      | inl yes_for ↦ rw yes_for ((||-true_right (floods m) _ yes_for, due), not_due)
      | inr no_for ↦ rw no_for (due, (no_for, not_due))
    ]

or-false : (a b : Bool) → (a || b) ≡ false → b ≡ false
or-false true b h = cc
or-false false b h = h

pub split_outgoing-IsDue :
    (meter : ℕ) (ms : List MessageBody)
    → All (IsDue meter) (split_outgoing meter ms).0
      × All (λ m. is_for meter m ≡ false) (split_outgoing meter ms).1
unfolding split_outgoing
split_outgoing-IsDue meter [] = (tt, tt)
split_outgoing-IsDue meter (m ∷ rest) =
    let (due, not_due) = split_outgoing-IsDue meter rest in
    elim (Bool-cases (floods m || is_for meter m)) [
      | inl now ↦ rw now ((now, due), not_due)
      | inr later ↦ rw later (due, (or-false (floods m) (is_for meter m) later, not_due))
    ]

pub envelopes-bodies : (id round : ℕ) (ms : List MessageBody) → bodies (envelopes id round ms) ≡ ms
unfolding envelopes
envelopes-bodies id round [] = refl
envelopes-bodies id round (m ∷ []) = refl
envelopes-bodies id round (m ∷ m' ∷ rest) = ap (λ t. m ∷ t) (envelopes-bodies id round (m' ∷ rest))

pub envelopes-EndsFinal :
    (id round : ℕ) (m : MessageBody) (ms : List MessageBody)
    → EndsFinal (envelopes id round (m ∷ ms))
unfolding envelopes
envelopes-EndsFinal id round m [] = refl
envelopes-EndsFinal id round m (m' ∷ []) = (refl, refl)
envelopes-EndsFinal id round m (m' ∷ m'' ∷ rest) =
    (refl, envelopes-EndsFinal id round m' (m'' ∷ rest))

-- Each envelope has the meter's id and the round.
abbrev pub IsFrom : ℕ → ℕ → Transport → Type 0
IsFrom id round m = (m.sender_id ≡ id) × (m.sender_round ≡ round)

pub envelopes-IsFrom :
    (id round : ℕ) (ms : List MessageBody) → All (IsFrom id round) (envelopes id round ms)
unfolding envelopes
envelopes-IsFrom id round [] = tt
envelopes-IsFrom id round (m ∷ []) = ((refl, refl), tt)
envelopes-IsFrom id round (m ∷ m' ∷ rest) = ((refl, refl), envelopes-IsFrom id round (m' ∷ rest))

pub envelopes-IsDue :
    (to id round : ℕ) (ms : List MessageBody)
    → All (IsDue to) ms
    → All (IsDue to) (bodies (envelopes id round ms))
envelopes-IsDue to id round ms h = rw (envelopes-bodies id round ms) h

pub count_if-envelopes :
    (p : MessageBody → Bool) (id round : ℕ) (ms : List MessageBody)
    → count_if p (bodies (envelopes id round ms)) ≡ count_if p ms
count_if-envelopes p id round ms = ap (count_if p) (envelopes-bodies id round ms)
