-- ===== src/Utility/Callbacks.antt =====
-- UtilityClient::register_query_callback and deregister_query_callback. The map is its keys, in order.
use pddm.Prelude.{
  ℕ, ◌+◌, ◌<◌, ◌≡◌, refl, ap, ◌==◌, ==_iff, if◌then◌else◌, Bool, true, false, List, [], ◌∷◌, ◌++◌,
  contains, All, arith, All-append, ||-true_right,
}
use pddm.Utility.{UtilityClient}

-- The id for the next callback: one more than the last key.
unfoldable pub next_id : List ℕ → ℕ
next_id [] = 0
next_id (id ∷ []) = id + 1
next_id (id ∷ rest) = next_id rest

unfoldable pub register_query_callback : UtilityClient → UtilityClient × ℕ
unfolding next_id
register_query_callback s =
    let id = next_id s.query_callbacks in
    (record s { query_callbacks = s.query_callbacks ++ id ∷ [] }, id)

-- std::map::erase.
unfoldable pub erase : ℕ → List ℕ → List ℕ
erase id [] = []
erase id (x ∷ rest) = let later = erase id rest in if x == id then rest else x ∷ later

unfoldable pub deregister_query_callback : UtilityClient → ℕ → UtilityClient × Bool
unfolding erase
deregister_query_callback s id =
    (record s { query_callbacks = erase id s.query_callbacks }, contains s.query_callbacks id)

-- The keys of a map, in order.
abbrev pub Increasing : List ℕ → Type 0
Increasing [] = Unit {0}
Increasing (x ∷ xs) = All (λ y. x < y) xs × Increasing xs

below-next_id : (ids : List ℕ) → Increasing ids → All (λ x. x < next_id ids) ids
unfolding next_id
below-next_id [] h = tt
below-next_id (id ∷ []) h = (omega arith, tt)
below-next_id (id ∷ x ∷ rest) h =
    let later = below-next_id (x ∷ rest) h.1 in (omega (arith, h.0.0, later.0), later)

erase-append : (id : ℕ) (ids : List ℕ) → All (λ x. x < id) ids → erase id (ids ++ id ∷ []) ≡ ids
unfolding erase
erase-append id [] h = rw ((==_iff id id).1 refl) refl
erase-append id (x ∷ rest) h =
    let other : (x == id) ≡ false = ground arith in
    rw other (ap (λ t. x ∷ t) (erase-append id rest h.1))

contains-below : (id : ℕ) (ids : List ℕ) → All (λ x. x < id) ids → contains ids id ≡ false
contains-below id [] h = refl
contains-below id (x ∷ rest) h =
    let other : (x == id) ≡ false = ground arith in rw other (contains-below id rest h.1)

contains-append : (id : ℕ) (ids : List ℕ) → contains (ids ++ id ∷ []) id ≡ true
contains-append id [] = rw ((==_iff id id).1 refl) refl
contains-append id (x ∷ rest) = ||-true_right (x == id) _ (contains-append id rest)

-- If the ids of the callbacks are in order, a callback that is registered gets an id that no other one
-- has, the ids are in order again, and deregistering it succeeds and leaves the callbacks that there
-- were before.
pub register-deregister :
    (s : UtilityClient)
    → Increasing s.query_callbacks
    → let (s', id) = register_query_callback s in
      (contains s.query_callbacks id ≡ false)
      × Increasing s'.query_callbacks
      × (deregister_query_callback s' id ≡ (s, true))
unfolding register_query_callback deregister_query_callback
register-deregister s h =
    let ids = s.query_callbacks in
    let below = below-next_id ids h in
    (
      contains-below (next_id ids) ids below,
      increasing-append ids (next_id ids) h below,
      λ i. (
        record s { query_callbacks = erase-append (next_id ids) ids below i },
        contains-append (next_id ids) ids i,
      ),
    )
  where
    increasing-append :
        (ids : List ℕ) (id : ℕ)
        → Increasing ids
        → All (λ x. x < id) ids
        → Increasing (ids ++ id ∷ [])
    increasing-append [] id h b = (tt, tt)
    increasing-append (x ∷ rest) id h b =
        (All-append (λ y. x < y) rest (id ∷ []) h.0 (b.0, tt), increasing-append rest id h.1 b.1)
