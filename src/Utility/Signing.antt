-- ===== src/Utility/Signing.antt =====
-- The signatures that the utility sends in a query.
use pddm.Prelude.{
  ℕ, ◌≡◌, ap, ◌==◌, ==_iff, if◌then◌else◌, true, false, Bool-cases, inl, inr, List, [], ◌∷◌, ◌++◌,
  contains, arith,
}
use pddm.Messages.{QueryRequest}
use pddm.Utility.{UtilityClient, Effect}
use pddm.Utility.Client.{handle_signature_request, start_query}

module _ (sign : List ℕ → List ℕ) where
  -- The requests that come between the start of a query and its end, each with its sender.
  unfoldable pub sign_all : UtilityClient → List (ℕ × List ℕ) → UtilityClient × List Effect
  sign_all s [] = (s, [])
  sign_all s ((sender, body) ∷ rest) =
      let (s', effects) = handle_signature_request sign s sender body in
      let (s'', later) = sign_all s' rest in (s'', effects ++ later)

  -- The signatures that are sent to a meter.
  abbrev pub sent_to : ℕ → List Effect → List (List ℕ)
  sent_to meter [] = []
  sent_to meter (Effect.send_signature to body ∷ rest) =
      if to == meter then body ∷ sent_to meter rest else sent_to meter rest
  sent_to meter (_ ∷ rest) = sent_to meter rest

  -- The first request of a meter.
  abbrev pub first_of : ℕ → List (ℕ × List ℕ) → List (List ℕ)
  first_of meter [] = []
  first_of meter ((sender, body) ∷ rest) =
      if sender == meter then sign body ∷ [] else first_of meter rest

  sign_all-sent :
      (s : UtilityClient) (meter : ℕ) (requests : List (ℕ × List ℕ))
      → sent_to meter (sign_all s requests).1
        ≡ (if contains s.curr_query_meters_signed meter then [] else first_of meter requests)
  unfolding sign_all handle_signature_request
  sign_all-sent s meter [] = ground arith
  sign_all-sent s meter ((sender, body) ∷ rest) =
      let old = s.curr_query_meters_signed in
      let added = record s { curr_query_meters_signed = sender ∷ old } in
      let again = sign_all-sent s meter rest in
      let later = sign_all-sent added meter rest in
      elim (Bool-cases (contains old sender)) [
        | inl signed ↦ elim (Bool-cases (sender == meter)) [
          | inl same ↦
              let e : sender ≡ meter = (==_iff sender meter).0 same in
              let in_old : contains old meter ≡ true = rw e at signed in
              rw (signed, same, in_old) (rw in_old at again)
          | inr other ↦ rw (signed, other) again
        ]
        | inr new ↦ elim (Bool-cases (sender == meter)) [
          | inl same ↦
              let e : sender ≡ meter = (==_iff sender meter).0 same in
              let out : contains old meter ≡ false = rw e at new in
              rw (new, same, out) (ap (λ r. sign body ∷ r) (rw same at later))
          | inr other ↦ rw (new, other) (rw other at later)
        ]
      ]

  -- After a query has started, each meter gets one signature, that of its first request, if it makes a
  -- request at all, however many it makes and whatever the others request in between.
  pub signs_first_request :
      (s : UtilityClient) (query : QueryRequest) (meter : ℕ) (requests : List (ℕ × List ℕ))
      → sent_to meter (sign_all (start_query s query).0 requests).1 ≡ first_of meter requests
  unfolding start_query
  signs_first_request s query meter requests = sign_all-sent (start_query s query).0 meter requests
