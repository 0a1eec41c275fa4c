-- ===== src/Messages/Onion.antt =====
-- messaging/OnionBuilder.cpp: the layers of encryption around a payload that takes a path.
use pddm.Prelude.{
  ℕ, ◌==◌, ==_iff, if◌then◌else◌, false, Option, none, some, List, [], ◌∷◌, ◌++◌, append-nil, ◌≡◌,
  refl, ap, sym, ◌∙◌,
}
use pddm.Messages.Outcome.{Outcome, ok, undefined}
use pddm.Messages.Body.{MessageBody, Crypto}

-- The elements of a list in reverse, in front of others.
abbrev pub reverse_onto {ℓ} : {A : Type ℓ} → List A → List A → List A
reverse_onto [] after = after
reverse_onto (x ∷ xs) after = reverse_onto xs (x ∷ after)

module _ (crypto : Crypto) (query_num : ℕ) where
  unfoldable pub layer : ℕ → MessageBody → MessageBody
  layer hop body = crypto.rsa_encrypt (MessageBody.overlay query_num hop false false body) hop

  -- The loop, from the last hop but one to the first.
  unfoldable pub layers : MessageBody → List ℕ → MessageBody
  unfolding layer
  layers current [] = current
  layers current (hop ∷ hops) = layers (layer hop current) hops

  -- An empty path has no back.
  unfoldable pub build_encrypted_onion : List ℕ → MessageBody → Outcome MessageBody
  unfolding layer layers
  build_encrypted_onion path payload = elim (reverse_onto path []) [
    | [] ↦ undefined
    | last ∷ hops ↦ ok (layers (layer last payload) hops)
  ]

-- The body of a message that is destined for a meter.
abbrev pub body_for : ℕ → MessageBody → Option MessageBody
body_for hop (MessageBody.overlay query destination encrypted flood body) =
    if destination == hop then some body else none
body_for hop _ = none

-- What the meters on a path make of a message: each decrypts it with its own key, checks that it is
-- the destination, and passes the body on.
unfoldable pub peel : (ℕ → MessageBody → MessageBody) → List ℕ → MessageBody → Option MessageBody
peel decrypt_as [] message = some message
peel decrypt_as (hop ∷ rest) message = elim (body_for hop (decrypt_as hop message)) [
  | none ↦ none
  | some body ↦ peel decrypt_as rest body
]

reverse_twice :
    (xs before after : List ℕ)
    → reverse_onto (reverse_onto xs before) after ≡ reverse_onto before (xs ++ after)
reverse_twice [] before after = refl
reverse_twice (x ∷ xs) before after = reverse_twice xs (x ∷ before) after

module _ (crypto : Crypto) (query_num : ℕ) where
  -- The layers by the path, the first hop's outermost.
  unfoldable pub nested : List ℕ → MessageBody → MessageBody
  unfolding layer
  nested [] payload = payload
  nested (hop ∷ rest) payload = layer crypto query_num hop (nested rest payload)

  layers-nested :
      (hops rest : List ℕ) (payload : MessageBody)
      → layers crypto query_num (nested rest payload) hops ≡ nested (reverse_onto hops rest) payload
  unfolding layers nested
  layers-nested [] rest payload = refl
  layers-nested (hop ∷ hops) rest payload = layers-nested hops (hop ∷ rest) payload

  pub build_encrypted_onion-nested :
      (first : ℕ) (rest : List ℕ) (payload : MessageBody)
      → build_encrypted_onion crypto query_num (first ∷ rest) payload
        ≡ ok (nested (first ∷ rest) payload)
  unfolding build_encrypted_onion nested
  build_encrypted_onion-nested first rest payload = built (reverse_onto (first ∷ rest) []) refl
    where
      path : List ℕ
      path = first ∷ rest

      twice : (r : List ℕ) → reverse_onto path [] ≡ r → reverse_onto r [] ≡ path
      twice r e = ap (λ t. reverse_onto t []) (sym e) ∙ reverse_twice path [] [] ∙ append-nil path

      built :
          (r : List ℕ)
          → reverse_onto path [] ≡ r
          → build_encrypted_onion crypto query_num path payload ≡ ok (nested path payload)
      built [] e = let bad : [] ≡ path = twice [] e in absurd cc
      built (last ∷ hops) e =
          rw (build_encrypted_onion, e)
            (ap ok (
              layers-nested hops (last ∷ []) payload
              ∙ ap (λ p. nested p payload) (twice (last ∷ hops) e)))

module _ (crypto : Crypto) (query_num : ℕ) (decrypt_as : ℕ → MessageBody → MessageBody)
    (decrypts : (id : ℕ) (body : MessageBody)
      → let message = MessageBody.overlay query_num id false false body in
        decrypt_as id (crypto.rsa_encrypt message id) ≡ message) where
  peel-layer :
      (hop : ℕ) (rest : List ℕ) (body : MessageBody)
      → peel decrypt_as (hop ∷ rest) (layer crypto query_num hop body) ≡ peel decrypt_as rest body
  unfolding peel layer
  peel-layer hop rest body =
      let e = decrypts hop body in
      let here : body_for hop (decrypt_as hop (layer crypto query_num hop body)) ≡ some body =
        rw (e, (==_iff hop hop).1 refl) refl in
      rw (peel, here) refl

  peel-nested :
      (path : List ℕ) (payload : MessageBody)
      → peel decrypt_as path (nested crypto query_num path payload) ≡ some payload
  unfolding peel nested
  peel-nested [] payload = refl
  peel-nested (hop ∷ rest) payload =
      peel-layer hop rest (nested crypto query_num rest payload) ∙ peel-nested rest payload

  -- If decrypting with a meter's key undoes encrypting a message that is destined for that meter, then
  -- an onion is built for every path that has a hop, and the meters of the path, which take off a layer
  -- each in the path's order and find themselves to be its destination, come to the payload.
  pub peel-build_encrypted_onion :
      (first : ℕ) (rest : List ℕ) (payload : MessageBody)
      → (onion : MessageBody) × (build_encrypted_onion crypto query_num (first ∷ rest) payload
          ≡ ok onion)
        × (peel decrypt_as (first ∷ rest) onion ≡ some payload)
  peel-build_encrypted_onion first rest payload = (
    _,
    build_encrypted_onion-nested crypto query_num first rest payload,
    peel-nested (first ∷ rest) payload,
  )
