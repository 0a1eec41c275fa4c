-- ===== src/Protocol/Ct/Relay/Shuffle.antt =====
-- The onions of `encrypted_multicast_to_proxies` of ProtocolState_impl.h on their way to the proxies, as
-- CtProtocolState.cpp handles them.
use pddm.Prelude.{ℕ, ◌+◌, ◌*◌, ◌≡◌, true, false, List, [], ◌∷◌, map, length, refl}
use pddm.Prelude.Log.{ceil_log2}
use pddm.Messages.{ValueContribution}
use pddm.Messages.Outcome.{ok}
use pddm.Messages.Body.{MessageBody}
use pddm.Messages.Onion.{build_encrypted_onion}
use pddm.PathFinder.Defs.{find_paths, min_path_length}
use pddm.PathFinder.Search.{KeepsMembers}
use pddm.PathFinder.Disjoint.{AreDisjointRoutes, find_paths-disjoint}
use pddm.Protocol.{Environment}
use pddm.Protocol.Start.{onions}
use pddm.Protocol.Ct.{State, subclass}
use pddm.Protocol.Ct.Relay.{Takes, Relayed, All-Takes, meter_ids}
use pddm.Protocol.Ct.Relay.Path.{onion-Relayed}

-- Each message is relayed along its path, by the meters with their states.
abbrev pub AllRelayed :
    (State → Environment)
    → ValueContribution
    → (ℕ → State)
    → List (List ℕ)
    → List MessageBody
    → Type 0
AllRelayed env c state [] [] = Unit {0}
AllRelayed env c state (path ∷ paths) (m ∷ ms) =
    Relayed env c (map state path) m × AllRelayed env c state paths ms
AllRelayed env c state _ _ = ⊥

module _ (env : ℕ → Environment) (source : ℕ) (c : ValueContribution)
    (hidden : ℕ → MessageBody → MessageBody)
    (seals : (id : ℕ) (body : MessageBody)
      → (env source).crypto.rsa_encrypt
          (MessageBody.overlay c.value.query_num id false false body)
          id
        ≡ MessageBody.overlay c.value.query_num id true false (hidden id body))
    (opens : (id : ℕ) (body : MessageBody)
      → (env id).crypto.rsa_decrypt
          (MessageBody.overlay c.value.query_num id true false (hidden id body))
        ≡ MessageBody.overlay c.value.query_num id false false body)
    (state : ℕ → State) (named : (id : ℕ) → (state id).meter_id ≡ id)
    (takes : (id : ℕ) → Takes c (state id)) where
  path-Relayed :
      (first : ℕ) (rest : List ℕ)
      → (onion : MessageBody) × (build_encrypted_onion
            (env source).crypto
            c.value.query_num
            (first ∷ rest)
            (MessageBody.value_contribution c)
          ≡ ok onion)
        × Relayed (λ s. env s.meter_id) c (map state (first ∷ rest)) onion
  path-Relayed first rest = rw (meter_ids state named (first ∷ rest)) at (
      onion-Relayed (env source).crypto c.value.query_num (λ s. env s.meter_id) hidden seals
        (λ s body. opens s.meter_id body) c (state first) (map state rest)
        (All-Takes state c takes (first ∷ rest)))

  onions-AllRelayed :
      (n start last : ℕ) (used goals : List ℕ) (paths : List (List ℕ))
      → AreDisjointRoutes n start source last used goals paths
      → (messages : List MessageBody) × (onions
            (env source)
            (subclass (env source))
            c.value.query_num
            (MessageBody.value_contribution c)
            paths
          ≡ ok messages)
        × AllRelayed (λ s. env s.meter_id) c state paths messages
  unfolding onions
  onions-AllRelayed n start last used [] [] r = ([], refl, tt)
  onions-AllRelayed n start last used [] (p ∷ paths) r = absurd r
  onions-AllRelayed n start last used (g ∷ goals) [] r = absurd r
  onions-AllRelayed n start last used (g ∷ goals) ([] ∷ paths) r =
      let empty : [] ≡ g ∷ [] = r.0 in absurd cc
  onions-AllRelayed n start last used (g ∷ goals) ((first ∷ path) ∷ paths) r =
      let (shape, valid, route, simple, avoids, none_on, rest) = r in
      let (onion, built, relayed) = path-Relayed first path in
      let (later, all, others) = onions-AllRelayed n start last used goals paths rest in
      (onion ∷ later, rw (built, all) refl, (relayed, others))

  -- The values of the shuffle: whenever paths to the proxies of a value are found, an onion is made for
  -- each, and its path is a route through the gossip graph from the source to the proxy. The nodes on
  -- the way of a path are all different, are neither the source nor any proxy, and are on no other of
  -- the paths. Each onion is relayed along its path by the handlers of the meters on it, while they are
  -- in the shuffle or the echo of the value's query, to the proxy, which takes the value, if encryption
  -- hides the body of a message for a meter, and decryption by that meter undoes it.
  pub shuffle_relayed :
      (n : ℕ) (paths : List (List ℕ))
      → KeepsMembers (env source).order
      → find_paths (env source).order source c.value.proxies n 0 ≡ ok paths
      → (messages : List MessageBody) × (onions
            (env source)
            (subclass (env source))
            c.value.query_num
            (MessageBody.value_contribution c)
            paths
          ≡ ok messages)
        × AreDisjointRoutes n 0 source
            (0 + (ceil_log2 n * length c.value.proxies + min_path_length))
            c.value.proxies
            c.value.proxies
            paths
        × AllRelayed (λ s. env s.meter_id) c state paths messages
  shuffle_relayed n paths keeps found =
      let disjoint =
        find_paths-disjoint (env source).order source c.value.proxies n 0 paths keeps found in
      let (messages, made, relayed) =
        onions-AllRelayed n 0 _ c.value.proxies c.value.proxies paths disjoint in
      (messages, made, disjoint, relayed)
