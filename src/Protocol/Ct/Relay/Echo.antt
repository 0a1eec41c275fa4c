-- ===== src/Protocol/Ct/Relay/Echo.antt =====
-- The messages that CtProtocolState.cpp echoes a value with, on their way in the simulation.
use mathlib.Core.Path.{subst}
use pddm.Prelude.{
  ℕ, ◌==◌, ==_iff, Bool, true, false, List, [], ◌∷◌, ◌++◌, map, contains, append-nil, All, ◌≡◌,
  refl, sym, arith,
}
use pddm.Messages.{ValueContribution}
use pddm.Messages.Outcome.{ok}
use pddm.Messages.Body.{MessageBody, Crypto}
use pddm.Messages.Multicast.{others, back, path_messages, multicast}
use pddm.Simulation.Crypto.{sim_crypto, mark}
use pddm.PathFinder.Defs.{InfectedNode, find_paths}
use pddm.PathFinder.Search.{KeepsMembers}
use pddm.PathFinder.Routes.{IsSimple}
use pddm.PathFinder.Disjoint.{AreDisjointRoutes, inner, find_paths-disjoint}
use pddm.Protocol.{Environment}
use pddm.Protocol.Batch.{is_for}
use pddm.Protocol.Round.{handle_overlay_message, is_encrypted}
use pddm.Protocol.Ct.{State, handle_overlay_message_impl, handle_content, subclass}
use pddm.Protocol.Ct.Relay.{
  Takes, Handles, restarted, passes_on, receives, All-Takes, meter_ids, then_ends_lem, impl-value,
  Takes-restarted,
}

-- The meters take the message from one to the next, as `Relayed` has it, and what a meter sends on is
-- not encrypted.
abbrev pub RelayedInClear :
    (State → Environment) → ValueContribution → List State → MessageBody → Type 0
RelayedInClear env c [] message = ⊥
RelayedInClear env c (s ∷ []) message =
    (is_for s.meter_id message ≡ true) × Handles env s message (receives c s)
RelayedInClear env c (s ∷ s' ∷ rest) message =
    (is_for s.meter_id message ≡ true)
    × (next : MessageBody) × Handles env s message (passes_on next s)
    × (is_encrypted next ≡ false)
    × RelayedInClear env c (s' ∷ rest) next

-- No node is followed by itself.
abbrev NeverStays : List ℕ → Type 0
NeverStays [] = Unit {0}
NeverStays (a ∷ []) = Unit {0}
NeverStays (a ∷ b ∷ rest) = ((b == a) ≡ false) × NeverStays (b ∷ rest)

simple-NeverStays :
    (mids : List ℕ) (goal : ℕ)
    → IsSimple mids
    → contains mids goal ≡ false
    → NeverStays (mids ++ goal ∷ [])
simple-NeverStays [] goal simple free = tt
simple-NeverStays (a ∷ []) goal simple free = (ground arith, tt)
simple-NeverStays (a ∷ b ∷ rest) goal simple free =
    (ground arith, simple-NeverStays (b ∷ rest) goal simple.1 (ground arith))

-- A path that ends at a goal has the goal at its back.
back-goal :
    (first : ℕ) (rest : List ℕ) (goal : ℕ)
    → first ∷ rest ≡ inner (first ∷ rest) ++ goal ∷ []
    → back first rest ≡ goal
unfolding back
back-goal first [] goal shape = cc
back-goal first (next ∷ rest) goal shape =
    let tail : next ∷ rest ≡ inner (next ∷ rest) ++ goal ∷ [] = cc in back-goal next rest goal tail

module _ (c : ValueContribution) (query_num : ℕ) where
  -- The messages over the paths, each encrypted for the goal of its path.
  abbrev pub encrypted_for : Crypto → List ℕ → List (List ℕ) → List MessageBody
  encrypted_for crypto (goal ∷ goals) ((first ∷ rest) ∷ paths) =
      crypto.rsa_encrypt
        (MessageBody.path_overlay query_num first false false rest
          (MessageBody.value_contribution c))
        goal
      ∷ encrypted_for crypto goals paths
  encrypted_for crypto _ _ = []

  path_messages-encrypted_for :
      (crypto : Crypto) (n start source last : ℕ) (used goals : List ℕ) (paths : List (List ℕ))
      → AreDisjointRoutes n start source last used goals paths
      → path_messages crypto query_num (MessageBody.value_contribution c) paths
        ≡ ok (encrypted_for crypto goals paths)
  unfolding path_messages
  path_messages-encrypted_for crypto n start source last used [] [] r = refl
  path_messages-encrypted_for crypto n start source last used [] (p ∷ paths) r = absurd r
  path_messages-encrypted_for crypto n start source last used (g ∷ goals) [] r = absurd r
  path_messages-encrypted_for crypto n start source last used (g ∷ goals) ([] ∷ paths) r =
      let empty : [] ≡ g ∷ [] = r.0 in absurd cc
  path_messages-encrypted_for crypto n start source last used (g ∷ goals) ((first ∷ path) ∷ paths)
        r =
      let (shape, valid, route, simple, avoids, none_on, rest) = r in
      rw
        (
          path_messages-encrypted_for crypto n start source last used goals paths rest,
          back-goal first path g shape,
        )
        refl

module _ (base : ℕ → Environment) (unwritten : List ℕ) (c : ValueContribution) (query_num : ℕ) where
  -- The surroundings of a meter in the simulation.
  abbrev env : State → Environment
  env s = record (base s.meter_id) { crypto = sim_crypto unwritten }

  abbrev message : Bool → ℕ → List ℕ → MessageBody
  message encrypted id remaining =
      MessageBody.path_overlay query_num id encrypted false remaining
        (MessageBody.value_contribution c)

  -- A meter on the way.
  forward-Handles :
      (s : State) (encrypted : Bool) (next : ℕ) (rest : List ℕ)
      → Takes c s
      → (next == s.meter_id) ≡ false
      → Handles env s
          (message encrypted s.meter_id (next ∷ rest))
          (passes_on (message false next rest) s)
  unfolding handle_overlay_message subclass handle_overlay_message_impl handle_content sim_crypto
      mark
  forward-Handles s true next rest takes apart end_overlay_round sender_id sender_round final =
      rw (takes.busy, apart) (then_ends_lem end_overlay_round final _ takes.busy)
  forward-Handles s false next rest takes apart end_overlay_round sender_id sender_round final =
      rw (takes.busy, apart) (then_ends_lem end_overlay_round final _ takes.busy)

  -- The last one.
  arrived-Handles :
      (s : State) (encrypted : Bool)
      → Takes c s
      → Handles env s (message encrypted s.meter_id []) (receives c s)
  unfolding handle_overlay_message subclass sim_crypto mark
  arrived-Handles s true takes end_overlay_round sender_id sender_round final =
      rw (takes.busy, append-nil s.waiting_messages)
        (impl-value c end_overlay_round (restarted s) sender_id sender_round final
          (message false s.meter_id []) (Takes-restarted c s takes)
          (rw ((==_iff s.meter_id s.meter_id).1 refl) refl))
  arrived-Handles s false takes end_overlay_round sender_id sender_round final =
      rw (takes.busy, append-nil s.waiting_messages)
        (impl-value c end_overlay_round (restarted s) sender_id sender_round final
          (message false s.meter_id []) (Takes-restarted c s takes)
          (rw ((==_iff s.meter_id s.meter_id).1 refl) refl))

  path-RelayedInClear :
      (s : State) (rest : List State) (encrypted : Bool)
      → All (Takes c) (s ∷ rest)
      → NeverStays (map (λ t. t.meter_id) (s ∷ rest))
      → RelayedInClear env c (s ∷ rest) (message encrypted s.meter_id (map (λ t. t.meter_id) rest))
  path-RelayedInClear s [] encrypted all apart =
      ((==_iff s.meter_id s.meter_id).1 refl, arrived-Handles s encrypted all.0)
  path-RelayedInClear s (s' ∷ rest) encrypted all apart = (
    (==_iff s.meter_id s.meter_id).1 refl,
    message false s'.meter_id (map (λ t. t.meter_id) rest),
    forward-Handles s encrypted s'.meter_id (map (λ t. t.meter_id) rest) all.0 apart.0,
    refl,
    path-RelayedInClear s' rest false all.1 apart.1,
  )

  module _ (state : ℕ → State) (named : (id : ℕ) → (state id).meter_id ≡ id)
      (takes : (id : ℕ) → Takes c (state id)) where
    abbrev pub AllInClear : List (List ℕ) → List MessageBody → Type 0
    AllInClear [] [] = Unit {0}
    AllInClear (path ∷ paths) (m ∷ ms) =
        RelayedInClear env c (map state path) m × AllInClear paths ms
    AllInClear _ _ = ⊥

    route-RelayedInClear :
        (first : ℕ) (rest : List ℕ)
        → NeverStays (first ∷ rest)
        → RelayedInClear env c (map state (first ∷ rest)) (message true first rest)
    route-RelayedInClear first rest apart =
        let along =
          path-RelayedInClear (state first) (map state rest) true
            (All-Takes state c takes (first ∷ rest))
            (rw (meter_ids state named (first ∷ rest)) apart) in
        let whole = RelayedInClear env c (map state (first ∷ rest)) in
        subst (λ r. whole (message true first r)) (meter_ids state named rest)
          (subst (λ id. whole (message true id (map (λ s. s.meter_id) (map state rest))))
            (named first) along)

    encrypted-AllInClear :
        (n start source last : ℕ) (used goals : List ℕ) (paths : List (List ℕ))
        → ((x : ℕ) → contains goals x ≡ true → contains used x ≡ true)
        → AreDisjointRoutes n start source last used goals paths
        → AllInClear paths (encrypted_for c query_num (sim_crypto unwritten) goals paths)
    unfolding sim_crypto mark
    encrypted-AllInClear n start source last used [] [] sub r = tt
    encrypted-AllInClear n start source last used [] (p ∷ paths) sub r = absurd r
    encrypted-AllInClear n start source last used (g ∷ goals) [] sub r = absurd r
    encrypted-AllInClear n start source last used (g ∷ goals) ([] ∷ paths) sub r =
        let empty : [] ≡ g ∷ [] = r.0 in absurd cc
    encrypted-AllInClear n start source last used (g ∷ goals) ((first ∷ path) ∷ paths) sub r =
        let (shape, valid, route, simple, avoids, none_on, rest) = r in
        let is_used : contains used g ≡ true = ground (arith, sub g) in
        let apart : NeverStays (first ∷ path) =
          subst (λ p. NeverStays p) (sym shape)
            (simple-NeverStays (inner (first ∷ path)) g simple.1
              (ground (arith, avoids g, is_used))) in
        (
          route-RelayedInClear first path apart,
          encrypted-AllInClear n start source last used goals paths (λ x m. ground (arith, sub x))
              rest,
        )

    -- When a meter echoes a value: whenever paths to the other proxies are found, a message is made for
    -- each, for the first meter of its path, and encrypted for the proxy that the path goes to. In the
    -- simulation, the handlers of the meters on the path, while they are in the shuffle or the echo of
    -- the value's query, relay it to the proxy, which takes the value; but what the first meter of the
    -- path sends on, and each one after it, is not encrypted any more, if the path has further meters.
    pub echo_relayed_in_clear :
        (crypto : Crypto) (order : List InfectedNode → List InfectedNode) (source n start : ℕ)
        (goals : List ℕ) (paths : List (List ℕ))
        → KeepsMembers order
        → others source c.value.proxies ≡ ok goals
        → find_paths order source goals n start ≡ ok paths
        → (multicast crypto order query_num source n start c.value.proxies
              (MessageBody.value_contribution c)
            ≡ ok (encrypted_for c query_num crypto goals paths))
          × (multicast
                (sim_crypto unwritten)
                order
                query_num
                source
                n
                start
                c.value.proxies
                (MessageBody.value_contribution c)
              ≡ ok (encrypted_for c query_num (sim_crypto unwritten) goals paths))
          × AllInClear paths (encrypted_for c query_num (sim_crypto unwritten) goals paths)
    unfolding multicast
    echo_relayed_in_clear crypto order source n start goals paths keeps rest found =
        let disjoint = find_paths-disjoint order source goals n start paths keeps found in
        (
          rw (rest, found)
              (path_messages-encrypted_for c query_num crypto n start source _ goals goals paths
                disjoint),
          rw (rest, found)
              (path_messages-encrypted_for c query_num (sim_crypto unwritten) n start source _ goals
                goals paths disjoint),
          encrypted-AllInClear n start source _ goals goals paths (λ x m. m) disjoint,
        )
