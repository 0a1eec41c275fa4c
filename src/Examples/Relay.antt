-- ===== src/Examples/Relay.antt =====
-- A value of meter 0 on its way to two proxies among eleven meters, with the simulation's cryptography.
use pddm.Prelude.{ℕ, ◌+◌, ◌*◌, ◌≡◌, refl, true, false, some, List, [], ◌∷◌}
use pddm.Prelude.Log.{ceil_log2}
use pddm.Messages.{ValueTuple, ValueContribution}
use pddm.Messages.Outcome.{ok}
use pddm.Messages.Body.{MessageBody, Crypto}
use pddm.Simulation.Crypto.{sim_crypto, mark}
use pddm.PathFinder.Defs.{min_path_length}
use pddm.PathFinder.Disjoint.{AreDisjointRoutes}
use pddm.Protocol.{Environment}
use pddm.Protocol.Start.{onions}
use pddm.Protocol.Ct.{State, subclass}
use pddm.Protocol.Ct.Relay.{Takes}
use pddm.Protocol.Ct.Relay.Shuffle.{AllRelayed, shuffle_relayed}
use pddm.Messages.Multicast.{others, multicast}
use pddm.Protocol.Ct.Relay.Echo.{AllInClear, encrypted_for, echo_relayed_in_clear}
use pddm.Examples.Protocol.{surroundings, meter}
use pddm.Examples.PathFinder.{two_paths}

abbrev simulated : ℕ → Environment
simulated id = record surroundings { crypto = sim_crypto [] }

abbrev tuple : ValueTuple
tuple = record { query_num = 4; value = 8 ∷ []; proxies = 7 ∷ 9 ∷ [] }

abbrev measured : ValueContribution
measured = record { value = tuple; signature = [] }

abbrev shuffling : ℕ → State
shuffling id = record meter { meter_id = id; my_contribution = some tuple }

Takes-measured : (id : ℕ) → Takes measured (shuffling id)
Takes-measured id = record { busy = refl; mine = tuple; has = refl; same_query = refl }

abbrev paths : List (List ℕ)
paths = (2 ∷ 7 ∷ []) ∷ (1 ∷ 9 ∷ []) ∷ []

shuffle_relayed_example :
    (messages : List MessageBody) × (onions
        (simulated 0)
        (subclass (simulated 0))
        4
        (MessageBody.value_contribution measured)
        paths
      ≡ ok messages)
    × AreDisjointRoutes 11 0 0
        (0 + (ceil_log2 11 * 2 + min_path_length))
        (7 ∷ 9 ∷ [])
        (7 ∷ 9 ∷ [])
        paths
    × AllRelayed (λ s. simulated s.meter_id) measured shuffling paths messages
unfolding sim_crypto mark
shuffle_relayed_example =
    shuffle_relayed simulated 0 measured (λ id body. body) (λ id body. refl) (λ id body. refl)
      shuffling (λ id. refl) Takes-measured 11 paths (λ set x m. m) two_paths

-- Meter 0 is a proxy of this value, and echoes it to the two others.
abbrev echoed : ValueContribution
echoed = record {
  value = record { query_num = 4; value = 8 ∷ []; proxies = 0 ∷ 7 ∷ 9 ∷ [] };
  signature = [];
}

Takes-echoed : (id : ℕ) → Takes echoed (shuffling id)
Takes-echoed id = record { busy = refl; mine = tuple; has = refl; same_query = refl }

-- A cryptography with the recipient of a message in front of it.
abbrev addressed : Crypto
addressed = record (sim_crypto []) {
  rsa_encrypt = λ message id. MessageBody.overlay id id true false message;
}

abbrev relayed : Crypto → List MessageBody
relayed crypto = encrypted_for echoed 4 crypto (7 ∷ 9 ∷ []) paths

echo_relayed_in_clear_example :
    (multicast addressed (λ l. l) 4 0 11 0 (0 ∷ 7 ∷ 9 ∷ []) (MessageBody.value_contribution echoed)
      ≡ ok (relayed addressed))
    × (multicast
          (sim_crypto [])
          (λ l. l)
          4
          0
          11
          0
          (0 ∷ 7 ∷ 9 ∷ [])
          (MessageBody.value_contribution echoed)
        ≡ ok (relayed (sim_crypto [])))
    × AllInClear
        (λ id. surroundings)
        []
        echoed
        4
        shuffling
        (λ id. refl)
        Takes-echoed
        paths
        (relayed (sim_crypto []))
unfolding others
echo_relayed_in_clear_example =
    echo_relayed_in_clear (λ id. surroundings) [] echoed 4 shuffling (λ id. refl) Takes-echoed
      addressed (λ l. l) 0 11 0 (7 ∷ 9 ∷ []) paths (λ set x m. m) refl two_paths
