-- ===== src/Protocol/Returns/Steps.antt =====
-- The ends of the loops over targets, rounds and paths: util/PathFinder.cpp, the multicasts, and the
-- first phase of CrusaderAgreementState.cpp.
use pddm.Prelude.{ℕ, zero, suc, ◌+◌, ◌-◌, leb, ltb, ◌≡◌, refl, true, List, [], ◌∷◌, length}
use pddm.Messages.Outcome.{ok, undefined}
use pddm.Messages.Ends.{Ends, Any, bind-Ends, if-Ends}
use pddm.Messages.Body.{MessageBody, Crypto}
use pddm.Messages.Onion.{reverse_onto, layer, layers, build_encrypted_onion}
use pddm.Messages.Multicast.{others, path_messages, multicast, remove}
use pddm.PathFinder.Defs.{
  InfectedNode, Sweep, found, spread, sweep, insert_nodes, infect_rounds, find_path, find_another,
  find_each, find_paths,
}
use pddm.Agreement.{CrusaderAgreementState, Table, accept_messages, accept_all, finish_phase_1}

module _ (order : List InfectedNode → List InfectedNode) (n start : ℕ) where
  infect_rounds-Ends :
      (rounds goal time : ℕ) (exclude : List ℕ) (infected : List InfectedNode)
      → Ends Any (infect_rounds order n start rounds goal time exclude infected)
  unfolding infect_rounds
  infect_rounds-Ends zero goal time exclude infected = tt
  infect_rounds-Ends (suc rounds) goal time exclude infected =
      go (sweep order n start goal time exclude (order infected) [])
        (λ new. infect_rounds-Ends rounds goal (time + 1) exclude _)
    where
      go :
          (swept : Sweep)
          → ((new : List InfectedNode)
              → Ends Any (
                  infect_rounds order n start rounds goal
                    (time + 1)
                    exclude
                    (insert_nodes (order new) infected)))
          → Ends Any (elim swept [
            | found path ↦ ok path
            | spread new ↦
                infect_rounds order n start rounds goal
                  (time + 1)
                  exclude
                  (insert_nodes (order new) infected)
          ])
      go (found path) later = tt
      go (spread new) later = later new

  find_another-Ends :
      (source goal max_round : ℕ) (used : List ℕ)
      → Ends Any (find_another order n start source goal max_round used)
  unfolding find_another find_path
  find_another-Ends source goal max_round used = if-Ends Any (leb n goal) _ _ tt (
      bind-Ends Any Any (find_path order n start source goal max_round used) _
        (infect_rounds-Ends (max_round - start) goal start used _) (λ path h. tt))

  find_each-Ends :
      (source max_round : ℕ) (goals used : List ℕ)
      → Ends Any (find_each order n start source max_round goals used)
  unfolding find_each
  find_each-Ends source max_round [] used = tt
  find_each-Ends source max_round (goal ∷ goals) used =
      bind-Ends Any Any (find_another order n start source goal max_round used) _
        (find_another-Ends source goal max_round used)
        (λ r h. bind-Ends Any Any _ _ (find_each-Ends source max_round goals r.1) (λ ps h. tt))

pub find_paths-Ends :
    (order : List InfectedNode → List InfectedNode) (source_id : ℕ) (target_ids : List ℕ)
    (num_nodes start_round : ℕ)
    → Ends Any (find_paths order source_id target_ids num_nodes start_round)
unfolding find_paths
find_paths-Ends order source_id target_ids num_nodes start_round =
    find_each-Ends order num_nodes start_round source_id _ target_ids _

pub onion-Ends :
    (crypto : Crypto) (query_num : ℕ) (path : List ℕ) (payload : MessageBody)
    → Ends Any (build_encrypted_onion crypto query_num path payload)
unfolding build_encrypted_onion
onion-Ends crypto query_num path payload = go (reverse_onto path [])
  where
    go :
        (hops : List ℕ)
        → Ends Any (elim hops [
          | [] ↦ undefined
          | last ∷ hops ↦ ok (layers crypto query_num (layer crypto query_num last payload) hops)
        ])
    go [] = tt
    go (last ∷ hops) = tt

path_messages-Ends :
    (crypto : Crypto) (query_num : ℕ) (body : MessageBody) (paths : List (List ℕ))
    → Ends Any (path_messages crypto query_num body paths)
unfolding path_messages
path_messages-Ends crypto query_num body [] = tt
path_messages-Ends crypto query_num body ([] ∷ rest) = tt
path_messages-Ends crypto query_num body ((first ∷ remaining) ∷ rest) =
    bind-Ends Any Any _ _ (path_messages-Ends crypto query_num body rest) (λ ms h. tt)

others-Ends : (id : ℕ) (ids : List ℕ) → Ends Any (others id ids)
unfolding others
others-Ends id [] = tt
others-Ends id (x ∷ xs) = if-Ends Any (leb (length (remove id (x ∷ xs))) (length xs)) _ _ tt tt

pub multicast-Ends :
    (crypto : Crypto) (order : List InfectedNode → List InfectedNode)
    (query_num meter_id num_meters round : ℕ) (proxies : List ℕ) (body : MessageBody)
    → Ends Any (multicast crypto order query_num meter_id num_meters round proxies body)
unfolding multicast
multicast-Ends crypto order query_num meter_id num_meters round proxies body =
    bind-Ends Any Any (others meter_id proxies) _ (others-Ends meter_id proxies) (λ ids h.
      bind-Ends Any Any (find_paths order meter_id ids num_meters round) _
        (find_paths-Ends order meter_id ids num_meters round)
        (λ paths h'. path_messages-Ends crypto query_num body paths))

module _ (crypto : Crypto) (order : List InfectedNode → List InfectedNode)
    (s : CrusaderAgreementState) (current_round : ℕ) where
  accept_all-Ends : (table : Table) → Ends Any (accept_all crypto order s current_round table)
  unfolding accept_all accept_messages
  accept_all-Ends [] = tt
  accept_all-Ends ((key, signed) ∷ rest) =
      if-Ends Any (ltb (length signed.signatures) (s.log2n + 1)) _ _ (accept_all-Ends rest) (
        bind-Ends Any Any _ _
          (multicast-Ends crypto order s.query_num s.node_id s.num_nodes (current_round + 1)
            key.value.proxies _)
          (λ first h. bind-Ends Any Any _ _ (accept_all-Ends rest) (λ later h'. tt)))

  -- Phase 1 ends finished.
  pub finish_phase_1-Ends :
      Ends (λ r. r.0.phase_1_finished ≡ true) (finish_phase_1 crypto order s current_round)
  unfolding finish_phase_1
  finish_phase_1-Ends =
      bind-Ends Any (λ r. r.0.phase_1_finished ≡ true) _ _ (accept_all-Ends s.signed_proxy_values)
        (λ messages h. refl)
