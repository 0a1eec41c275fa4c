-- ===== src/Meter/Values/Signed.antt =====
-- The values of a MeterClient that runs the Byzantine protocol.
use pddm.Prelude.{ℕ, ◌≡◌, refl, ap, false, Option, none, some, List, []}
use pddm.Messages.{ValueTuple, ValueContribution, QueryRequest}
use pddm.Messages.Outcome.{Outcome, ok, undefined, both_return}
use pddm.Messages.Body.{MessageBody}
use pddm.Aggregation
use pddm.Agreement
use pddm.Overlay.Proxies.{Picked, pick_proxies}
use pddm.PathFinder.Defs.{find_paths}
use pddm.Protocol.{Environment, cancel_round_timer, noted, send_signature_request}
use pddm.Protocol.Start.{onions, encrypted_multicast_to_proxies, prepare_query}
use pddm.Protocol.Keeps.Defs.{Holds, Keeps, ok-Holds}
use pddm.Protocol.Keeps.{end_overlay_round-Keeps}
use pddm.Protocol.Bft
use pddm.Protocol.Bft.{BftProtocolState, BftProtocolPhase, State}
use pddm.Protocol.Bft.Signed.{keeping}
use pddm.Protocol.Bft.Signed.Handlers.{AreSigned}
use pddm.Meter.{Meter, MeterClient}
use pddm.Meter.Protocols.{bft_protocol}
use pddm.Meter.Run.{Arrival, run}
use pddm.Meter.Values.{IsKept, HoldsOfBoth}
use pddm.Meter.Values.Runs.{run-KeepsBoth}

module _ (env : Environment) (fuel : ℕ) where
  multicast-Keeps :
      (v : ValueContribution)
      → Keeps (AreSigned env) (λ s. encrypted_multicast_to_proxies env (Bft.subclass env) fuel s v)
  unfolding encrypted_multicast_to_proxies
  multicast-Keeps v s s' e h =
      let (paths, found, later) =
        both_return (find_paths env.order s.meter_id v.value.proxies s.num_meters 0) _ e in
      let (messages, built, last) =
        both_return
          (onions env (Bft.subclass env) v.value.query_num (MessageBody.value_contribution v) paths)
          _ later in
      end_overlay_round-Keeps (AreSigned env) env (Bft.subclass env) (keeping env) fuel _ s' last h

  signs-Keeps :
      (answer : List ℕ)
      → Keeps (AreSigned env) (λ s. Bft.handle_signature_response env fuel s answer)
  unfolding Bft.handle_signature_response
  signs-Keeps answer s s' e h = go s.my_contribution e
    where
      shuffling : State
      shuffling = record s { impl = record s.impl { protocol_phase = BftProtocolPhase.shuffle } }

      go :
          (c : Option ValueTuple)
          → (elim c [
            | none ↦ undefined
            | some mine ↦
                encrypted_multicast_to_proxies env
                  (Bft.subclass env)
                  fuel
                  shuffling
                  (record { value = mine; signature = env.crypto.decrypt_signature answer })
          ])
            ≡ ok s'
          → Holds (AreSigned env) s'
      go none e = cc
      go (some mine) e = multicast-Keeps _ shuffling s' e h

  -- A query starts without values.
  prepares :
      (s s' : State) (engine engine' : env.uniform.Engine) (query : QueryRequest) (values : List ℕ)
      → prepare_query env s engine query values ≡ ok (s', engine')
      → Holds (AreSigned env) s'
  unfolding prepare_query
  prepares s s' engine engine' query values e =
      go (pick_proxies env.uniform s.meter_id s.num_aggregation_groups s.num_meters engine) e
    where
      prepared : List ℕ → State
      prepared proxies = record (cancel_round_timer s) {
        next_round = 0;
        is_last_round = false;
        ping_response_from_predecessor = false;
        proxy_values = [];
        failed_meter_ids = [];
        aggregation_phase_state =
            some (Aggregation.new_state s.meter_id s.num_aggregation_groups s.num_meters query);
        my_contribution =
            some (record { query_num = query.query_number; value = values; proxies = proxies });
      }

      go :
          (picked : Picked env.uniform)
          → ◌≡◌ {A = Outcome (State × env.uniform.Engine)}
              (elim picked [
                | Picked.too_many_groups ↦ Outcome.too_many_groups
                | Picked.out_of_bounds ↦ undefined
                | Picked.picked proxies engine' ↦ ok (prepared proxies, engine')
              ])
              (ok (s', engine'))
          → Holds (AreSigned env) s'
      go Picked.too_many_groups e = cc
      go Picked.out_of_bounds e = cc
      go (Picked.picked proxies next) e =
          let same : prepared proxies ≡ s' = cc in
          ok-Holds (AreSigned env) (prepared proxies) s' (ap ok same) tt

  starts_impl-Keeps :
      (query : QueryRequest) → Keeps (AreSigned env) (λ s. Bft.start_query_impl env s query)
  unfolding Bft.start_query_impl
  starts_impl-Keeps query s s' e h = go s.my_contribution e
    where
      started : ValueTuple → State
      started mine =
          noted (send_signature_request (env.crypto.encrypt_value mine s.meter_id)) (record s {
            impl = record s.impl {
              protocol_phase = BftProtocolPhase.setup;
              accepted_proxy_values = [];
              agreement_phase_state =
                  some (Agreement.new_state s.meter_id s.num_meters query.query_number);
            };
          })

      go :
          (c : Option ValueTuple)
          → (elim c [ none ↦ undefined | some mine ↦ ok (started mine) ]) ≡ ok s'
          → Holds (AreSigned env) s'
      go none e = cc
      go (some mine) e = ok-Holds (AreSigned env) (started mine) s' e h

  starts :
      (s s' : State) (engine engine' : env.uniform.Engine) (query : QueryRequest) (values : List ℕ)
      → Bft.start_query env s engine query values ≡ ok (s', engine')
      → Holds (AreSigned env) s'
  unfolding Bft.start_query
  starts s s' engine engine' query values e =
      let ((s₁, next), prepared, later) =
        both_return (prepare_query env s engine query values) _ e in
      let (s₂, started, last) = both_return (Bft.start_query_impl env s₁ query) _ later in
      let same : s₂ ≡ s' = cc in
      let h =
        starts_impl-Keeps query s₁ s₂ started (prepares s s₁ engine next query values prepared) in
      rw same at h

  kept : IsKept (AreSigned env) (bft_protocol env fuel)
  unfolding bft_protocol
  kept = record { keeping = keeping env; at_first = refl; starts = starts; signs = signs-Keeps }

  -- On a meter that runs the Byzantine protocol, whatever messages and timeouts reach the client in
  -- whatever order, the requests that start queries, the utility's answers and second ids among them,
  -- if all of them return: from a client whose proxy values are signed, as they are at first, every
  -- value that its primary state has as a proxy, and every one that its secondary state has if there
  -- is one, has the number of that state's current query and the utility's signature.
  pub client_values_signed :
      (meter : Meter) (arrivals : List Arrival)
      (c c' : MeterClient BftProtocolState env.uniform.Engine)
      → HoldsOfBoth (AreSigned env) c
      → run env (bft_protocol env fuel) fuel meter arrivals c ≡ ok c'
      → HoldsOfBoth (AreSigned env) c'
  client_values_signed meter arrivals c c' h e =
      run-KeepsBoth (AreSigned env) env (bft_protocol env fuel) kept fuel meter arrivals c c' e h
