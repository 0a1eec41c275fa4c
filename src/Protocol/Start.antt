-- ===== src/Protocol/Start.antt =====
-- ProtocolState_impl.h: the start of a query, and the multicast that starts the overlay.
use pddm.Prelude.{ℕ, false, some, List, [], ◌∷◌, ◌++◌}
use pddm.Messages.{ValueContribution, QueryRequest}
use pddm.Messages.Outcome.{Outcome, ok, undefined, ◌>>=◌}
use pddm.Messages.Body.{MessageBody}
use pddm.Messages.Onion.{build_encrypted_onion}
use pddm.Aggregation
use pddm.Aggregation.{TreeAggregationState}
use pddm.Overlay.Proxies.{Picked, pick_proxies}
use pddm.PathFinder.Defs.{find_paths}
use pddm.Protocol.{Environment, ProtocolState, cancel_round_timer}
use pddm.Protocol.Round.{Subclass, end_overlay_round}

module _ {Impl : Type 0} (env : Environment) (sub : Subclass Impl) where
  -- The loop over the paths to the proxies: an onion for each.
  unfoldable pub onions : ℕ → MessageBody → List (List ℕ) → Outcome (List MessageBody)
  onions query_num payload [] = ok []
  onions query_num payload (path ∷ rest) = do
    onion ← build_encrypted_onion env.crypto query_num path payload
    later ← onions query_num payload rest
    ok (onion ∷ later)

  unfoldable pub encrypted_multicast_to_proxies :
      ℕ → ProtocolState Impl → ValueContribution → Outcome (ProtocolState Impl)
  unfolding onions end_overlay_round
  encrypted_multicast_to_proxies fuel s contribution = do
    proxy_paths ← find_paths env.order s.meter_id contribution.value.proxies s.num_meters 0
    messages ←
        onions contribution.value.query_num (MessageBody.value_contribution contribution)
          proxy_paths
    end_overlay_round env sub fuel
        (record s { outgoing_messages = s.outgoing_messages ++ messages })

-- The start of a query, before the subclass's part: the proxies are drawn by `engine`. An exception
-- of `pick_proxies` is thrown on.
module _ {Impl : Type 0} (env : Environment) where
  open env use {uniform}

  unfoldable pub prepare_query :
      ProtocolState Impl
      → uniform.Engine
      → QueryRequest
      → List ℕ
      → Outcome (ProtocolState Impl × uniform.Engine)
  prepare_query s engine query contributed_data =
      elim (pick_proxies uniform s.meter_id s.num_aggregation_groups s.num_meters engine) [
        | Picked.too_many_groups ↦ Outcome.too_many_groups
        | Picked.out_of_bounds ↦ undefined
        | Picked.picked proxies engine' ↦ ok (
          record (cancel_round_timer s) {
            next_round = 0;
            is_last_round = false;
            ping_response_from_predecessor = false;
            proxy_values = [];
            failed_meter_ids = [];
            aggregation_phase_state =
                some (Aggregation.new_state s.meter_id s.num_aggregation_groups s.num_meters query);
            my_contribution = some (record {
              query_num = query.query_number;
              value = contributed_data;
              proxies = proxies;
            });
          },
          engine',
        )
      ]
