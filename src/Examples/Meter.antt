-- ===== src/Examples/Meter.antt =====
-- A meter with two ids that runs the Byzantine protocol, and one that runs the crash-tolerant protocol
-- and gets an envelope a round early.
use pddm.Prelude.{
  ℕ, ◌==◌, ◌≡◌, inl, inr, refl, arith, if◌then◌else◌, true, false, Option, none, some, List, [],
  ◌∷◌, ◌++◌, length,
}
use pddm.Messages.{QueryType, QueryRequest}
use pddm.Messages.Outcome.{ok}
use pddm.Messages.Body.{MessageBody}
use pddm.Overlay.ModPow.{mod_pow}
use pddm.Overlay.Gossip.{target}
use pddm.Overlay.Proxies.{pick_proxies}
use pddm.Protocol.{get_current_query_num, Transport}
use pddm.Protocol.Round.{split_future}
use pddm.Protocol.Start.{prepare_query, encrypted_multicast_to_proxies}
use pddm.Overlay.Groups.{standard_group_size, second_last_group_size}
use pddm.PathFinder.Defs.{find_paths}
use pddm.Prelude.Log.{ceil_log2}
use pddm.Messages.Onion.{build_encrypted_onion}
use pddm.Protocol.Bft
use pddm.Protocol.Bft.{BftProtocolState}
use pddm.Protocol.Bft.Signed.Handlers.{AreSigned}
use pddm.Protocol.Ct.{CtProtocolState}
use pddm.Meter.{Meter, MeterClient, new_state}
use pddm.Meter.Handlers.{handle_overlay_message}
use pddm.Meter.Protocols.{ct_protocol, bft_protocol}
use pddm.Meter.Run.{Arrival, run}
use pddm.Meter.Order.{overlay_message_by_order}
use pddm.Meter.Early.{early_message_received_in_its_round}
use pddm.Meter.Values.{HoldsOfBoth}
use pddm.Meter.Values.Signed.{client_values_signed}
use pddm.Examples.Protocol.{surroundings, secret, meter}

abbrev device : Meter
device = record {
  measure_consumption = λ window. window;
  measure_shiftable_consumption = λ window. 1;
  measure_daily_consumption = 24;
  simulate_projected_usage = λ query. [];
}

-- The meter of the example before, in round 0.
abbrev client : MeterClient CtProtocolState (Unit {0})
client = record {
  meter_id = 0;
  num_meters = 4;
  second_id = 0;
  has_second_id = false;
  primary_protocol_state = record meter {
    my_contribution = some (record { query_num = 7; value = 5 ∷ []; proxies = 0 ∷ 2 ∷ [] });
  };
  secondary_protocol_state = none;
  engine = tt;
}

-- From the meter that sends to this one in round 1.
abbrev early : Transport
early = record {
  sender_id = 2;
  sender_round = 1;
  is_final_message = true;
  body = MessageBody.overlay 7 0 false false secret;
}

early_message_received_in_its_round_example :
    (waiting : List Transport) × (handle_overlay_message surroundings
        (ct_protocol surroundings 14)
        14
        early
        client
      ≡ ok (record client {
        primary_protocol_state = record client.primary_protocol_state {
          future_overlay_messages = waiting;
        };
      }))
    × ((round : ℕ)
        → let before = client.primary_protocol_state.future_overlay_messages in
          let (received, others) = split_future (some 7) round before in
          split_future (some 7) round waiting ≡ (
            if 1 == round
            then (received ++ early ∷ [], others)
            else (received, others ++ early ∷ [])))
unfolding target mod_pow
early_message_received_in_its_round_example =
    early_message_received_in_its_round surroundings (ct_protocol surroundings 14) 14 client early 7
      refl refl refl (omega arith)

-- The second case of the example: the query is older.
abbrev obsolete : Transport
obsolete = record early { body = MessageBody.overlay 6 0 false false secret }

overlay_message_by_order_example :
    handle_overlay_message surroundings (ct_protocol surroundings 14) 14 obsolete client ≡ ok client
unfolding target mod_pow
overlay_message_by_order_example =
    (overlay_message_by_order surroundings (ct_protocol surroundings 14) 14 client obsolete 6 7 refl
        refl refl).1
      (inr (inl (inl (omega arith))))

abbrev two_ids : MeterClient BftProtocolState (Unit {0})
two_ids = record {
  meter_id = 0;
  num_meters = 7;
  second_id = 0;
  has_second_id = false;
  primary_protocol_state = new_state (bft_protocol surroundings 60) 7 0;
  secondary_protocol_state = none;
  engine = tt;
}

abbrev query : QueryRequest
query = record { request_type = QueryType.curr_usage_sum; time_window = 30; query_number = 7 }

-- A value with the utility's signature, in an envelope of round 0.
abbrev signed_value : Transport
signed_value = record {
  sender_id = 6;
  sender_round = 0;
  is_final_message = false;
  body = MessageBody.overlay 7 0 false false (
      MessageBody.value_contribution (record {
        value = record { query_num = 7; value = 3 ∷ []; proxies = 0 ∷ 2 ∷ 4 ∷ [] };
        signature = 9 ∷ [];
      }));
}

abbrev arrivals : List Arrival
arrivals =
    Arrival.second_id 5
    ∷ Arrival.query_request query
    ∷ Arrival.signature_response (9 ∷ [])
    ∷ Arrival.overlay_message signed_value
    ∷ []

abbrev after : MeterClient BftProtocolState (Unit {0})
unfolding run
after = elim (run surroundings (bft_protocol surroundings 60) 60 device arrivals two_ids) [
  | ok c ↦ c
  | _ ↦ two_ids
]

-- Both states start the query, and the primary one keeps the value.
one_value_kept :
    ◌≡◌ {A = ℕ × Option ℕ}
      (
        length after.primary_protocol_state.proxy_values,
        elim after.secondary_protocol_state [ none ↦ none | some s ↦ get_current_query_num s ],
      )
      (1, some 7)
unfolding after bft_protocol Bft.start_query Bft.handle_signature_response Bft.subclass pick_proxies
    target mod_pow prepare_query standard_group_size encrypted_multicast_to_proxies find_paths
    ceil_log2 second_last_group_size build_encrypted_onion
one_value_kept = refl

client_values_signed_example : HoldsOfBoth (AreSigned surroundings) after
unfolding run bft_protocol Bft.start_query Bft.handle_signature_response Bft.subclass pick_proxies
    target mod_pow prepare_query standard_group_size encrypted_multicast_to_proxies find_paths
    ceil_log2 second_last_group_size build_encrypted_onion
client_values_signed_example =
    client_values_signed surroundings 60 device arrivals two_ids after (refl, tt) refl
