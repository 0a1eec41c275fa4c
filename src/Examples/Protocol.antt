-- ===== src/Examples/Protocol.antt =====
-- A meter of four that sends its batch, an onion for a path of two hops, and a meter of the Byzantine
-- protocol that gets two values, of which one is signed.
use pddm.Prelude.{
  ℕ, ◌≡◌, ◌≢◌, refl, Bool, true, false, length, some, none, List, [], ◌∷◌, arith, same_list,
}
use pddm.Messages.Outcome.{ok, out_of_fuel}
use pddm.Messages.Body.{MessageBody, Crypto}
use pddm.Overlay.Proxies.{Uniform}
use pddm.Protocol.{Environment, ProtocolState, Transport}
use pddm.Protocol.Ct
use pddm.Protocol.Ct.Returns.{ct_round_returns}
use pddm.Protocol.Ct.{CtProtocolPhase, CtProtocolState}
use pddm.Protocol.Batch.{send_overlay_message_batch}
use pddm.Protocol.Round
use pddm.Protocol.Round.{end_overlay_round}
use pddm.Overlay.Gossip.{predecessor}
use pddm.Overlay.ModPow.{mod_pow}
use pddm.Protocol.Bft.{BftProtocolPhase, BftProtocolState, subclass, handle_signature_response}
use pddm.Protocol.Events.{Event, run}
use pddm.Protocol.Bft.Returns.{end_overlay_round_returns, handle_signature_response_returns}
use pddm.Protocol.Bft.Signed.{proxy_values_signed}
use pddm.Protocol.Bft.Signed.Handlers.{AreSigned}
use pddm.Protocol.Batch.Correct.{IsBatch, send_overlay_message_batch-IsBatch}

-- A cryptography that puts a message into an envelope with the id on it.
abbrev sealed : Crypto
sealed = record {
  rsa_encrypt = λ message id. MessageBody.overlay id id true false message;
  rsa_decrypt = λ message. message;
  encrypt_value = λ value id. value.value;
  decrypt_signature = λ answer. answer;
  verify_by_utility = λ value sig. same_list sig (9 ∷ []);
  sign_contribution = λ value. [];
  verify_contribution = λ value sig id. true;
  sign_signed = λ value. [];
  verify_signed = λ value sig id. true;
}

abbrev pub secret : MessageBody
secret = MessageBody.string_body (1 ∷ 2 ∷ [])

abbrev lowest : Uniform
lowest = record {
  Engine = Unit {0};
  draw = λ low high e. (low, e);
  draw_low = λ low high e h. omega arith;
  draw_high = λ low high e h. h;
}

abbrev pub surroundings : Environment
surroundings = record {
  crypto = sealed;
  order = λ nodes. nodes;
  uniform = lowest;
  reaches = λ time meter. true;
  failures_tolerated = 1;
}

abbrev pub meter : ProtocolState CtProtocolState
meter = record {
  meter_id = 0;
  num_meters = 4;
  log2n = 2;
  num_aggregation_groups = 2;
  next_round = 1;
  is_last_round = false;
  failed_meter_ids = [];
  round_timeout_timer = 0;
  next_timer = 1;
  ping_response_from_predecessor = false;
  future_overlay_messages = [];
  future_aggregation_messages = [];
  waiting_messages = MessageBody.overlay 4 1 false false secret ∷ [];
  outgoing_messages = MessageBody.overlay 4 2 false false secret ∷ [];
  my_contribution = none;
  proxy_values = [];
  aggregation_phase_state = none;
  impl = record { echo_start_round = 0; protocol_phase = CtProtocolPhase.shuffle };
  effects = [];
}

send_overlay_message_batch-IsBatch_example :
    (batch : List Transport) × IsBatch 0 meter
      (send_overlay_message_batch surroundings 0 meter)
      batch
send_overlay_message_batch-IsBatch_example = send_overlay_message_batch-IsBatch surroundings 0 meter

abbrev proxy : ProtocolState BftProtocolState
proxy = record {
  meter_id = 0;
  num_meters = 4;
  log2n = 2;
  num_aggregation_groups = 2;
  next_round = 1;
  is_last_round = false;
  failed_meter_ids = [];
  round_timeout_timer = 0;
  next_timer = 1;
  ping_response_from_predecessor = false;
  future_overlay_messages = [];
  future_aggregation_messages = [];
  waiting_messages = [];
  outgoing_messages = [];
  my_contribution = some (record { query_num = 7; value = 5 ∷ []; proxies = 0 ∷ 2 ∷ [] });
  proxy_values = [];
  aggregation_phase_state = none;
  impl = record {
    protocol_phase = BftProtocolPhase.shuffle;
    agreement_phase_state = none;
    agreement_start_round = 0;
    accepted_proxy_values = [];
  };
  effects = [];
}

-- A value with a signature, in an envelope of round 0.
abbrev proxy_value : List ℕ → Bool → Transport
proxy_value signature is_final = record {
  sender_id = 3;
  sender_round = 0;
  is_final_message = is_final;
  body = MessageBody.overlay 7 0 false false (
      MessageBody.value_contribution (record {
        value = record { query_num = 7; value = 3 ∷ []; proxies = 0 ∷ 2 ∷ [] };
        signature = signature;
      }));
}

abbrev arrivals : List Event
arrivals =
    Event.overlay_message (proxy_value (8 ∷ []) false)
    ∷ Event.overlay_message (proxy_value (9 ∷ []) true)
    ∷ Event.ping true 2
    ∷ []

abbrev after : ProtocolState BftProtocolState
unfolding run
after = elim (run surroundings (subclass surroundings) 5 arrivals proxy) [ ok s ↦ s | _ ↦ proxy ]

one_value_kept : length after.proxy_values ≡ 1
unfolding after Round.handle_overlay_message subclass Round.end_overlay_round
    Round.handle_ping_message predecessor mod_pow
one_value_kept = refl

proxy_values_signed_example : AreSigned surroundings after.my_contribution after.proxy_values
unfolding run Round.handle_overlay_message subclass Round.end_overlay_round
    Round.handle_ping_message predecessor mod_pow
proxy_values_signed_example = proxy_values_signed surroundings 5 arrivals proxy after tt refl

end_overlay_round_returns_example :
    end_overlay_round surroundings (subclass surroundings) 24 proxy ≢ out_of_fuel
end_overlay_round_returns_example =
    end_overlay_round_returns surroundings 24 23 proxy refl (omega arith)

handle_signature_response_returns_example :
    handle_signature_response surroundings 25 proxy (1 ∷ []) ≢ out_of_fuel
handle_signature_response_returns_example =
    handle_signature_response_returns surroundings 25 proxy (1 ∷ []) (omega arith)

ct_round_returns_example :
    end_overlay_round surroundings (Ct.subclass surroundings) 14 meter ≢ out_of_fuel
ct_round_returns_example = ct_round_returns surroundings 14 13 meter refl (omega arith)
