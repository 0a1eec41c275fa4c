-- ===== src/Meter/Protocols.antt =====
-- Configuration's choices for ProtocolState_t: the crash-tolerant protocol and the Byzantine one, with
-- the numbers of groups of CtProtocolState.h and BftProtocolState.h.
use pddm.Prelude.{◌+◌, ◌*◌, ℕ, none, []}
use pddm.Messages.Outcome.{ok}
use pddm.Protocol.{Environment}
use pddm.Protocol.Ct
use pddm.Protocol.Ct.{CtProtocolPhase, CtProtocolState}
use pddm.Protocol.Bft
use pddm.Protocol.Bft.{BftProtocolPhase, BftProtocolState}
use pddm.Meter.{MeterProtocol}

-- No meter of the first gets a signature: the overload that is chosen does nothing.
unfoldable pub ct_protocol :
    (env : Environment) → ℕ → MeterProtocol CtProtocolState env.uniform.Engine
ct_protocol env fuel = record {
  sub = Ct.subclass env;
  num_aggregation_groups = env.failures_tolerated + 1;
  new_impl = record { echo_start_round = 0; protocol_phase = CtProtocolPhase.idle };
  start_query = Ct.start_query env fuel;
  handle_signature_response = λ s answer. ok s;
}

unfoldable pub bft_protocol :
    (env : Environment) → ℕ → MeterProtocol BftProtocolState env.uniform.Engine
bft_protocol env fuel = record {
  sub = Bft.subclass env;
  num_aggregation_groups = 2 * env.failures_tolerated + 1;
  new_impl = record {
    protocol_phase = BftProtocolPhase.idle;
    agreement_phase_state = none;
    agreement_start_round = 0;
    accepted_proxy_values = [];
  };
  start_query = Bft.start_query env;
  handle_signature_response = Bft.handle_signature_response env fuel;
}
