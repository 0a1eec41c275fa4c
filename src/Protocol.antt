-- ===== src/Protocol.antt =====
-- ProtocolState.h: what a meter keeps of a query, whichever of the three protocols it runs, and what
-- it calls outside: the network, the timers and the cryptography.
pub mod Batch
pub mod Round
pub mod Start
pub mod Content
pub mod Keeps
pub mod Events
pub mod Returns
pub mod Ct
pub mod Bft
pub mod Hft
use pddm.Prelude.{
  ℕ, zero, suc, ◌+◌, ◌-◌, ◌%◌, ◌^◌, ◌==◌, if◌then◌else◌, Bool, true, false, Option, none, some,
  List, [], ◌∷◌, ◌++◌, length, contains, insert_id,
}
use pddm.Messages.{ValueTuple, ValueContribution, AggregationMessage}
use pddm.Messages.Body.{MessageBody, Crypto, same_contribution}
use pddm.Aggregation.{TreeAggregationState}
use pddm.PathFinder.Defs.{InfectedNode}
use pddm.Overlay.Proxies.{Uniform}

-- OverlayTransportMessage.
pub record Transport : Type 0 where
  pub sender_id : ℕ
  pub sender_round : ℕ
  pub is_final_message : Bool
  pub body : MessageBody

-- The calls that leave the meter. An aggregate without a parent goes to the utility.
pub data Effect : Type 0 where
  send_batch : List Transport → ℕ → Effect
  send_ping : Bool → ℕ → Effect
  send_signature_request : List ℕ → Effect
  send_aggregate : AggregationMessage → Option ℕ → Effect
  cancel_timer : ℕ → Effect
  register_timer : ℕ → ℕ → Effect

-- The surroundings: the cryptography, the iteration order of a std::unordered_set, the source of
-- randomness, and whether the network reaches a meter at the time of an effect, which is counted.
pub record Environment : Type 1 where
  pub crypto : Crypto
  pub order : List InfectedNode → List InfectedNode
  pub uniform : Uniform
  pub reaches : ℕ → ℕ → Bool
  pub failures_tolerated : ℕ

-- The fields of ProtocolState, and `impl`, those of the subclass. `next_round` is overlay_round + 1,
-- since overlay_round starts as -1. `effects` is the latest first.
pub record ProtocolState (Impl : Type 0) : Type 0 where
  pub meter_id : ℕ
  pub num_meters : ℕ
  pub log2n : ℕ
  pub num_aggregation_groups : ℕ
  pub next_round : ℕ
  pub is_last_round : Bool
  pub failed_meter_ids : List ℕ
  pub round_timeout_timer : ℕ
  pub next_timer : ℕ
  pub ping_response_from_predecessor : Bool
  pub future_overlay_messages : List Transport
  pub future_aggregation_messages : List AggregationMessage
  pub waiting_messages : List MessageBody
  pub outgoing_messages : List MessageBody
  pub my_contribution : Option ValueTuple
  pub proxy_values : List ValueContribution
  pub aggregation_phase_state : Option TreeAggregationState
  pub impl : Impl
  pub effects : List Effect

abbrev pub overlay_round_timeout : ℕ
overlay_round_timeout = 100

-- The round as a uint32_t, which -1 turns into the greatest.
abbrev pub round_u32 : ℕ → ℕ
round_u32 next_round = (next_round + (2 ^ 32 - 1)) % 2 ^ 32

-- std::unordered_set::emplace.
abbrev pub has_value : ValueContribution → List ValueContribution → Bool
has_value v [] = false
has_value v (x ∷ xs) = if same_contribution x v then true else has_value v xs

abbrev pub emplace_value : ValueContribution → List ValueContribution → List ValueContribution
emplace_value v xs = if has_value v xs then xs else v ∷ xs

module _ {Impl : Type 0} where
  -- A call, noted.
  abbrev pub noted : Effect → ProtocolState Impl → ProtocolState Impl
  noted effect s = record s { effects = effect ∷ s.effects }

  abbrev pub cancel_round_timer : ProtocolState Impl → ProtocolState Impl
  cancel_round_timer s = noted (cancel_timer s.round_timeout_timer) s

  -- `round_timeout_timer = timers.register_timer(OVERLAY_ROUND_TIMEOUT, ...)`.
  abbrev pub set_round_timer : ProtocolState Impl → ProtocolState Impl
  set_round_timer s =
      noted (register_timer s.next_timer overlay_round_timeout)
        (record s { round_timeout_timer = s.next_timer; next_timer = s.next_timer + 1 })

  abbrev pub failed : ℕ → ProtocolState Impl → ProtocolState Impl
  failed meter s = record s { failed_meter_ids = insert_id meter s.failed_meter_ids }

  -- A send to a meter, and its failure noted.
  abbrev pub sent : Environment → Effect → ℕ → ProtocolState Impl → ProtocolState Impl
  sent env effect to s =
      if env.reaches (length s.effects) to then noted effect s else failed to (noted effect s)

  abbrev pub get_current_query_num : ProtocolState Impl → Option ℕ
  get_current_query_num s = elim s.my_contribution [
    | none ↦ none
    | some contribution ↦ some contribution.query_num
  ]

  unfoldable pub buffer_future_message : ProtocolState Impl → Transport → ProtocolState Impl
  buffer_future_message s message = record s {
    future_overlay_messages = s.future_overlay_messages ++ message ∷ [];
  }

  unfoldable pub buffer_future_aggregation :
      ProtocolState Impl → AggregationMessage → ProtocolState Impl
  buffer_future_aggregation s message = record s {
    future_aggregation_messages = s.future_aggregation_messages ++ message ∷ [];
  }
