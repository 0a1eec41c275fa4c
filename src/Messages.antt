-- ===== src/Messages.antt =====
-- The values that meters contribute and the messages that carry their sums: FixedPoint_t.h,
-- util/FixedPoint.h, messaging/ValueTuple.h, messaging/ValueContribution.h, messaging/QueryRequest.h
-- and messaging/AggregationMessage.h.
pub mod Ends
pub mod FixedPoint
pub mod Outcome
pub mod Body
pub mod Onion
pub mod Multicast
use pddm.Prelude.{ℕ, Bool, true, false, List}

pub data QueryType : Type 0 where
  curr_usage_sum curr_usage_histogram available_offset_breakdown cumulative_usage : QueryType
  projected_sum projected_histogram : QueryType

unfoldable pub is_single_valued_query : QueryType → Bool
is_single_valued_query QueryType.curr_usage_sum = true
is_single_valued_query QueryType.cumulative_usage = true
is_single_valued_query QueryType.projected_sum = true
is_single_valued_query _ = false

pub record QueryRequest : Type 0 where
  pub request_type : QueryType
  pub time_window : ℕ
  pub query_number : ℕ

-- The values are FixedPoint_t, and so lists of 64-bit patterns.
pub record ValueTuple : Type 0 where
  pub query_num : ℕ
  pub value : List ℕ
  pub proxies : List ℕ

-- The signature is an array of bytes.
pub record ValueContribution : Type 0 where
  pub value : ValueTuple
  pub signature : List ℕ

pub record AggregationMessage : Type 0 where
  pub sender_id : ℕ
  pub num_contributors : ℕ
  pub query_num : ℕ
  pub body : List ℕ
