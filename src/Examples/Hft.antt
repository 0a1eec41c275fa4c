-- ===== src/Examples/Hft.antt =====
-- A meter of four that floods two messages, one of which arrives in the next round, and a shuffle that
-- leaves the order as it is.
use mathlib.Core.List.{Memᴰ}
use mathlib.Core.List.Memᴰ
use pddm.Prelude.{◌≡◌, ◌≢◌, ◌↔◌, refl, arith, true, false, none, some, inl, inr, List, [], ◌∷◌}
use pddm.Messages.Outcome.{ok, out_of_fuel}
use pddm.Messages.Body.{MessageBody}
use pddm.Overlay.Gossip.{target}
use pddm.Protocol.{Transport, ProtocolState, send_batch, cancel_round_timer}
use pddm.Protocol.Batch.{floods}
use pddm.Protocol.Batch.Conserve.{bodies}
use pddm.Protocol.Round.{enter_round, end_overlay_round}
use pddm.Protocol.Hft.{
  HftProtocolPhase, HftProtocolState, MessageSets, arrives_at, end_overlay_round_impl, subclass,
}
use pddm.Protocol.Hft.Floods.{floods_until_arrival}
use pddm.Protocol.Hft.Random.{Shuffling, sample_range_excluding}
use pddm.Protocol.Hft.Random.Excluded.{sample-excluded}
use pddm.Protocol.Hft.Returns.{hft_round_returns}
use pddm.Examples.Protocol.{surroundings, secret}

abbrev sets : MessageSets
sets = record { holds = λ ms m. false; order = λ ms. ms; mem-order = λ m ms. (λ h. h, λ h. h) }

abbrev unshuffled : Shuffling
unshuffled = record {
  Engine = Unit {0};
  shuffle = λ xs e. (xs, e);
  length-shuffle = λ xs e. refl;
  contains-shuffle = λ xs e x. refl;
}

abbrev near : MessageBody
near = MessageBody.overlay 7 2 false true secret

abbrev far : MessageBody
far = MessageBody.overlay 7 3 false true secret

-- In round 0, at the end of which all messages go to the meter with the id 2.
abbrev flooding : ProtocolState HftProtocolState
flooding = record {
  meter_id = 0;
  num_meters = 4;
  log2n = 2;
  num_aggregation_groups = 2;
  next_round = 1;
  is_last_round = false;
  failed_meter_ids = [];
  round_timeout_timer = 0;
  next_timer = 1;
  ping_response_from_predecessor = false;
  future_overlay_messages = [];
  future_aggregation_messages = [];
  waiting_messages = [];
  outgoing_messages = [];
  my_contribution = some (record { query_num = 7; value = 5 ∷ []; proxies = 3 ∷ 1 ∷ [] });
  proxy_values = [];
  aggregation_phase_state = none;
  impl = record {
    protocol_phase = HftProtocolPhase.scatter;
    gather_start_round = 0;
    current_flood_messages = near ∷ far ∷ [];
    relay_messages = [];
  };
  effects = [];
}

flagged : (m : MessageBody) → Memᴰ m (near ∷ far ∷ []) → floods m ≡ true
flagged m inside = elim (Memᴰ.cases_cons inside) [
  | inl e ↦ rw e refl
  | inr later ↦ elim (Memᴰ.cases_cons later) [
    | inl e ↦ rw e refl
    | inr nothing ↦ absurd (Memᴰ.not-nil nothing)
  ]
]

floods_until_arrival_example :
    (s' : ProtocolState HftProtocolState) × (batch : List Transport) × (end_overlay_round_impl
        surroundings sets ok flooding
      ≡ ok s')
    × Memᴰ
        (send_batch batch (target 0 1 4))
        (enter_round surroundings (subclass surroundings sets) (cancel_round_timer s')).effects
    × ((m : MessageBody)
        → Memᴰ m (near ∷ far ∷ [])
        → Memᴰ m (bodies batch)
          × (Memᴰ m s'.impl.current_flood_messages ↔ (arrives_at (target 0 1 4) m ≡ false)))
floods_until_arrival_example =
    floods_until_arrival surroundings sets ok flooding (omega arith) flagged

hft_round_returns_example :
    end_overlay_round surroundings (subclass surroundings sets) 8 flooding ≢ out_of_fuel
hft_round_returns_example = hft_round_returns surroundings sets 8 7 flooding refl (omega arith)

sample-excluded_example : sample_range_excluding unshuffled 0 4 (1 ∷ 3 ∷ []) 2 tt ≡ (1 ∷ 3 ∷ [], tt)
sample-excluded_example =
    sample-excluded unshuffled 4 (1 ∷ 3 ∷ []) tt
      (omega arith, omega arith, (omega arith, omega arith, tt))
