-- ===== src/Protocol/Returns.antt =====
-- The ends of the rounds of ProtocolState_impl.h, by the rounds that are left: the recursion of
-- `end_overlay_round` enters a new round each time.
pub mod Steps
pub mod Bounds
pub mod Stages
use pddm.Prelude.{
  ℕ, zero, suc, ◌+◌, ◌==◌, ◌≤◌, ◌<◌, ◌≡◌, refl, ◌⊎◌, inl, inr, arith, if◌then◌else◌, Bool, true,
  false, not, ◌&&◌, Option, none, some, List, [], ◌∷◌, ◌++◌, length, contains,
}
use pddm.Messages.{ValueTuple, ValueContribution, AggregationMessage}
use pddm.Messages.Outcome.{Outcome, ok, undefined, out_of_fuel, ◌>>=◌}
use pddm.Messages.Ends.{Ends, Any, bind-Ends, weaken-Ends}
use pddm.Messages.Body.{MessageBody}
use pddm.Aggregation
use pddm.Aggregation.{TreeAggregationState}
use pddm.Aggregation.Ends.{handle_message-Ends}
use pddm.Overlay.Gossip.{target, predecessor}
use pddm.Protocol.{
  Transport, Environment, ProtocolState, Effect, send_batch, get_current_query_num, sent, noted,
  set_round_timer, cancel_round_timer,
}
use pddm.Protocol.Batch.{
  envelopes, split_waiting, split_outgoing, dummy, send_overlay_message_batch,
}
use pddm.Protocol.Round.{
  Subclass, handle_overlay_message, handle_received, ping_predecessor, split_future,
  super_end_overlay_round, handle_aggregation_message, handle_early, start_aggregate_phase,
  end_overlay_round, enter_round, close_round, next_overlay_round, handle_all_early, aggregate_with,
}
use pddm.Protocol.Returns.Bounds.{
  IsLeft, IsLast, Within, After, IsBounded, Within-mono, either-Within, batch-Within,
  ping_predecessor-Within,
}
use pddm.Protocol.Returns.Steps.{find_paths-Ends, onion-Ends}
use pddm.Protocol.Start.{onions, encrypted_multicast_to_proxies}
use pddm.Messages.Onion.{build_encrypted_onion}

module _ {Impl : Type 0} (left : ℕ → ℕ → Impl → Option ℕ) where
  module _ (env : Environment) (sub : Subclass Impl) (bounded : IsBounded left sub) where
    handle_aggregation_message-Ends :
        (s : ProtocolState Impl) (m : AggregationMessage)
        → Ends Any (handle_aggregation_message env sub s m)
    unfolding handle_aggregation_message
    handle_aggregation_message-Ends s m = go s.aggregation_phase_state
      where
        go :
            (a : Option TreeAggregationState)
            → Ends Any (elim a [
              | none ↦ undefined
              | some aggregation ↦ Aggregation.handle_message aggregation m >>= λ aggregation'.
                  sub.send_aggregate_if_done
                    (record s { aggregation_phase_state = some aggregation' })
            ])
        go none = tt
        go (some aggregation) =
            bind-Ends Any Any (Aggregation.handle_message aggregation m) _
              (handle_message-Ends aggregation m) (λ next h. bounded.aggregates _)

    handle_early-Ends :
        (ms : List AggregationMessage) (s : ProtocolState Impl)
        → Ends Any (handle_early env sub s ms)
    unfolding handle_early
    handle_early-Ends [] s = tt
    handle_early-Ends (m ∷ ms) s =
        bind-Ends Any Any (handle_aggregation_message env sub s m) _
          (handle_aggregation_message-Ends s m) (λ s₁ h. handle_early-Ends ms _)

    handle_all_early-Ends : (s : ProtocolState Impl) → Ends Any (handle_all_early env sub s)
    unfolding handle_all_early
    handle_all_early-Ends s = go (sub.is_in_aggregate_phase s.impl)
      where
        go :
            (b : Bool)
            → Ends Any (elim b [
              | true ↦ handle_early env sub s s.future_aggregation_messages
              | false ↦ ok s
            ])
        go true = handle_early-Ends s.future_aggregation_messages s
        go false = tt

    -- The start of the aggregation ends the last round.
    start_aggregate_phase-Ends :
        (s : ProtocolState Impl) → Ends (IsLast left) (start_aggregate_phase env sub s)
    unfolding start_aggregate_phase aggregate_with
    start_aggregate_phase-Ends s = go s.aggregation_phase_state s.my_contribution
      where
        go :
            (a : Option TreeAggregationState) (c : Option ValueTuple)
            → Ends (IsLast left) (elim a [
              | none ↦ undefined
              | some aggregation ↦ elim c [
                | none ↦ undefined
                | some contribution ↦
                    aggregate_with env sub (cancel_round_timer s) aggregation contribution
              ]
            ])
        go none c = tt
        go (some aggregation) none = tt
        go (some aggregation) (some contribution) =
            bind-Ends Any (IsLast left) _ _ (bounded.aggregates _)
              (λ s₁ h. bind-Ends Any (IsLast left) _ _ (handle_all_early-Ends s₁) (λ s₂ h'. refl))

    handle_overlay_message-Ends :
        (again : ProtocolState Impl → Outcome (ProtocolState Impl)) (c : ℕ)
        → ((s : ProtocolState Impl) → Within left c s → Ends (Within left c) (again s))
        → (m : Transport) (s : ProtocolState Impl) → Within left c s
        → Ends (Within left c) (handle_overlay_message env sub again s m)
    unfolding handle_overlay_message
    handle_overlay_message-Ends again c k m s h = bounded.handles again c k _ _ (
        either-Within left c (sub.is_in_overlay_phase s.impl)
          (set_round_timer (cancel_round_timer s)) s h h)

    handle_received-Ends :
        (again : ProtocolState Impl → Outcome (ProtocolState Impl)) (c : ℕ)
        → ((s : ProtocolState Impl) → Within left c s → Ends (Within left c) (again s))
        → (ms : List Transport) (s : ProtocolState Impl) → Within left c s
        → Ends (Within left c) (handle_received env sub again s ms)
    unfolding handle_received
    handle_received-Ends again c k [] s h = h
    handle_received-Ends again c k (m ∷ ms) s h =
        bind-Ends (Within left c) (Within left c) (handle_overlay_message env sub again s m) _
          (handle_overlay_message-Ends again c k m s h)
          (λ s₁ h'. handle_received-Ends again c k ms s₁ h')

    close_round-Ends :
        (again : ProtocolState Impl → Outcome (ProtocolState Impl)) (c : ℕ)
        → ((s : ProtocolState Impl) → Within left c s → Ends (Within left c) (again s))
        → (round : ℕ) (s : ProtocolState Impl) → Within left c s
        → Ends (Within left c) (close_round env sub again round s)
    unfolding close_round
    close_round-Ends again c k round s h = go _
      where
        go : (b : Bool) → Ends (Within left c) (elim b [ true ↦ again s | false ↦ ok s ])
        go true = k s h
        go false = h

    next_overlay_round-Ends :
        (again : ProtocolState Impl → Outcome (ProtocolState Impl)) (c : ℕ)
        → ((s : ProtocolState Impl) → Within left c s → Ends (Within left c) (again s))
        → (s : ProtocolState Impl) → IsLeft c (left s.log2n (s.next_round + 1) s.impl)
        → Ends (Within left c) (next_overlay_round env sub again s)
    unfolding next_overlay_round enter_round
    next_overlay_round-Ends again c k s h =
        let round = s.next_round in
        let s₀ = record s { next_round = round + 1; ping_response_from_predecessor = false } in
        let entered : Within left c (enter_round env sub s) =
          ping_predecessor-Within left env sub c (predecessor s.meter_id round s.num_meters) _
            (batch-Within left env c round s₀ (inr h)) in
        bind-Ends (Within left c) (Within left c) _ (close_round env sub again round)
          (handle_received-Ends again c k _ _ entered)
          (λ s₂ h'. close_round-Ends again c k round s₂ h')

    super_end_overlay_round-Ends :
        (again : ProtocolState Impl → Outcome (ProtocolState Impl)) (b : ℕ)
        → ((c : ℕ)
            → b ≡ suc c
            → (s : ProtocolState Impl) → Within left c s
            → Ends (Within left c) (again s))
        → (s : ProtocolState Impl) → After left b s
        → Ends (Within left b) (super_end_overlay_round env sub again s)
    unfolding super_end_overlay_round
    super_end_overlay_round-Ends again b k s h = go s.is_last_round refl h
      where
        go :
            (last : Bool)
            → s.is_last_round ≡ last
            → After left b s
            → Ends (Within left b) (elim last [
              | true ↦ ok (cancel_round_timer s)
              | false ↦ next_overlay_round env sub again (cancel_round_timer s)
            ])
        go true e h = inl e
        go false e (inl last) = cc
        go false e (inr (c, less, few)) =
            weaken-Ends (Within left c) (Within left b) _
              (next_overlay_round-Ends again c (k c less) (cancel_round_timer s) few)
              (λ s' h'. Within-mono left c b s' (omega arith) h')

    pub end_overlay_round-Ends :
        (fuel b : ℕ)
        → b < fuel
        → (s : ProtocolState Impl) → Within left b s
        → Ends (Within left b) (end_overlay_round env sub fuel s)
    unfolding end_overlay_round
    end_overlay_round-Ends zero b lt s h = omega arith
    end_overlay_round-Ends (suc fuel) b lt s h =
        bind-Ends (After left b) (Within left b)
          (sub.end_overlay_round_impl (start_aggregate_phase env sub) s) _
          (bounded.ends (start_aggregate_phase env sub) start_aggregate_phase-Ends b s h)
          (λ s₁ h'.
            super_end_overlay_round-Ends (end_overlay_round env sub fuel) b
              (λ c less. end_overlay_round-Ends fuel c (omega arith)) s₁ h')

    onions-Ends :
        (query_num : ℕ) (body : MessageBody) (paths : List (List ℕ))
        → Ends Any (onions env sub query_num body paths)
    unfolding onions build_encrypted_onion
    onions-Ends query_num body [] = tt
    onions-Ends query_num body (path ∷ rest) =
        bind-Ends Any Any (build_encrypted_onion env.crypto query_num path body) _
          (onion-Ends env.crypto query_num path body)
          (λ onion h. bind-Ends Any Any _ _ (onions-Ends query_num body rest) (λ later h'. tt))

    pub encrypted_multicast_to_proxies-Ends :
        (fuel b : ℕ)
        → b < fuel
        → (s : ProtocolState Impl) (contribution : ValueContribution) → Within left b s
        → Ends (Within left b) (encrypted_multicast_to_proxies env sub fuel s contribution)
    unfolding encrypted_multicast_to_proxies
    encrypted_multicast_to_proxies-Ends fuel b lt s contribution h =
        bind-Ends Any (Within left b) _ _
          (find_paths-Ends env.order s.meter_id contribution.value.proxies s.num_meters 0)
          (λ paths h'.
            bind-Ends Any (Within left b) _ _ (onions-Ends _ _ paths)
              (λ messages h''. end_overlay_round-Ends fuel b lt _ h))
