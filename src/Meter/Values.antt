-- ===== src/Meter/Values.antt =====
-- What MeterClient.cpp keeps true of the contribution and the proxy values of both of its protocol
-- states, if the protocol does.
pub mod Runs
pub mod Signed
use pddm.Prelude.{
  ℕ, ◌+◌, ltb, ◌==◌, ◌≡◌, refl, sym, ap, if◌then◌else◌, Bool, true, false, Bool-cases, inl, inr,
  Option, none, some, List, [], ◌∷◌,
}
use pddm.Messages.{ValueTuple, ValueContribution, QueryRequest, AggregationMessage}
use pddm.Messages.Outcome.{Outcome, ok, undefined, ◌>>=◌, both_return}
use pddm.Overlay.Gossip.{target, predecessor}
use pddm.Protocol.{
  Transport, Environment, ProtocolState, get_current_query_num, buffer_future_message,
  buffer_future_aggregation, round_u32,
}
use pddm.Protocol.Round
use pddm.Protocol.Round.{end_overlay_round, handle_round_timeout}
use pddm.Protocol.Keeps.Defs.{Holds, Keeps, IsKeeping, ok-Holds}
use pddm.Protocol.Keeps.{
  handle_overlay_message-Keeps, handle_aggregation_message-Keeps, end_overlay_round-Keeps,
  handle_round_timeout-Keeps,
}
use pddm.Protocol.Events.{ping-Holds}
use pddm.Meter.{
  Meter, MeterProtocol, MeterClient, new_state, is_above, is_below, is_current, query_num_of,
  with_calls_of, on_primary, on_secondary, on_second_id, second_done, set_second_id,
  receive_overlay, receive_aggregation, contributed_data,
}
use pddm.Meter.Handlers.{
  handle_overlay_message, handle_aggregation_message, handle_aggregation_for_second,
  handle_ping_message, start_second, start_primary, handle_query_request, handle_signature_response,
  in_group_of,
}
use pddm.Meter.Run.{Arrival, handle_message, run}

-- The property of a state, if there is one.
abbrev pub HoldsIf :
    {Impl : Type 0}
    → (Option ValueTuple → List ValueContribution → Type 0)
    → Option (ProtocolState Impl)
    → Type 0
HoldsIf Q none = Unit {0}
HoldsIf Q (some s) = Holds Q s

-- What follows from either branch's return follows.
either_returns :
    {A : Type 0} {P : Type 0} (b : Bool) (x y : Outcome A) (end : A)
    → (x ≡ ok end → P)
    → (y ≡ ok end → P)
    → (if b then x else y) ≡ ok end
    → P
either_returns true x y end f g e = f e
either_returns false x y end f g e = g e

module _ {Impl Engine : Type 0} (Q : Option ValueTuple → List ValueContribution → Type 0) where
  -- A protocol that keeps the property, and has it after the start of a query.
  pub record IsKept (protocol : MeterProtocol Impl Engine) : Type 0 where
    pub keeping : IsKeeping Q protocol.sub
    pub at_first : Q none []
    pub starts :
        (s s' : ProtocolState Impl) (e e' : Engine) (query : QueryRequest) (values : List ℕ)
        → protocol.start_query s e query values ≡ ok (s', e')
        → Holds Q s'
    pub signs : (answer : List ℕ) → Keeps Q (λ s. protocol.handle_signature_response s answer)

  -- The property of both states.
  abbrev pub HoldsOfBoth : MeterClient Impl Engine → Type 0
  HoldsOfBoth c = Holds Q c.primary_protocol_state × HoldsIf Q c.secondary_protocol_state

  pub ok-HoldsOfBoth :
      (c c' : MeterClient Impl Engine) → ok c ≡ ok c' → HoldsOfBoth c → HoldsOfBoth c'
  ok-HoldsOfBoth c c' e h = let same : c ≡ c' = cc in rw same at h

  abbrev pub KeepsBoth : (MeterClient Impl Engine → Outcome (MeterClient Impl Engine)) → Type 0
  KeepsBoth f = (c c' : MeterClient Impl Engine) → f c ≡ ok c' → HoldsOfBoth c → HoldsOfBoth c'

  module _ (f : ProtocolState Impl → Outcome (ProtocolState Impl)) (k : Keeps Q f) where
    pub on_primary-KeepsBoth : KeepsBoth (on_primary f)
    on_primary-KeepsBoth c c' e h =
        let (s, ran, later) = both_return (f c.primary_protocol_state) _ e in
        ok-HoldsOfBoth (record c { primary_protocol_state = s }) c' later
          (k c.primary_protocol_state s ran h.0, h.1)

    on_secondary-KeepsBoth : KeepsBoth (on_secondary f)
    on_secondary-KeepsBoth c c' e h = go c.secondary_protocol_state e h.1
      where
        go :
            (second : Option (ProtocolState Impl))
            → (elim second [
              | none ↦ undefined
              | some s ↦
                  f (with_calls_of c.primary_protocol_state s) >>= (λ s'. ok (second_done c s'))
            ])
              ≡ ok c'
            → HoldsIf Q second
            → HoldsOfBoth c'
        go none e h' = cc
        go (some s) e h' =
            let borrowed = with_calls_of c.primary_protocol_state s in
            let (s', ran, later) = both_return (f borrowed) _ e in
            ok-HoldsOfBoth (second_done c s') c' later (h.0, k borrowed s' ran h')

    pub on_second_id-KeepsBoth : KeepsBoth (on_second_id f)
    on_second_id-KeepsBoth c c' e h = go c.has_second_id e
      where
        go :
            (b : Bool)
            → (elim b [ true ↦ on_secondary f c | false ↦ ok c ]) ≡ ok c'
            → HoldsOfBoth c'
        go true e = on_secondary-KeepsBoth c c' e h
        go false e = ok-HoldsOfBoth c c' e h

  module _ (env : Environment) (protocol : MeterProtocol Impl Engine) (kept : IsKept protocol)
      (fuel : ℕ) where
    receive_overlay-Keeps : (m : Transport) → Keeps Q (receive_overlay env protocol fuel m)
    unfolding receive_overlay buffer_future_message
    receive_overlay-Keeps m s s' e h = go (query_num_of m.body) e
      where
        end : ProtocolState Impl → Outcome (ProtocolState Impl)
        end = end_overlay_round env protocol.sub fuel

        same : ok s ≡ ok s' → Holds Q s'
        same e = ok-Holds Q s s' e h

        kept_for_later : ok (buffer_future_message s m) ≡ ok s' → Holds Q s'
        kept_for_later e = ok-Holds Q (buffer_future_message s m) s' e h

        handled : Round.handle_overlay_message env protocol.sub end s m ≡ ok s' → Holds Q s'
        handled e =
            handle_overlay_message-Keeps Q env protocol.sub kept.keeping end
              (end_overlay_round-Keeps Q env protocol.sub kept.keeping fuel) m s s' e h

        go :
            (query : Option ℕ)
            → (elim query [
              | none ↦ undefined
              | some query_num ↦
                  if is_above query_num (get_current_query_num s)
                  then ok (buffer_future_message s m)
                  else if is_below query_num (get_current_query_num s)
                  then ok s
                  else if m.sender_round + 1 == s.next_round
                  then Round.handle_overlay_message env protocol.sub end s m
                  else if ltb s.next_round (m.sender_round + 1)
                  then ok (buffer_future_message s m)
                  else ok s
            ])
              ≡ ok s'
            → Holds Q s'
        go none e = cc
        go (some query_num) e =
            either_returns _ _ _ s' kept_for_later
              (either_returns _ _ _ s' same
                (either_returns _ _ _ s' handled (either_returns _ _ _ s' kept_for_later same)))
              e

    receive_aggregation-Keeps :
        (m : AggregationMessage) → Keeps Q (receive_aggregation env protocol fuel m)
    unfolding receive_aggregation buffer_future_aggregation
    receive_aggregation-Keeps m s s' e h =
        either_returns _ _ _ s'
          (λ e'. handle_aggregation_message-Keeps Q env protocol.sub kept.keeping m s s' e' h)
          (either_returns _ _ _ s' (λ e'. ok-Holds Q (buffer_future_aggregation s m) s' e' h)
            (λ e'. ok-Holds Q s s' e' h))
          e

    pub overlay-KeepsBoth : (m : Transport) → KeepsBoth (handle_overlay_message env protocol fuel m)
    unfolding handle_overlay_message
    overlay-KeepsBoth m c c' e h = go (to == c.meter_id) (to == c.second_id) e
      where
        to : ℕ
        to = target m.sender_id m.sender_round c.num_meters

        receive : ProtocolState Impl → Outcome (ProtocolState Impl)
        receive = receive_overlay env protocol fuel m

        go :
            (mine second : Bool)
            → (elim mine [
              | true ↦ on_primary receive c
              | false ↦ elim second [ true ↦ on_second_id receive c | false ↦ ok c ]
            ])
              ≡ ok c'
            → HoldsOfBoth c'
        go true second e = on_primary-KeepsBoth receive (receive_overlay-Keeps m) c c' e h
        go false true e = on_second_id-KeepsBoth receive (receive_overlay-Keeps m) c c' e h
        go false false e = ok-HoldsOfBoth c c' e h

    aggregation_for_second-KeepsBoth :
        (m : AggregationMessage) → KeepsBoth (handle_aggregation_for_second env protocol fuel m)
    unfolding handle_aggregation_for_second
    aggregation_for_second-KeepsBoth m c c' e h = go c.secondary_protocol_state e
      where
        receive : ProtocolState Impl → Outcome (ProtocolState Impl)
        receive = receive_aggregation env protocol fuel m

        routed :
            (b : Bool)
            → (elim b [ true ↦ on_secondary receive c | false ↦ ok c ]) ≡ ok c'
            → HoldsOfBoth c'
        routed true e = on_secondary-KeepsBoth receive (receive_aggregation-Keeps m) c c' e h
        routed false e = ok-HoldsOfBoth c c' e h

        go :
            (second : Option (ProtocolState Impl))
            → (elim second [
              | none ↦ undefined
              | some s ↦
                  elim (in_group_of env protocol fuel s c.num_meters m.sender_id c.second_id) [
                    | true ↦ on_secondary receive c
                    | false ↦ ok c
                  ]
            ])
              ≡ ok c'
            → HoldsOfBoth c'
        go none e = cc
        go (some s) e =
            routed (in_group_of env protocol fuel s c.num_meters m.sender_id c.second_id) e

    pub aggregation-KeepsBoth :
        (m : AggregationMessage) → KeepsBoth (handle_aggregation_message env protocol fuel m)
    unfolding handle_aggregation_message
    aggregation-KeepsBoth m c c' e h =
        go
          (in_group_of env protocol fuel c.primary_protocol_state c.num_meters m.sender_id
            c.meter_id)
          c.has_second_id e
      where
        receive : ProtocolState Impl → Outcome (ProtocolState Impl)
        receive = receive_aggregation env protocol fuel m

        go :
            (mine second : Bool)
            → (elim mine [
              | true ↦ on_primary receive c
              | false ↦ elim second [
                | true ↦ handle_aggregation_for_second env protocol fuel m c
                | false ↦ ok c
              ]
            ])
              ≡ ok c'
            → HoldsOfBoth c'
        go true second e = on_primary-KeepsBoth receive (receive_aggregation-Keeps m) c c' e h
        go false true e = aggregation_for_second-KeepsBoth m c c' e h
        go false false e = ok-HoldsOfBoth c c' e h
