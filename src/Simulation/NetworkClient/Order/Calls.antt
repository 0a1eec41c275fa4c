-- ===== src/Simulation/NetworkClient/Order/Calls.antt =====
-- Properties of a SimNetworkClient over the calls of its meter's code.
use pddm.Prelude.{ℕ, ap, Bool, true, false, Option, none, some, List, [], ◌∷◌, ◌++◌, length}
use pddm.Messages.Outcome.{ok}
use pddm.Messages.Ends.{Ends, Any, bind-Ends}
use pddm.Simulation.Network.{Sending, is_failed}
use pddm.Simulation.Network.Ends
use pddm.Simulation.Network.Ends.{is_failed-Ends}
use pddm.Simulation.NetworkClient.{
  delayed_send, Call, Setting, State, after_sending, network_send, send, count_sent, call, calls,
  dispatch,
}
use pddm.Simulation.NetworkClient.Order.Delays.{IsStable, Kept-IsStable}
use pddm.Simulation.NetworkClient.Order.{Kept}

module _ (setting : Setting) where
  open setting use {Message}

  module _ (P : State setting → Type 0) (stable : IsStable setting P) where
    after_sending_stable :
        (messages : List Message) (recipient : Option ℕ) (sending : Sending) (w : State setting)
        → P w
        → P (after_sending setting messages recipient sending w)
    after_sending_stable messages recipient Sending.sender_failed w h = h
    after_sending_stable messages recipient (Sending.arrives time) w h = stable.submits _ w h
    after_sending_stable messages recipient (Sending.recipient_failed micros) w h =
        stable.delays micros w h
    after_sending_stable messages recipient Sending.no_such_meter w h = h

    pub network_send-Ends :
        (messages : List Message) (recipient : Option ℕ) (w : State setting)
        → P w
        → Ends P (network_send setting messages recipient w)
    unfolding network_send
    network_send-Ends messages recipient w h =
        bind-Ends Any P _ _
          (Ends.send-Ends setting.latency w.current_time (some w.client.meter_id) recipient
            w.network)
          (λ (sending, network) any.
            after_sending_stable messages recipient sending (record w { network = network })
              (stable.networks network w h))

    send-Ends :
        (messages : List Message) (recipient : Option ℕ) (w : State setting)
        → P w
        → Ends (λ r. P r.0) (send setting messages recipient w)
    unfolding send
    send-Ends messages recipient w h =
        bind-Ends Any (λ r. P r.0) (is_failed recipient w.network) _
          (is_failed-Ends recipient w.network)
          (λ failed any. bind-Ends P (λ r. P r.0) _ _ (go w.client.client_is_busy) (λ w₁ h'. h'))
      where
        go :
            (busy : Bool)
            → Ends P (elim busy [
              | false ↦ network_send setting messages recipient w
              | true ↦ ok (record w {
                submitted = delayed_send messages recipient w.client.busy_until_time ∷ w.submitted;
              })
            ])
        go false = network_send-Ends messages recipient w h
        go true = stable.submits _ w h

    call-Ends : (c : Call Message) (w : State setting) → P w → Ends P (call setting c w)
    unfolding call
    call-Ends (Call.delay micros) w h = stable.delays micros w h
    call-Ends (Call.overlay_batch messages recipient) w h =
        bind-Ends (λ r. P r.0) P _ _
          (send-Ends messages (some recipient) (count_sent setting (length messages) w)
            (stable.counts (length messages) w h))
          (λ r h'. h')
    call-Ends (Call.aggregation message recipient) w h =
        bind-Ends (λ r. P r.0) P _ _
          (send-Ends (message ∷ []) recipient (count_sent setting 1 w) (stable.counts 1 w h))
          (λ r h'. h')
    call-Ends (Call.ping message recipient) w h =
        bind-Ends (λ r. P r.0) P _ _ (send-Ends (message ∷ []) (some recipient) w h) (λ r h'. h')
    call-Ends (Call.signature_request message recipient) w h =
        bind-Ends (λ r. P r.0) P _ _
          (send-Ends (message ∷ []) none (count_sent setting 1 w) (stable.counts 1 w h))
          (λ r h'. h')

    pub calls-Ends :
        (made : List (Call Message)) (w : State setting) → P w → Ends P (calls setting made w)
    unfolding calls
    calls-Ends [] w h = h
    calls-Ends (c ∷ rest) w h =
        bind-Ends P P (call setting c w) _ (call-Ends c w h) (λ w₁ h'. calls-Ends rest w₁ h')

  -- A message that is handled is added to those before.
  pub dispatch-Ends :
      (handled queue : List Message) (message : Message) (w : State setting)
      → Kept setting handled queue w
      → Ends (Kept setting (handled ++ message ∷ []) queue) (dispatch setting message w)
  unfolding dispatch
  dispatch-Ends handled queue message w (h, q, waits) =
      let (meter, made) = setting.handle_message w.meter w.network.failed message in
      calls-Ends (Kept setting (handled ++ message ∷ []) queue)
        (Kept-IsStable setting (handled ++ message ∷ []) queue) made
        (record w { meter = meter; handled = w.handled ++ message ∷ [] })
        (ap (λ ms. ms ++ message ∷ []) h, q, waits)
