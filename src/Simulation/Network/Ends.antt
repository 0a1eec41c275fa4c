-- ===== src/Simulation/Network/Ends.antt =====
-- The ends of a send of simulation/Network.cpp.
use pddm.Prelude.{ℕ, ltb, if◌then◌else◌, Bool, true, false, Option, none, some, length, get_elem?}
use pddm.Messages.Outcome.{ok, undefined, ◌>>=◌}
use pddm.Messages.Ends.{Ends, Any, bind-Ends}
use pddm.Simulation.Network.{
  Network, Latency, Sending, failed_at, is_failed, refused, accepted, send_to, send,
}

module _ {Client Engine : Type 0} where
  failed_at-Ends : (id : ℕ) (network : Network Client Engine) → Ends Any (failed_at id network)
  failed_at-Ends id network = go (get_elem? network.failed id)
    where
      go : (o : Option Bool) → Ends Any (elim o [ none ↦ undefined | some failed ↦ ok failed ])
      go none = tt
      go (some failed) = tt

  pub is_failed-Ends :
      (id : Option ℕ) (network : Network Client Engine) → Ends Any (is_failed id network)
  unfolding is_failed
  is_failed-Ends none network = tt
  is_failed-Ends (some id) network = failed_at-Ends id network

module _ (latency : Latency) {Client : Type 0} (now : ℕ) where
  send_to-Ends :
      (sender : Option ℕ) (recipient : ℕ) (network : Network Client latency.Engine)
      → Ends Any (send_to latency now sender recipient network)
  unfolding send_to
  send_to-Ends sender recipient network = go (ltb recipient (length network.meter_clients))
    where
      go :
          (known : Bool)
          → Ends {A = Sending × Network Client latency.Engine} Any (elim known [
            | false ↦ ok (Sending.no_such_meter, network)
            | true ↦ failed_at recipient network >>= (λ failed.
                ok
                  (if failed then refused latency sender network else accepted latency now network))
          ])
      go false = tt
      go true =
          bind-Ends Any Any (failed_at recipient network) _ (failed_at-Ends recipient network)
            (λ failed any. tt)

  pub send-Ends :
      (sender recipient : Option ℕ) (network : Network Client latency.Engine)
      → Ends Any (send latency now sender recipient network)
  unfolding send
  send-Ends sender recipient network =
      bind-Ends Any Any (is_failed sender network) _ (is_failed-Ends sender network)
        (λ failed any. go failed recipient)
    where
      go :
          (failed : Bool) (recipient : Option ℕ)
          → Ends Any (elim failed [
            | true ↦ ok (Sending.sender_failed, network)
            | false ↦ elim recipient [
              | none ↦ ok (accepted latency now network)
              | some recipient ↦ send_to latency now sender recipient network
            ]
          ])
      go true recipient = tt
      go false none = tt
      go false (some recipient) = send_to-Ends sender recipient network
