-- ===== src/Protocol/Hft/Query.antt =====
-- HftProtocolState.cpp, `start_query_impl`: the relays, and the messages that are flooded to them.
use pddm.Prelude.{
  ℕ, ltb, ◌==◌, if◌then◌else◌, true, false, none, some, List, [], ◌∷◌, length, replicate,
}
use pddm.Messages.{ValueContribution, QueryRequest}
use pddm.Messages.Outcome.{Outcome, ok, undefined, ◌>>=◌}
use pddm.Messages.Body.{MessageBody, Crypto}
use pddm.Protocol.{Environment}
use pddm.Protocol.Start
use pddm.Protocol.Round.{end_overlay_round}
use pddm.Protocol.Hft.Random.{Shuffling, sort, sample_range_excluding}
use pddm.Protocol.Hft.{HftProtocolPhase, MessageSets, State, emplace_message, subclass}

-- A std::map from proxies to relays: `relays[proxy] = relay`.
unfoldable pub put_relay : ℕ → ℕ → List (ℕ × ℕ) → List (ℕ × ℕ)
put_relay proxy relay [] = (proxy, relay) ∷ []
put_relay proxy relay ((proxy', relay') ∷ rest) =
    let later = put_relay proxy relay rest in
    if proxy == proxy'
    then (proxy, relay) ∷ rest
    else if ltb proxy proxy'
    then (proxy, relay) ∷ (proxy', relay') ∷ rest
    else (proxy', relay') ∷ later

-- The loop over the proxies, each with the relay at its place. There are as many relays as proxies.
unfoldable pub put_relays : List ℕ → List ℕ → List (ℕ × ℕ) → List (ℕ × ℕ)
unfolding put_relay
put_relays (proxy ∷ proxies) (relay ∷ relays) map =
    put_relays proxies relays (put_relay proxy relay map)
put_relays _ _ map = map

-- The two layers of a proxy's message.
abbrev pub two_layers : Crypto → ℕ → ValueContribution → ℕ × ℕ → MessageBody
two_layers crypto query_num contribution (proxy, relay) =
    let inner_layer =
      crypto.rsa_encrypt
        (MessageBody.overlay query_num proxy false true
          (MessageBody.value_contribution contribution))
        proxy in
    crypto.rsa_encrypt (MessageBody.overlay query_num relay false true inner_layer) relay

-- The loop over the proxies and their relays.
unfoldable pub flood_all :
    Crypto
    → MessageSets
    → ℕ
    → ValueContribution
    → List (ℕ × ℕ)
    → List MessageBody
    → List MessageBody
flood_all crypto sets query_num contribution [] floods = floods
flood_all crypto sets query_num contribution (proxy_relay ∷ rest) floods =
    flood_all crypto sets query_num contribution rest
      (emplace_message sets (two_layers crypto query_num contribution proxy_relay) floods)

-- `start_query_impl`, up to the end of "round -1".
module _ (env : Environment) (sets : MessageSets) (random : Shuffling) where
  unfoldable pub start_query_impl :
      ℕ → State → random.Engine → QueryRequest → Outcome (State × random.Engine)
  unfolding sort sample_range_excluding put_relays flood_all subclass
  start_query_impl fuel s engine query = elim s.my_contribution [
    | none ↦ undefined
    | some mine ↦
        let signed_contribution : ValueContribution = record {
          value = mine;
          signature = replicate 256 0;
        } in
        let proxies = sort mine.proxies in
        let (non_proxies, engine') =
          sample_range_excluding random 0 s.num_meters proxies (length proxies) engine in
        let relays = put_relays proxies non_proxies [] in
        (do
          s₁ ← end_overlay_round env (subclass env sets) fuel (record s {
            my_contribution = some (record mine { proxies = proxies });
            impl = record {
              protocol_phase = HftProtocolPhase.scatter;
              gather_start_round = 0;
              current_flood_messages =
                  flood_all env.crypto sets query.query_number signed_contribution relays [];
              relay_messages = [];
            };
          })
          ok (s₁, engine'))
  ]

  unfoldable pub start_query :
      ℕ
      → State
      → env.uniform.Engine
      → random.Engine
      → QueryRequest
      → List ℕ
      → Outcome (State × env.uniform.Engine × random.Engine)
  unfolding start_query_impl
  start_query fuel s proxy_engine engine query contributed_data = do
    (s₁, proxy_engine') ← Start.prepare_query env s proxy_engine query contributed_data
    (s₂, engine') ← start_query_impl fuel s₁ engine query
    ok (s₂, proxy_engine', engine')
