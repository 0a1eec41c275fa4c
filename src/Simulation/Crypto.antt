-- ===== src/Simulation/Crypto.antt =====
-- simulation/SimCrypto.h and .cpp and SimCryptoWrapper.h: the cryptography of the simulation, which
-- only marks messages and delays the meter that calls it.
use pddm.Prelude.{
  get_elem?, ℕ, ◌+◌, ◌≡◌, refl, true, false, Bool, Option, none, some, List, [], ◌∷◌, replicate,
}
use pddm.Messages.Outcome.{Outcome, ok, ◌>>=◌}
use pddm.Messages.Body.{MessageBody, Crypto}
use pddm.Messages.Onion.{build_encrypted_onion, peel, peel-build_encrypted_onion}
use pddm.Simulation.Network.{emplace_client, clients_from, last_id}

abbrev pub rsa_decrypt_time_micros : ℕ
rsa_decrypt_time_micros = 461

abbrev pub rsa_encrypt_time_micros : ℕ
rsa_encrypt_time_micros = 30

abbrev pub rsa_sign_time_micros : ℕ
rsa_sign_time_micros = 458

abbrev pub rsa_verify_time_micros : ℕ
rsa_verify_time_micros = 27

pub record SimCrypto (Client : Type 0) : Type 0 where
  pub meter_network_clients : List Client
  pub meter_network_clients_setup : List (ℕ × Client)

module _ {Client : Type 0} where
  unfoldable pub add_meter : ℕ → Client → SimCrypto Client → SimCrypto Client
  unfolding emplace_client
  add_meter meter_id client crypto = record crypto {
    meter_network_clients_setup = emplace_client meter_id client crypto.meter_network_clients_setup;
  }

  unfoldable pub finish_setup : SimCrypto Client → Outcome (SimCrypto Client)
  unfolding clients_from last_id
  finish_setup crypto = elim crypto.meter_network_clients [
    | client ∷ rest ↦ Outcome.setup_twice
    | [] ↦ elim crypto.meter_network_clients_setup [
      | [] ↦ Outcome.no_meters
      | entry ∷ rest ↦ do
        clients ← clients_from (last_id entry rest + 1) 0 (entry ∷ rest)
        ok (record { meter_network_clients = clients; meter_network_clients_setup = [] })
    ]
  ]

-- The flag `is_encrypted` is set. Only OverlayMessages have one.
unfoldable pub mark : Bool → MessageBody → MessageBody
mark encrypted (MessageBody.overlay query destination _ flood body) =
    MessageBody.overlay query destination encrypted flood body
mark encrypted (MessageBody.path_overlay query destination _ flood path body) =
    MessageBody.path_overlay query destination encrypted flood path body
mark encrypted body = body

-- What the calls return. A signature of a value, which the function does not write, is what was in the
-- array before, `unwritten`.
unfoldable pub sim_crypto : List ℕ → Crypto
unfolding mark
sim_crypto unwritten = record {
  rsa_encrypt = λ message target. mark true message;
  rsa_decrypt = λ message. mark false message;
  encrypt_value = λ value target. [];
  decrypt_signature = λ answer. replicate 256 0;
  verify_by_utility = λ value signature. true;
  sign_contribution = λ value. unwritten;
  verify_contribution = λ value signature signer. true;
  sign_signed = λ value. replicate 256 0;
  verify_signed = λ value signature signer. true;
}

module _ {Client : Type 0} (crypto : SimCrypto Client) (caller_id : Option ℕ) where
  -- Each call first delays the client of the caller, in microseconds. The utility, whose id is -1, has
  -- `none`, and is not delayed.
  unfoldable pub delayed : {A : Type 0} → ℕ → A → Outcome (A × Option (Client × ℕ))
  delayed micros result = elim caller_id [
    | none ↦ ok (result, none)
    | some id ↦ elim (get_elem? crypto.meter_network_clients id) [
      | none ↦ Outcome.out_of_range
      | some client ↦ ok (result, some (client, micros))
    ]
  ]

  unfoldable pub rsa_encrypt : MessageBody → Outcome (MessageBody × Option (Client × ℕ))
  unfolding mark delayed
  rsa_encrypt message = delayed rsa_encrypt_time_micros (mark true message)

  unfoldable pub rsa_decrypt : MessageBody → Outcome (MessageBody × Option (Client × ℕ))
  unfolding mark delayed
  rsa_decrypt message = delayed rsa_decrypt_time_micros (mark false message)

  -- The other calls, by what they return: signatures, answers to verifications, and strings.
  unfoldable pub rsa_sign : List ℕ → Outcome (List ℕ × Option (Client × ℕ))
  unfolding delayed
  rsa_sign signature = delayed rsa_sign_time_micros signature

  unfoldable pub rsa_verify : Outcome (Bool × Option (Client × ℕ))
  unfolding delayed
  rsa_verify = delayed rsa_verify_time_micros true

  unfoldable pub rsa_encrypt_value : Outcome (List ℕ × Option (Client × ℕ))
  unfolding delayed
  rsa_encrypt_value = delayed rsa_encrypt_time_micros []

  unfoldable pub rsa_sign_encrypted : List ℕ → Outcome (List ℕ × Option (Client × ℕ))
  unfolding delayed
  rsa_sign_encrypted encrypted_message = delayed rsa_sign_time_micros encrypted_message

  unfoldable pub rsa_decrypt_signature : Outcome (List ℕ × Option (Client × ℕ))
  unfolding delayed
  rsa_decrypt_signature = delayed rsa_decrypt_time_micros (replicate 256 0)

-- With the cryptography of the simulation, an onion is built for every path that has a hop, and the
-- meters of the path, which take off a layer each in the path's order and find themselves to be its
-- destination, come to the payload.
simulated_onion :
    (unwritten : List ℕ) (query_num first : ℕ) (rest : List ℕ) (payload : MessageBody)
    → (onion : MessageBody) × (build_encrypted_onion
          (sim_crypto unwritten)
          query_num
          (first ∷ rest)
          payload
        ≡ ok onion)
      × (peel (λ id. (sim_crypto unwritten).rsa_decrypt) (first ∷ rest) onion ≡ some payload)
unfolding sim_crypto mark
simulated_onion unwritten query_num first rest payload =
    peel-build_encrypted_onion (sim_crypto unwritten) query_num (λ id message. mark false message)
      (λ id body. refl) first rest payload
