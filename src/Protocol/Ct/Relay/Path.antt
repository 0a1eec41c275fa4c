-- ===== src/Protocol/Ct/Relay/Path.antt =====
-- An onion through the meters of its path.
use pddm.Prelude.{ℕ, ==_iff, Bool, true, false, List, [], ◌∷◌, append-nil, map, All, ◌≡◌, refl, ◌∙◌}
use pddm.Messages.{ValueContribution}
use pddm.Messages.Outcome.{Outcome, ok}
use pddm.Messages.Body.{MessageBody, Crypto}
use pddm.Messages.Onion.{layer, nested, build_encrypted_onion, build_encrypted_onion-nested}
use pddm.Protocol.{Environment}
use pddm.Protocol.Batch.{is_for}
use pddm.Protocol.Round.{handle_overlay_message}
use pddm.Protocol.Ct.{State, is_in_overlay_phase, handle_overlay_message_impl, subclass}
use pddm.Protocol.Ct.Relay.{
  Takes, Handles, Relayed, restarted, passes_on, receives, envelope, impl-layer, impl-value,
  Takes-restarted,
}

-- `seals` and `opens` say what CryptoLibrary.h does: encrypting hides the body of a message for a
-- meter and leaves the rest, and decrypting with the meter's key gives the message back.
module _ (sender : Crypto) (query_num : ℕ) (env : State → Environment)
    (hidden : ℕ → MessageBody → MessageBody)
    (seals : (id : ℕ) (body : MessageBody)
      → sender.rsa_encrypt (MessageBody.overlay query_num id false false body) id
        ≡ MessageBody.overlay query_num id true false (hidden id body))
    (opens : (s : State) (body : MessageBody)
      → (env s).crypto.rsa_decrypt
          (MessageBody.overlay query_num s.meter_id true false (hidden s.meter_id body))
        ≡ MessageBody.overlay query_num s.meter_id false false body) where
  layer-sealed :
      (id : ℕ) (body : MessageBody)
      → layer sender query_num id body
        ≡ MessageBody.overlay query_num id true false (hidden id body)
  unfolding layer
  layer-sealed = seals

  -- The part of the superclass: the timer, and the decryption.
  opened :
      (s : State) (body : MessageBody)
      → is_in_overlay_phase s.impl ≡ true
      → (end_overlay_round : State → Outcome State) (sender_id sender_round : ℕ) (final : Bool)
      → handle_overlay_message (env s) (subclass (env s)) end_overlay_round s (
          envelope sender_id sender_round final
            (MessageBody.overlay query_num s.meter_id true false (hidden s.meter_id body)))
        ≡ handle_overlay_message_impl end_overlay_round (restarted s) (
            envelope sender_id sender_round final
              (MessageBody.overlay query_num s.meter_id false false body))
  unfolding handle_overlay_message subclass
  opened s body busy end_overlay_round sender_id sender_round final =
      rw (opens s body, busy, append-nil s.waiting_messages) refl

  inner-Handles :
      (s : State) (id : ℕ) (body : MessageBody)
      → is_in_overlay_phase s.impl ≡ true
      → Handles env s
          (layer sender query_num s.meter_id (layer sender query_num id body))
          (passes_on (layer sender query_num id body) s)
  inner-Handles s id body busy end_overlay_round sender_id sender_round final =
      let next = MessageBody.overlay query_num id true false (hidden id body) in
      rw (layer-sealed id body, layer-sealed s.meter_id next)
        (opened s next busy end_overlay_round sender_id sender_round final
          ∙ impl-layer end_overlay_round (restarted s) sender_id sender_round final query_num
              query_num id true false (hidden id body) busy)

  last-Handles :
      (c : ValueContribution) (s : State)
      → Takes c s
      → Handles env s
          (layer sender query_num s.meter_id (MessageBody.value_contribution c))
          (receives c s)
  last-Handles c s takes end_overlay_round sender_id sender_round final =
      let payload = MessageBody.value_contribution c in
      rw (layer-sealed s.meter_id payload) (
        opened s payload takes.busy end_overlay_round sender_id sender_round final
        ∙ impl-value c end_overlay_round (restarted s) sender_id sender_round final
            (MessageBody.overlay query_num s.meter_id false false payload)
            (Takes-restarted c s takes) (rw ((==_iff s.meter_id s.meter_id).1 refl) refl))

  layer-is_for : (id : ℕ) (body : MessageBody) → is_for id (layer sender query_num id body) ≡ true
  layer-is_for id body = rw (layer-sealed id body) ((==_iff id id).1 refl)

  nested-Relayed :
      (c : ValueContribution) (s : State) (rest : List State)
      → All (Takes c) (s ∷ rest)
      → Relayed env c (s ∷ rest) (
          nested sender query_num
            (map (λ t. t.meter_id) (s ∷ rest))
            (MessageBody.value_contribution c))
  unfolding nested
  nested-Relayed c s [] all = (layer-is_for s.meter_id _, last-Handles c s all.0)
  nested-Relayed c s (s' ∷ rest) all = (
    layer-is_for s.meter_id _,
    _,
    inner-Handles s s'.meter_id _ all.0.busy,
    nested-Relayed c s' rest all.1,
  )

  -- On a path of meters that are in the shuffle or the echo of the query of a value: the onion around
  -- the value is built, and it is for the first meter. Each meter of the path but the last, when the
  -- message comes to it, starts the timer of its round again and puts a message for the next meter
  -- behind those that wait; the last one has the value among those that it has as a proxy. Nothing else
  -- of a meter changes, and a message that is the last of its batch ends the round. This holds if
  -- encryption hides the body of a message for a meter, and decryption by that meter undoes it.
  pub onion-Relayed :
      (c : ValueContribution) (s : State) (rest : List State)
      → All (Takes c) (s ∷ rest)
      → (onion : MessageBody) × (build_encrypted_onion sender query_num
            (map (λ t. t.meter_id) (s ∷ rest))
            (MessageBody.value_contribution c)
          ≡ ok onion)
        × Relayed env c (s ∷ rest) onion
  onion-Relayed c s rest all = (
    _,
    build_encrypted_onion-nested sender query_num s.meter_id (map (λ t. t.meter_id) rest)
        (MessageBody.value_contribution c),
    nested-Relayed c s rest all,
  )
