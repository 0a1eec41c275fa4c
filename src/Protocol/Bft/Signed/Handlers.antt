-- ===== src/Protocol/Bft/Signed/Handlers.antt =====
-- The signatures of the proxy values, over the handlers of BftProtocolState.cpp.
use pddm.Prelude.{
  ◌==◌, ==_iff, ◌≡◌, refl, if◌then◌else◌, Bool, true, false, ◌&&◌, &&-true, Bool-cases, inl, inr,
  Option, none, some, List, [], ◌∷◌, ◌++◌, All,
}
use pddm.Messages.{ValueTuple, ValueContribution}
use pddm.Messages.Outcome.{Outcome, ok, undefined, both_return}
use pddm.Messages.Body.{MessageBody}
use pddm.Agreement
use pddm.Agreement.{CrusaderAgreementState, finish_phase_1, finish_phase_2}
use pddm.Protocol.{Transport, Environment, emplace_value, has_value}
use pddm.Protocol.Content.{Content, no_payload, not_here, next_layer, payload, content}
use pddm.Protocol.Keeps.Defs.{Holds, Keeps, ok-Holds}
use pddm.Protocol.Bft.{
  BftProtocolPhase, State, is_in_overlay_phase, handle_shuffle_phase_message,
  handle_agreement_phase_message, handle_payload, handle_content, handle_overlay_message_impl,
}

module _ (env : Environment) where
  -- Each value has the number of the meter's own query and the utility's signature.
  abbrev pub AreSigned : Option ValueTuple → List ValueContribution → Type 0
  AreSigned none values = values ≡ []
  AreSigned (some mine) values =
      All
        (λ v.
          (v.value.query_num ≡ mine.query_num)
          × (env.crypto.verify_by_utility v.value v.signature ≡ true))
        values

  emplace_value-All :
      (P : ValueContribution → Type 0) (v : ValueContribution) (vs : List ValueContribution)
      → P v
      → All P vs
      → All P (emplace_value v vs)
  emplace_value-All P v vs p h = elim (Bool-cases (has_value v vs)) [
    | inl there ↦ rw there h
    | inr new ↦ rw new (p, h)
  ]

  shuffle-Keeps :
      (body : MessageBody) → Keeps AreSigned (λ s. handle_shuffle_phase_message env s body)
  unfolding handle_shuffle_phase_message
  shuffle-Keeps (MessageBody.value_contribution v) s s' e h = go s.my_contribution refl e
    where
      go :
          (c : Option ValueTuple)
          → s.my_contribution ≡ c
          → (elim c [
            | none ↦ undefined
            | some mine ↦
                if v.value.query_num == mine.query_num
                  && env.crypto.verify_by_utility v.value v.signature
                then ok (record s { proxy_values = emplace_value v s.proxy_values })
                else ok s
          ])
            ≡ ok s'
          → Holds AreSigned s'
      go none c e = cc
      go (some mine) c e =
          let same = v.value.query_num == mine.query_num in
          let signed = env.crypto.verify_by_utility v.value v.signature in
          let stored = record s { proxy_values = emplace_value v s.proxy_values } in
          elim (Bool-cases (same && signed)) [
            | inr bad ↦ let e' : ok s ≡ ok s' = rw bad at e in ok-Holds AreSigned s s' e' h
            | inl good ↦
                let e' : ok stored ≡ ok s' = rw good at e in
                let (p, q) = &&-true same signed good in
                let num = (==_iff v.value.query_num mine.query_num).0 p in
                let old : AreSigned (some mine) s.proxy_values = rw c at h in
                let new : Holds AreSigned stored =
                  rw c (emplace_value-All _ v s.proxy_values (num, q) old) in
                ok-Holds AreSigned stored s' e' new
          ]
  shuffle-Keeps MessageBody.null s s' e h = ok-Holds AreSigned s s' e h
  shuffle-Keeps (MessageBody.string_body x) s s' e h = ok-Holds AreSigned s s' e h
  shuffle-Keeps (MessageBody.signed_value x) s s' e h = ok-Holds AreSigned s s' e h
  shuffle-Keeps (MessageBody.agreement_value x) s s' e h = ok-Holds AreSigned s s' e h
  shuffle-Keeps (MessageBody.overlay x y z w b) s s' e h = ok-Holds AreSigned s s' e h
  shuffle-Keeps (MessageBody.path_overlay x y z w r b) s s' e h = ok-Holds AreSigned s s' e h

  agreement-Keeps :
      (body : MessageBody) → Keeps AreSigned (λ s. handle_agreement_phase_message env s body)
  unfolding handle_agreement_phase_message
  agreement-Keeps body s s' e h = go s.impl.agreement_phase_state e
    where
      go :
          (a : Option CrusaderAgreementState)
          → (elim a [
            | none ↦ undefined
            | some agreed ↦ ok (record s {
              impl = record s.impl {
                agreement_phase_state = some (Agreement.handle_message env.crypto agreed body);
              };
            })
          ])
            ≡ ok s'
          → Holds AreSigned s'
      go none e = cc
      go (some agreed) e =
          let next = record s {
            impl = record s.impl {
              agreement_phase_state = some (Agreement.handle_message env.crypto agreed body);
            };
          } in
          ok-Holds AreSigned next s' e h

  payload-Keeps : (body : MessageBody) → Keeps AreSigned (λ s. handle_payload env s body)
  unfolding handle_payload
  payload-Keeps body s s' e h = go s.impl.protocol_phase e
    where
      go :
          (p : BftProtocolPhase)
          → (elim p [
            | BftProtocolPhase.shuffle ↦ handle_shuffle_phase_message env s body
            | BftProtocolPhase.agreement ↦ handle_agreement_phase_message env s body
            | _ ↦ ok s
          ])
            ≡ ok s'
          → Holds AreSigned s'
      go BftProtocolPhase.idle e = ok-Holds AreSigned s s' e h
      go BftProtocolPhase.setup e = ok-Holds AreSigned s s' e h
      go BftProtocolPhase.shuffle e = shuffle-Keeps body s s' e h
      go BftProtocolPhase.agreement e = agreement-Keeps body s s' e h
      go BftProtocolPhase.aggregate e = ok-Holds AreSigned s s' e h

  content-Keeps : (c : Content) → Keeps AreSigned (λ s. handle_content env s c)
  unfolding handle_content
  content-Keeps no_payload s s' e h = ok-Holds AreSigned s s' e h
  content-Keeps not_here s s' e h = ok-Holds AreSigned s s' e h
  content-Keeps (next_layer body) s s' e h =
      ok-Holds AreSigned (record s { waiting_messages = s.waiting_messages ++ body ∷ [] }) s' e h
  content-Keeps (payload body) s s' e h = payload-Keeps body s s' e h

  again-Keeps :
      (again : State → Outcome State)
      → Keeps AreSigned again
      → (s s' : State) (b : Bool) → (elim b [ true ↦ again s | false ↦ ok s ]) ≡ ok s'
      → Holds AreSigned s
      → Holds AreSigned s'
  again-Keeps again k s s' true e h = k s s' e h
  again-Keeps again k s s' false e h = ok-Holds AreSigned s s' e h

  pub handles-Keeps :
      (again : State → Outcome State)
      → Keeps AreSigned again
      → (m : Transport) → Keeps AreSigned (λ s. handle_overlay_message_impl env again s m)
  unfolding handle_overlay_message_impl
  handles-Keeps again k m s s' e h =
      let c = content s.meter_id m.body in
      let (s₁, ran, later) = both_return (handle_content env s c) _ e in
      again-Keeps again k s₁ s' (m.is_final_message && is_in_overlay_phase s₁.impl) later
        (content-Keeps c s s₁ ran h)
