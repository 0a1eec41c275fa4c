-- ===== src/Agreement/Enough.antt =====
-- When a value is accepted at the end of phase 2.
use mathlib.Core.List.{Memᴰ}
use mathlib.Core.List.Memᴰ
use pddm.Prelude.{
  ℕ, ◌+◌, ◌≤◌, ◌≡◌, refl, sym, ◌∙◌, leb, ◌==◌, ==_iff, true, ||-true, Bool-cases, inl, inr, List,
  [], ◌∷◌, length, contains, Distinct, Distinct-length_le, All, arith,
}
use pddm.Prelude.Log.{ceil_log2}
use pddm.Messages.{ValueContribution}
use pddm.Messages.Body.{SignatureMap, SignedValue, MessageBody, Crypto, same_contribution_iff}
use pddm.Messages.Outcome.{ok, both_return}
use pddm.PathFinder.Defs.{InfectedNode}
use pddm.Agreement.{
  CrusaderAgreementState, new_state, store, validate, handle_phase_1_message,
  handle_phase_2_message, handle_message, finish_phase_1, finish_phase_2, accept_all,
}
use pddm.Agreement.Trace.{handle_messages, handle_messages-log2n}
use pddm.Agreement.Signers.{
  signers, length-signers, signers_of, IsKeyed, store-old, store-new, store-IsKeyed,
  accept_values-enough,
}

-- A message of phase 1 with the one signature `sig` of the meter `id` on the value.
abbrev pub signed_by : ValueContribution → ℕ → List ℕ → MessageBody
signed_by value id sig =
    MessageBody.signed_value (record { value = value; signatures = (id, sig) ∷ [] })

-- What a handler may do to the state: nothing, or one `store` in the table.
module _ (P : CrusaderAgreementState → Type 0) (crypto : Crypto) (s : CrusaderAgreementState) where
  handled :
      (m : MessageBody)
      → P s
      → ((signed : SignedValue) (extra : SignatureMap)
          → P (record s { signed_proxy_values = store signed extra s.signed_proxy_values }))
      → P (handle_message crypto s m)
  unfolding handle_message handle_phase_1_message handle_phase_2_message
  handled (MessageBody.signed_value v) same stored = phase_1 v.value v.signatures
    where
      phase_1 :
          (value : ValueContribution) (m : SignatureMap)
          → P (handle_phase_1_message crypto s (record { value = value; signatures = m }))
      phase_1 value [] = same
      phase_1 value ((id, sig) ∷ m) = elim (Bool-cases (crypto.verify_contribution value sig id)) [
        | inl valid ↦
            rw valid
              (stored (record { value = value; signatures = (id, sig) ∷ m }) ((id, sig) ∷ []))
        | inr invalid ↦ rw invalid same
      ]
  handled (MessageBody.agreement_value v) same stored =
      let signed = v.signed_value in
      let kept = validate crypto signed.value v.accepter_id signed.signatures in
      let next = stored (record { value = signed.value; signatures = kept.0 }) kept.0 in
      elim (Bool-cases (crypto.verify_signed signed v.accepter_signature v.accepter_id)) [
        | inl valid ↦ elim (Bool-cases (leb s.log2n kept.1)) [
          | inl enough ↦ rw (valid, enough) next
          | inr few ↦ rw (valid, few) same
        ]
        | inr invalid ↦ rw invalid same
      ]
  handled MessageBody.null same stored = same
  handled (MessageBody.string_body x) same stored = same
  handled (MessageBody.value_contribution x) same stored = same
  handled (MessageBody.overlay x y z w b) same stored = same
  handled (MessageBody.path_overlay x y z w r b) same stored = same

module _ (crypto : Crypto) where
  handle_messages-IsKeyed :
      (s : CrusaderAgreementState) (ms : List MessageBody)
      → IsKeyed s.signed_proxy_values
      → IsKeyed (handle_messages crypto s ms).signed_proxy_values
  unfolding handle_messages
  handle_messages-IsKeyed s [] h = h
  handle_messages-IsKeyed s (m ∷ ms) h = handle_messages-IsKeyed (handle_message crypto s m) ms (
      handled (λ t. IsKeyed t.signed_proxy_values) crypto s m h
        (λ signed extra. store-IsKeyed signed extra s.signed_proxy_values h))

  handle_messages-old :
      (s : CrusaderAgreementState) (v : ValueContribution) (z : ℕ) (ms : List MessageBody)
      → contains (signers_of s.signed_proxy_values v) z ≡ true
      → contains (signers_of (handle_messages crypto s ms).signed_proxy_values v) z ≡ true
  unfolding handle_messages
  handle_messages-old s v z [] h = h
  handle_messages-old s v z (m ∷ ms) h = handle_messages-old (handle_message crypto s m) v z ms (
      handled (λ t. contains (signers_of t.signed_proxy_values v) z ≡ true) crypto s m h
        (λ signed extra. store-old z v signed extra s.signed_proxy_values h))

  handle_messages-new :
      (s : CrusaderAgreementState) (v : ValueContribution) (id : ℕ) (sig : List ℕ)
      (ms : List MessageBody)
      → crypto.verify_contribution v sig id ≡ true
      → Memᴰ (signed_by v id sig) ms
      → contains (signers_of (handle_messages crypto s ms).signed_proxy_values v) id ≡ true
  unfolding handle_messages handle_message handle_phase_1_message
  handle_messages-new s v id sig [] valid m = absurd (Memᴰ.not-nil m)
  handle_messages-new s v id sig (m ∷ ms) valid inside = elim (Memᴰ.cases_cons inside) [
    | inl e ↦
        handle_messages-old (handle_message crypto s m) v id ms
          (rw (sym e) (rw valid (store-new id sig v s.signed_proxy_values)))
    | inr later ↦ handle_messages-new (handle_message crypto s m) v id sig ms valid later
  ]

  -- The signature of a meter is among the messages.
  abbrev pub HasSigned : List MessageBody → ValueContribution → ℕ → Type 0
  HasSigned ms value id =
      (sig : List ℕ) × (crypto.verify_contribution value sig id ≡ true)
      × Memᴰ (signed_by value id sig) ms

  All-stored :
      (s : CrusaderAgreementState) (v : ValueContribution) (ms : List MessageBody) (ids : List ℕ)
      → All (HasSigned ms v) ids
      → (z : ℕ) → contains ids z ≡ true
      → contains (signers_of (handle_messages crypto s ms).signed_proxy_values v) z ≡ true
  All-stored s v ms [] h z p = cc
  All-stored s v ms (id ∷ ids) h z p = elim (||-true (id == z) (contains ids z) p) [
    | inl here ↦
        let e : id ≡ z = (==_iff id z).0 here in
        let (sig, valid, inside) = h.0 in
        rw (sym e) (handle_messages-new s v id sig ms valid inside)
    | inr there ↦ All-stored s v ms ids h.1 z there
  ]

  -- A value is accepted at the end of phase 2 if, among the messages that a meter handles, in any
  -- order and between any other messages, at least log2(n) + 1 distinct meters, rounded up, each have
  -- a message of phase 1 with a valid signature of that value.
  pub enough_signatures_accepted :
      (node nodes query : ℕ) (ms : List MessageBody) (value : ValueContribution) (ids : List ℕ)
      → Distinct ids
      → ceil_log2 nodes + 1 ≤ length ids
      → All (HasSigned ms value) ids
      → Memᴰ value (finish_phase_2 (handle_messages crypto (new_state node nodes query) ms))
  unfolding finish_phase_2 new_state
  enough_signatures_accepted node nodes query ms value ids distinct many signed =
      let s = new_state node nodes query in
      let table = (handle_messages crypto s ms).signed_proxy_values in
      let le =
        Distinct-length_le ids (signers_of table value) distinct
          (All-stored s value ms ids signed) in
      rw (handle_messages-log2n crypto s ms) (
        accept_values-enough (ceil_log2 nodes) value table (handle_messages-IsKeyed s ms tt)
          (omega arith))

  finish_phase_1-table :
      (order : List InfectedNode → List InfectedNode) (round : ℕ) (s s' : CrusaderAgreementState)
      (sent : List MessageBody)
      → finish_phase_1 crypto order s round ≡ ok (s', sent)
      → (s'.signed_proxy_values ≡ s.signed_proxy_values) × (s'.log2n ≡ s.log2n)
  unfolding finish_phase_1
  finish_phase_1-table order round s s' sent h =
      let (messages, made, ended) =
        both_return (accept_all crypto order s round s.signed_proxy_values) _ h in
      (cc, cc)

  first_stored :
      (s : CrusaderAgreementState) (value : ValueContribution) (id : ℕ) (sig : List ℕ)
      (others : SignatureMap) (z : ℕ)
      → s.signed_proxy_values ≡ []
      → crypto.verify_contribution value sig id ≡ true
      → contains (signers ((id, sig) ∷ others)) z ≡ true
      → contains
          (signers_of
            (handle_message crypto s (
              MessageBody.signed_value
                (record { value = value; signatures = (id, sig) ∷ others }))).signed_proxy_values
            value)
          z
        ≡ true
  unfolding handle_message handle_phase_1_message store
  first_stored s value id sig others z empty valid inside =
      rw (valid, empty, (same_contribution_iff value value).1 refl) inside

  -- The signatures of a message of phase 1 are not counted but trusted: if the first message that a
  -- meter handles is of phase 1 and has at least log2(n) + 1 entries in its map, rounded up, whose
  -- signature of the least id is valid, then its value is accepted at the end of phase 2, whatever the
  -- other signatures are and whatever messages follow before and after the end of phase 1, if that
  -- returns.
  pub unverified_signatures_accepted :
      (node nodes query : ℕ) (value : ValueContribution) (id : ℕ) (sig : List ℕ)
      (others : SignatureMap) (before after : List MessageBody)
      (order : List InfectedNode → List InfectedNode) (round : ℕ) (s : CrusaderAgreementState)
      (sent : List MessageBody)
      → crypto.verify_contribution value sig id ≡ true
      → Distinct (signers ((id, sig) ∷ others))
      → ceil_log2 nodes ≤ length others
      → finish_phase_1 crypto order
          (handle_messages crypto (new_state node nodes query) (
            MessageBody.signed_value (record { value = value; signatures = (id, sig) ∷ others })
            ∷ before))
          round
        ≡ ok (s, sent)
      → Memᴰ value (finish_phase_2 (handle_messages crypto s after))
  unfolding finish_phase_2 new_state handle_messages
  unverified_signatures_accepted node nodes query value id sig others before after order round s
        sent valid distinct many finished =
      let new = new_state node nodes query in
      let signed : SignedValue = record { value = value; signatures = (id, sig) ∷ others } in
      let message = MessageBody.signed_value signed in
      let s₀ = handle_messages crypto new (message ∷ before) in
      let (same, log) = finish_phase_1-table order round s₀ s sent finished in
      let ids = signers ((id, sig) ∷ others) in
      let there : (z : ℕ)
          → contains ids z ≡ true
          → contains (signers_of (handle_messages crypto s after).signed_proxy_values value) z
            ≡ true =
        λ z inside. handle_messages-old s value z after (
          rw same (
            handle_messages-old (handle_message crypto new message) value z before
              (first_stored new value id sig others z refl valid inside))) in
      let keyed : IsKeyed s.signed_proxy_values =
        rw same (handle_messages-IsKeyed new (message ∷ before) tt) in
      let table = (handle_messages crypto s after).signed_proxy_values in
      let le = Distinct-length_le ids (signers_of table value) distinct there in
      let logs : (handle_messages crypto s after).log2n ≡ ceil_log2 nodes =
        handle_messages-log2n crypto s after
        ∙ log
        ∙ handle_messages-log2n crypto new (message ∷ before) in
      rw logs (
        accept_values-enough (ceil_log2 nodes) value table (handle_messages-IsKeyed s after keyed)
          (omega (arith, length-signers others)))
