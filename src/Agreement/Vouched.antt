-- ===== src/Agreement/Vouched.antt =====
-- The signatures behind a value that is accepted at the end of phase 2.
use pddm.Prelude.{
  ℕ, ◌+◌, ◌≤◌, ◌<◌, ◌≡◌, refl, ap, ◌∙◌, leb, leb→le, ◌==◌, ==_iff, if◌then◌else◌, Bool, true, false,
  ◌⊎◌, Bool-cases, ||-true_right, inl, inr, List, [], ◌∷◌, length, contains, All, arith,
}
use pddm.Prelude.Log.{ceil_log2}
use pddm.Messages.{ValueContribution}
use pddm.Messages.Body.{SignatureMap, AgreementValue, MessageBody, Crypto}
use pddm.Agreement.{
  Table, CrusaderAgreementState, new_state, validate, handle_phase_1_message,
  handle_phase_2_message, handle_message, accept_values, finish_phase_2,
}
use pddm.Agreement.Trace.{IsPlain, handle_messages, handle_messages-log2n, verified_accepters}
use pddm.Agreement.Maps.{Increasing, IsEntry, store-IsEntry}

accepter_later :
    (b : Bool) (a id : ℕ) (later : List ℕ)
    → contains later id ≡ true
    → contains (if b then a ∷ later else later) id ≡ true
accepter_later true a id later h = ||-true_right (a == id) (contains later id) h
accepter_later false a id later h = h

accepter_now :
    (b : Bool) (a : ℕ) (later : List ℕ)
    → b ≡ true
    → contains (if b then a ∷ later else later) a ≡ true
accepter_now b a later h = rw (h, (==_iff a a).1 refl)

module _ (crypto : Crypto) where
  -- The signature is valid, or the meter is one of `ids`.
  abbrev pub IsVouched : List ℕ → ValueContribution → ℕ × List ℕ → Type 0
  IsVouched ids value (id, sig) =
      (crypto.verify_contribution value sig id ≡ true) ⊎ (contains ids id ≡ true)

  -- The value has signatures of enough distinct meters that are all vouched for.
  abbrev pub IsBacked : ℕ → List ℕ → ValueContribution → Type 0
  IsBacked log2n ids value =
      (signatures : SignatureMap) × (log2n + 1 ≤ length signatures)
      × Increasing signatures
      × All (IsVouched ids value) signatures

  module _ (ids : List ℕ) where
    validate-All :
        (value : ValueContribution) (accepter : ℕ) (m : SignatureMap) (P : ℕ × List ℕ → Type 0)
        → All P m
        → All P (validate crypto value accepter m).0
    unfolding validate
    validate-All value accepter [] P h = tt
    validate-All value accepter ((id, sig) ∷ rest) P h =
        let later = validate-All value accepter rest P h.1 in
        elim (Bool-cases (id == accepter)) [
          | inl own ↦ rw own (h.0, later)
          | inr other ↦ rw other (elim (Bool-cases (crypto.verify_contribution value sig id)) [
            | inl valid ↦ rw valid (h.0, later)
            | inr invalid ↦ rw invalid later
          ])
        ]

    validate-lem :
        (value : ValueContribution) (accepter : ℕ) (m : SignatureMap)
        → contains ids accepter ≡ true
        → Increasing m
        → Increasing (validate crypto value accepter m).0
          × All (IsVouched ids value) (validate crypto value accepter m).0
    unfolding validate
    validate-lem value accepter [] a h = (tt, tt)
    validate-lem value accepter ((id, sig) ∷ rest) a h =
        let (up, vouched) = validate-lem value accepter rest a h.1 in
        let above = validate-All value accepter rest (λ e. id < e.0) h.0 in
        elim (Bool-cases (id == accepter)) [
          | inl own ↦
              let same : id ≡ accepter = (==_iff id accepter).0 own in
              let in_ids : contains ids id ≡ true = ap (contains ids) same ∙ a in
              rw own ((above, up), (inr in_ids, vouched))
          | inr other ↦ rw other (elim (Bool-cases (crypto.verify_contribution value sig id)) [
            | inl valid ↦ rw valid ((above, up), (inl valid, vouched))
            | inr invalid ↦ rw invalid (up, vouched)
          ])
        ]

    IsGood : CrusaderAgreementState → Type 0
    IsGood s = All (IsEntry (IsVouched ids)) s.signed_proxy_values

    phase_1-open :
        (s : CrusaderAgreementState) (value : ValueContribution) (m : SignatureMap)
        → length m ≤ 1
        → IsGood s
        → IsGood (handle_phase_1_message crypto s (record { value = value; signatures = m }))
    unfolding IsGood handle_phase_1_message
    phase_1-open s value [] one h = h
    phase_1-open s value (e ∷ e' ∷ m) one h = absurd (omega arith)
    phase_1-open s value ((id, sig) ∷ []) one h =
        elim (Bool-cases (crypto.verify_contribution value sig id)) [
          | inr invalid ↦ rw invalid h
          | inl valid ↦ rw valid (
              store-IsEntry (IsVouched ids) (record { value = value; signatures = (id, sig) ∷ [] })
                ((id, sig) ∷ []) s.signed_proxy_values
                (record { key = refl; increasing = (tt, tt); valid = (inl valid, tt) })
                (inl valid, tt) h)
        ]

    phase_2-IsGood :
        (s : CrusaderAgreementState) (v : AgreementValue)
        → Increasing v.signed_value.signatures
        → (crypto.verify_signed v.signed_value v.accepter_signature v.accepter_id ≡ true
            → contains ids v.accepter_id ≡ true)
        → IsGood s
        → IsGood (handle_phase_2_message crypto s v)
    unfolding IsGood handle_phase_2_message
    phase_2-IsGood s v up sponsored h =
        let signed = v.signed_value in
        elim (Bool-cases (crypto.verify_signed signed v.accepter_signature v.accepter_id)) [
          | inr invalid ↦ rw invalid h
          | inl valid ↦
              let (up', vouched) =
                validate-lem signed.value v.accepter_id signed.signatures (sponsored valid) up in
              let kept = (validate crypto signed.value v.accepter_id signed.signatures).0 in
              let stored =
                store-IsEntry (IsVouched ids) (record { value = signed.value; signatures = kept })
                  kept s.signed_proxy_values
                  (record { key = refl; increasing = up'; valid = vouched }) vouched h in
              elim (Bool-cases
                (leb s.log2n (validate crypto signed.value v.accepter_id signed.signatures).1)) [
                  | inl enough ↦ rw (valid, enough) stored
                  | inr few ↦ rw (valid, few) h
                ]
        ]

    handle_messages-IsGood :
        (s : CrusaderAgreementState) (ms : List MessageBody)
        → All IsPlain ms
        → ((id : ℕ) → contains (verified_accepters crypto ms) id ≡ true → contains ids id ≡ true)
        → IsGood s
        → IsGood (handle_messages crypto s ms)
    unfolding handle_messages handle_message
    handle_messages-IsGood s [] plain in_ids h = h
    handle_messages-IsGood s (MessageBody.signed_value v ∷ ms) plain in_ids h =
        handle_messages-IsGood (handle_phase_1_message crypto s v) ms plain.1 in_ids
          (phase_1-open s v.value v.signatures plain.0 h)
    handle_messages-IsGood s (MessageBody.agreement_value v ∷ ms) plain in_ids h =
        let b = crypto.verify_signed v.signed_value v.accepter_signature v.accepter_id in
        let later = verified_accepters crypto ms in
        handle_messages-IsGood (handle_phase_2_message crypto s v) ms plain.1
          (λ id p. in_ids id (accepter_later b v.accepter_id id later p))
          (phase_2-IsGood s v plain.0
            (λ valid. in_ids v.accepter_id (accepter_now b v.accepter_id later valid)) h)
    handle_messages-IsGood s (MessageBody.null ∷ ms) plain in_ids h =
        handle_messages-IsGood s ms plain.1 in_ids h
    handle_messages-IsGood s (MessageBody.string_body x ∷ ms) plain in_ids h =
        handle_messages-IsGood s ms plain.1 in_ids h
    handle_messages-IsGood s (MessageBody.value_contribution x ∷ ms) plain in_ids h =
        handle_messages-IsGood s ms plain.1 in_ids h
    handle_messages-IsGood s (MessageBody.overlay x y z w b ∷ ms) plain in_ids h =
        handle_messages-IsGood s ms plain.1 in_ids h
    handle_messages-IsGood s (MessageBody.path_overlay x y z w r b ∷ ms) plain in_ids h =
        handle_messages-IsGood s ms plain.1 in_ids h

    accept_values-All :
        (log2n : ℕ) (table : Table)
        → All (IsEntry (IsVouched ids)) table
        → All (IsBacked log2n ids) (accept_values log2n table)
    unfolding accept_values
    accept_values-All log2n [] h = tt
    accept_values-All log2n ((key, signed) ∷ rest) h =
        let later = accept_values-All log2n rest h.1 in
        elim (Bool-cases (leb (log2n + 1) (length signed.signatures))) [
          | inl enough ↦
              rw enough ((signed.signatures, leb→le _ _ enough, h.0.increasing, h.0.valid), later)
          | inr few ↦ rw few later
        ]

  -- Whatever messages a meter handles, in whatever order, if those of phase 1 have one signature at
  -- most: each value that it accepts at the end of phase 2 has signatures of at least log2(n) + 1
  -- distinct meters, rounded up, and each of them is a valid signature of the value, or is the
  -- signature of a meter that sent an agreement value with a valid signature of its own.
  pub accepted_values_vouched :
      (node nodes query : ℕ) (ms : List MessageBody)
      → All IsPlain ms
      → All
          (IsBacked (ceil_log2 nodes) (verified_accepters crypto ms))
          (finish_phase_2 (handle_messages crypto (new_state node nodes query) ms))
  unfolding finish_phase_2 new_state IsGood
  accepted_values_vouched node nodes query ms plain =
      let s = new_state node nodes query in
      let ids = verified_accepters crypto ms in
      rw (handle_messages-log2n crypto s ms) (
        accept_values-All ids (ceil_log2 nodes) (handle_messages crypto s ms).signed_proxy_values
          (handle_messages-IsGood ids s ms plain (λ id h. h) tt))
