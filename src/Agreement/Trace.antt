-- ===== src/Agreement/Trace.antt =====
-- A sequence of messages that a meter handles during the agreement.
use pddm.Prelude.{ℕ, ◌≤◌, ◌≡◌, refl, ◌∙◌, if◌then◌else◌, List, [], ◌∷◌, length, arith}
use pddm.Messages.{ValueContribution}
use pddm.Messages.Body.{SignatureMap, AgreementValue, MessageBody, Crypto}
use pddm.Agreement.{
  CrusaderAgreementState, handle_phase_1_message, handle_phase_2_message, handle_message,
}
use pddm.Agreement.Maps.{Increasing}

-- A message of phase 1 has one signature at most, and the maps are maps.
abbrev pub IsPlain : MessageBody → Type 0
IsPlain (MessageBody.signed_value v) = length v.signatures ≤ 1
IsPlain (MessageBody.agreement_value v) = Increasing v.signed_value.signatures
IsPlain _ = Unit {0}

module _ (crypto : Crypto) where
  -- The messages, in the order in which they come.
  unfoldable pub handle_messages :
      CrusaderAgreementState → List MessageBody → CrusaderAgreementState
  handle_messages s [] = s
  handle_messages s (m ∷ rest) = handle_messages (handle_message crypto s m) rest

  -- The meters whose own signature on an agreement value is valid, in a sequence of messages.
  abbrev pub verified_accepters : List MessageBody → List ℕ
  verified_accepters [] = []
  verified_accepters (MessageBody.agreement_value v ∷ rest) =
      let later = verified_accepters rest in
      if crypto.verify_signed v.signed_value v.accepter_signature v.accepter_id
      then v.accepter_id ∷ later
      else later
  verified_accepters (_ ∷ rest) = verified_accepters rest

  phase_1-log2n :
      (s : CrusaderAgreementState) (value : ValueContribution) (m : SignatureMap)
      → (handle_phase_1_message crypto s (record { value = value; signatures = m })).log2n ≡ s.log2n
  unfolding handle_phase_1_message
  phase_1-log2n s value [] = refl
  phase_1-log2n s value ((id, sig) ∷ m) = ground arith

  phase_2-log2n :
      (s : CrusaderAgreementState) (v : AgreementValue)
      → (handle_phase_2_message crypto s v).log2n ≡ s.log2n
  unfolding handle_phase_2_message
  phase_2-log2n s v = ground arith

  pub handle_messages-log2n :
      (s : CrusaderAgreementState) (ms : List MessageBody) → (handle_messages s ms).log2n ≡ s.log2n
  unfolding handle_messages handle_message
  handle_messages-log2n s [] = refl
  handle_messages-log2n s (MessageBody.signed_value v ∷ ms) =
      handle_messages-log2n (handle_phase_1_message crypto s v) ms
      ∙ phase_1-log2n s v.value v.signatures
  handle_messages-log2n s (MessageBody.agreement_value v ∷ ms) =
      handle_messages-log2n (handle_phase_2_message crypto s v) ms ∙ phase_2-log2n s v
  handle_messages-log2n s (MessageBody.null ∷ ms) = handle_messages-log2n s ms
  handle_messages-log2n s (MessageBody.string_body x ∷ ms) = handle_messages-log2n s ms
  handle_messages-log2n s (MessageBody.value_contribution x ∷ ms) = handle_messages-log2n s ms
  handle_messages-log2n s (MessageBody.overlay x y z w b ∷ ms) = handle_messages-log2n s ms
  handle_messages-log2n s (MessageBody.path_overlay x y z w r b ∷ ms) = handle_messages-log2n s ms
