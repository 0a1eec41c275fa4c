-- ===== src/Examples/Agreement.antt =====
-- Two meters that agree, with signatures that are the signer's id in a list.
use mathlib.Core.List.{Memᴰ}
use pddm.Prelude.{◌≡◌, refl, List, [], ◌∷◌, same_list, All, arith}
use pddm.Prelude.Log.{ceil_log2}
use pddm.Messages.{ValueContribution}
use pddm.Messages.Body.{SignatureMap, MessageBody, Crypto, same_contribution}
use pddm.Messages.Multicast.{multicast}
use pddm.Messages.Outcome.{Outcome, ok}
use pddm.Overlay.ModPow.{mod_pow}
use pddm.Overlay.Gossip.{target}
use pddm.PathFinder.Defs.{find_paths}
use pddm.Agreement.{
  CrusaderAgreementState, new_state, handle_message, finish_phase_1, finish_phase_2,
}
use pddm.Agreement.Trace.{handle_messages, verified_accepters}
use pddm.Agreement.Vouched.{IsBacked, accepted_values_vouched}
use pddm.Agreement.Enough.{signed_by, enough_signatures_accepted, unverified_signatures_accepted}

-- A cryptography that encrypts nothing, and whose signature is the signer's id.
abbrev plain : Crypto
plain = record {
  rsa_encrypt = λ message id. message;
  rsa_decrypt = λ message. message;
  encrypt_value = λ value id. value.value;
  decrypt_signature = λ answer. answer;
  verify_by_utility = λ value sig. same_list sig (9 ∷ []);
  sign_contribution = λ value. 0 ∷ [];
  verify_contribution = λ value sig id. same_list sig (id ∷ []);
  sign_signed = λ value. 0 ∷ [];
  verify_signed = λ value sig id. same_list sig (id ∷ []);
}

abbrev value : ValueContribution
value = record {
  value = record { query_num = 4; value = 6 ∷ []; proxies = 0 ∷ 1 ∷ [] };
  signature = 9 ∷ [];
}

abbrev two : List MessageBody
two = signed_by value 0 (0 ∷ []) ∷ signed_by value 1 (1 ∷ []) ∷ []

accepted_values_vouched_example :
    All
      (IsBacked plain (ceil_log2 2) (verified_accepters plain two))
      (finish_phase_2 (handle_messages plain (new_state 0 2 4) two))
accepted_values_vouched_example =
    accepted_values_vouched plain 0 2 4 two (omega arith, (omega arith, tt))

enough_signatures_accepted_example :
    Memᴰ value (finish_phase_2 (handle_messages plain (new_state 0 2 4) two))
unfolding ceil_log2
enough_signatures_accepted_example =
    enough_signatures_accepted plain 0 2 4 two value (0 ∷ 1 ∷ []) (refl, (refl, tt)) (omega arith)
      ((0 ∷ [], refl, Memᴰ.head refl), ((1 ∷ [], refl, Memᴰ.tail (Memᴰ.head refl)), tt))

-- A value of eleven meters, of which only the first signature is valid, and the end of phase 1 at
-- meter 0, which sends the value to the two other proxies.
abbrev shared : ValueContribution
shared = record value { value = record { query_num = 4; value = 6 ∷ []; proxies = 0 ∷ 7 ∷ 9 ∷ [] } }

abbrev forgeries : SignatureMap
forgeries = (1, 0 ∷ []) ∷ (2, 0 ∷ []) ∷ (3, 0 ∷ []) ∷ (4, 0 ∷ []) ∷ []

abbrev forged : MessageBody
forged = MessageBody.signed_value (record { value = shared; signatures = (0, 0 ∷ []) ∷ forgeries })

abbrev phase_1_end : Outcome (CrusaderAgreementState × List MessageBody)
phase_1_end =
    finish_phase_1 plain (λ l. l) (handle_messages plain (new_state 0 11 4) (forged ∷ two)) 0

abbrev ended : CrusaderAgreementState × List MessageBody
ended = elim phase_1_end [ ok r ↦ r | _ ↦ (new_state 0 11 4, []) ]

ended_lem : phase_1_end ≡ ok (ended.0, ended.1)
unfolding finish_phase_1 handle_messages new_state handle_message ceil_log2 find_paths target
    mod_pow same_contribution multicast
ended_lem = refl

unverified_signatures_accepted_example :
    Memᴰ shared (finish_phase_2 (handle_messages plain ended.0 two))
unfolding ceil_log2
unverified_signatures_accepted_example =
    unverified_signatures_accepted plain 0 11 4 shared 0 (0 ∷ []) forgeries two two (λ l. l) 0
      ended.0 ended.1 refl (refl, (refl, (refl, (refl, (refl, tt))))) (omega arith) ended_lem
