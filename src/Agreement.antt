-- ===== src/Agreement.antt =====
-- CrusaderAgreementState.h and .cpp: the two phases of Byzantine agreement on the proxy values.
--
-- The iteration order of the std::unordered_map is not specified: the list of its entries stands for it.
-- Ids of meters are natural numbers. A std::set of InfectedNode has the order `order`.
pub mod Maps
pub mod Signers
pub mod Enough
pub mod Trace
pub mod Vouched
use pddm.Prelude.{
  ℕ, zero, suc, ◌+◌, ◌-◌, ltb, leb, ◌==◌, if◌then◌else◌, Bool, true, false, not, Option, none, some,
  List, [], ◌∷◌, ◌++◌, length, replicate,
}
use pddm.Prelude.Log.{ceil_log2}
use pddm.Messages.{ValueContribution}
use pddm.Messages.Outcome.{Outcome, ok, ◌>>=◌}
use pddm.Messages.Body.{
  SignatureMap, SignedValue, AgreementValue, MessageBody, Crypto, same_contribution,
}
use pddm.Messages.Multicast.{multicast}
use pddm.PathFinder.Defs.{InfectedNode}

-- The map signed_proxy_values.
abbrev pub Table : Type 0
Table = List (ValueContribution × SignedValue)

pub record CrusaderAgreementState : Type 0 where
  pub node_id : ℕ
  pub num_nodes : ℕ
  pub log2n : ℕ
  pub query_num : ℕ
  pub phase_1_finished : Bool
  pub signed_proxy_values : Table

unfoldable pub new_state : ℕ → ℕ → ℕ → CrusaderAgreementState
new_state node_id num_nodes query_num = record {
  node_id = node_id;
  num_nodes = num_nodes;
  log2n = ceil_log2 num_nodes;
  query_num = query_num;
  phase_1_finished = false;
  signed_proxy_values = [];
}

-- std::map::insert: a key that is there keeps its signature.
unfoldable pub insert_signature : ℕ → List ℕ → SignatureMap → SignatureMap
insert_signature id sig [] = (id, sig) ∷ []
insert_signature id sig ((k, s) ∷ rest) =
    let later = insert_signature id sig rest in
    if id == k
    then (k, s) ∷ rest
    else if ltb id k
    then (id, sig) ∷ (k, s) ∷ rest
    else (k, s) ∷ later

-- std::map::insert of a range.
unfoldable pub insert_signatures : SignatureMap → SignatureMap → SignatureMap
unfolding insert_signature
insert_signatures [] signatures = signatures
insert_signatures ((id, sig) ∷ rest) signatures =
    insert_signatures rest (insert_signature id sig signatures)

-- What both phases do with a value at their end: the first signed value is stored as it came, for
-- another one its signatures `extra` are inserted.
unfoldable pub store : SignedValue → SignatureMap → Table → Table
unfolding insert_signatures
store signed extra [] = (signed.value, signed) ∷ []
store signed extra ((key, stored) ∷ rest) =
    let later = store signed extra rest in
    if same_contribution key signed.value
    then (key, record stored { signatures = insert_signatures extra stored.signatures }) ∷ rest
    else (key, stored) ∷ later

module _ (crypto : Crypto) where
  open crypto use {rsa_encrypt, sign_signed, verify_contribution, verify_signed}

  -- The loop over the signatures of phase 2: those that are left, and how many were found valid.
  unfoldable pub validate : ValueContribution → ℕ → SignatureMap → SignatureMap × ℕ
  validate value accepter [] = ([], 0)
  validate value accepter ((id, sig) ∷ rest) =
      let (kept, valid) = validate value accepter rest in
      if id == accepter
      then ((id, sig) ∷ kept, valid)
      else if verify_contribution value sig id
      then ((id, sig) ∷ kept, valid + 1)
      else (kept, valid)

  unfoldable pub handle_phase_1_message :
      CrusaderAgreementState → SignedValue → CrusaderAgreementState
  unfolding store
  handle_phase_1_message s signed_value = elim signed_value.signatures [
    | [] ↦ s
    | (id, sig) ∷ rest ↦
        if not (verify_contribution signed_value.value sig id) then s else record s {
          signed_proxy_values = store signed_value ((id, sig) ∷ []) s.signed_proxy_values;
        }
  ]

  unfoldable pub handle_phase_2_message :
      CrusaderAgreementState → AgreementValue → CrusaderAgreementState
  unfolding store validate
  handle_phase_2_message s agreement_value =
      let signed = agreement_value.signed_value in
      let (kept, valid) = validate signed.value agreement_value.accepter_id signed.signatures in
      if not (verify_signed signed agreement_value.accepter_signature agreement_value.accepter_id)
      then s
      else if leb s.log2n valid
      then record s {
        signed_proxy_values =
            store (record signed { signatures = kept }) kept s.signed_proxy_values;
      }
      else s

  -- The body of the overlay message decides.
  unfoldable pub handle_message : CrusaderAgreementState → MessageBody → CrusaderAgreementState
  unfolding handle_phase_1_message handle_phase_2_message
  handle_message s (MessageBody.signed_value v) = handle_phase_1_message s v
  handle_message s (MessageBody.agreement_value v) = handle_phase_2_message s v
  handle_message s _ = s

module _ (crypto : Crypto) (order : List InfectedNode → List InfectedNode)
    (s : CrusaderAgreementState) (current_round : ℕ) where
  -- What the loop of finish_phase_1 sends for a value that is accepted.
  unfoldable pub accept_messages : ValueContribution → SignedValue → Outcome (List MessageBody)
  accept_messages key signed =
      multicast crypto order s.query_num s.node_id s.num_nodes (current_round + 1) key.value.proxies
        (MessageBody.agreement_value (record {
          signed_value = signed;
          accepter_id = s.node_id;
          accepter_signature = crypto.sign_signed signed;
        }))

  unfoldable pub accept_all : Table → Outcome (List MessageBody)
  unfolding accept_messages
  accept_all [] = ok []
  accept_all ((key, signed) ∷ rest) =
      if ltb (length signed.signatures) (s.log2n + 1)
      then accept_all rest
      else (do first ← accept_messages key signed; later ← accept_all rest; ok (first ++ later))

  unfoldable pub finish_phase_1 : Outcome (CrusaderAgreementState × List MessageBody)
  unfolding accept_all
  finish_phase_1 = do
    messages ← accept_all s.signed_proxy_values
    ok (record s { phase_1_finished = true }, messages)

-- The loop of finish_phase_2.
unfoldable pub accept_values : ℕ → Table → List ValueContribution
accept_values log2n [] = []
accept_values log2n ((key, signed) ∷ rest) =
    let later = accept_values log2n rest in
    if leb (log2n + 1) (length signed.signatures) then signed.value ∷ later else later

unfoldable pub finish_phase_2 : CrusaderAgreementState → List ValueContribution
unfolding accept_values
finish_phase_2 s = accept_values s.log2n s.signed_proxy_values
