-- ===== src/Messages/Body.antt =====
-- The bodies of messages: messaging/MessageBody.h and its subclasses, and util/CryptoLibrary.h, whose
-- implementation (the cryptography) is a parameter.
use pddm.Prelude.{
  ℕ, Bool, true, false, ◌&&◌, List, ◌==◌, ◌≡◌, ◌↔◌, ==_iff, same_list, same_list_iff, refl, sym, ap,
  ◌∙◌,
}
use pddm.Messages.{ValueTuple, ValueContribution}

-- A std::map from meter ids to signatures: its entries in the order of the ids.
abbrev pub SignatureMap : Type 0
SignatureMap = List (ℕ × List ℕ)

pub record SignedValue : Type 0 where
  pub value : ValueContribution
  pub signatures : SignatureMap

pub record AgreementValue : Type 0 where
  pub signed_value : SignedValue
  pub accepter_id : ℕ
  pub accepter_signature : List ℕ

-- OverlayMessage and PathOverlayMessage have the query, the destination, the flags `is_encrypted` and
-- `flood`, and a body; the second has the remaining path too. `null` is a null pointer.
pub data MessageBody : Type 0 where
  null : MessageBody
  string_body : List ℕ → MessageBody
  value_contribution : ValueContribution → MessageBody
  signed_value : SignedValue → MessageBody
  agreement_value : AgreementValue → MessageBody
  overlay : ℕ → ℕ → Bool → Bool → MessageBody → MessageBody
  path_overlay : ℕ → ℕ → Bool → Bool → List ℕ → MessageBody → MessageBody

-- The cryptography that a meter calls. `sign` has the meter's own key.
pub record Crypto : Type 0 where
  pub rsa_encrypt : MessageBody → ℕ → MessageBody
  pub rsa_decrypt : MessageBody → MessageBody
  -- A ValueTuple encrypted for a meter, the signature in the utility's answer, and whether the
  -- utility, whose id is -1, has signed a ValueTuple.
  pub encrypt_value : ValueTuple → ℕ → List ℕ
  pub decrypt_signature : List ℕ → List ℕ
  pub verify_by_utility : ValueTuple → List ℕ → Bool
  pub sign_contribution : ValueContribution → List ℕ
  pub verify_contribution : ValueContribution → List ℕ → ℕ → Bool
  pub sign_signed : SignedValue → List ℕ
  pub verify_signed : SignedValue → List ℕ → ℕ → Bool

-- operator== of ValueContribution, through that of ValueTuple.
unfoldable pub same_contribution : ValueContribution → ValueContribution → Bool
same_contribution a b =
    a.value.query_num == b.value.query_num
    && same_list a.value.value b.value.value
    && same_list a.value.proxies b.value.proxies
    && same_list a.signature b.signature

all-true :
    (p q r s : Bool) → (p && q && r && s) ≡ true → (p ≡ true) × (q ≡ true) × (r ≡ true) × (s ≡ true)
all-true true true true s h = (refl, refl, refl, h)
all-true true true false s h = cc
all-true true false r s h = cc
all-true false q r s h = cc

contribution_of : ℕ → List ℕ → List ℕ → List ℕ → ValueContribution
contribution_of query value proxies signature = record {
  value = record { query_num = query; value = value; proxies = proxies };
  signature = signature;
}

contribution-equal :
    (a b : ValueContribution)
    → a.value.query_num ≡ b.value.query_num
    → a.value.value ≡ b.value.value
    → a.value.proxies ≡ b.value.proxies
    → a.signature ≡ b.signature
    → a ≡ b
unfolding contribution_of
contribution-equal a b e₁ e₂ e₃ e₄ i = contribution_of (e₁ i) (e₂ i) (e₃ i) (e₄ i)

same_contribution-equal : (a b : ValueContribution) → same_contribution a b ≡ true → a ≡ b
unfolding same_contribution
same_contribution-equal a b h =
    let (p, q, r, s) =
      all-true (a.value.query_num == b.value.query_num) (same_list a.value.value b.value.value)
        (same_list a.value.proxies b.value.proxies) (same_list a.signature b.signature) h in
    let e₁ = (==_iff a.value.query_num b.value.query_num).0 p in
    let e₂ = (same_list_iff a.value.value b.value.value).0 q in
    let e₃ = (same_list_iff a.value.proxies b.value.proxies).0 r in
    let e₄ = (same_list_iff a.signature b.signature).0 s in contribution-equal a b e₁ e₂ e₃ e₄

same_contribution_refl : (a : ValueContribution) → same_contribution a a ≡ true
unfolding same_contribution
same_contribution_refl a = rw (
  (==_iff a.value.query_num _).1 refl,
  (same_list_iff a.value.value _).1 refl,
  (same_list_iff a.value.proxies _).1 refl,
  (same_list_iff a.signature _).1 refl,
)

pub same_contribution_iff : (a b : ValueContribution) → (same_contribution a b ≡ true) ↔ (a ≡ b)
same_contribution_iff a b =
    (same_contribution-equal a b, λ e. ap (same_contribution a) (sym e) ∙ same_contribution_refl a)
