-- ===== src/Agreement/Signers.antt =====
-- The signers that the table has stored for a value.
use mathlib.Core.List.{Memᴰ}
use pddm.Prelude.{
  ℕ, suc, ◌+◌, ◌≤◌, ◌≡◌, refl, sym, ap, ◌∙◌, ltb, leb, le→leb, ◌==◌, if◌then◌else◌, true,
  Bool-cases, ||-true, ||-true_right, inl, inr, List, [], ◌∷◌, map, length, contains, contains-head,
  All, arith,
}
use pddm.Messages.{ValueContribution}
use pddm.Messages.Body.{SignatureMap, SignedValue, same_contribution, same_contribution_iff}
use pddm.Agreement.{Table, insert_signature, insert_signatures, store, accept_values}

-- The signers of a map, and those stored for a value.
abbrev pub signers : SignatureMap → List ℕ
signers m = map (λ e. e.0) m

pub length-signers : (m : SignatureMap) → length (signers m) ≡ length m
length-signers [] = refl
length-signers (e ∷ m) = ap suc (length-signers m)

abbrev pub signers_of : Table → ValueContribution → List ℕ
signers_of [] v = []
signers_of ((key, stored) ∷ rest) v =
    if same_contribution key v then signers stored.signatures else signers_of rest v

insert_signature-new :
    (id : ℕ) (sig : List ℕ) (m : SignatureMap)
    → contains (signers (insert_signature id sig m)) id ≡ true
unfolding insert_signature
insert_signature-new id sig [] = contains-head id []
insert_signature-new id sig ((k, s) ∷ rest) =
    let later = insert_signature-new id sig rest in
    let here = contains-head id in
    elim (Bool-cases (id == k)) [
      | inl same ↦ rw same (ground arith)
      | inr other ↦ rw other (elim (Bool-cases (ltb id k)) [
        | inl before ↦ rw before (here (k ∷ signers rest))
        | inr after ↦ rw after (||-true_right (k == id) _ later)
      ])
    ]

insert_signature-old :
    (id z : ℕ) (sig : List ℕ) (m : SignatureMap)
    → contains (signers m) z ≡ true
    → contains (signers (insert_signature id sig m)) z ≡ true
unfolding insert_signature
insert_signature-old id z sig [] h = cc
insert_signature-old id z sig ((k, s) ∷ rest) h = elim (Bool-cases (id == k)) [
  | inl same ↦ rw same h
  | inr other ↦ rw other (elim (Bool-cases (ltb id k)) [
    | inl before ↦ rw before (||-true_right (id == z) _ h)
    | inr after ↦ rw after (elim (||-true (k == z) (contains (signers rest) z) h) [
      | inl here ↦ rw here refl
      | inr there ↦ ||-true_right (k == z) _ (insert_signature-old id z sig rest there)
    ])
  ])
]

insert_signatures-old :
    (z : ℕ) (extra m : SignatureMap)
    → contains (signers m) z ≡ true
    → contains (signers (insert_signatures extra m)) z ≡ true
unfolding insert_signatures
insert_signatures-old z [] m h = h
insert_signatures-old z ((id, sig) ∷ rest) m h =
    insert_signatures-old z rest (insert_signature id sig m) (insert_signature-old id z sig m h)

pub store-old :
    (z : ℕ) (v : ValueContribution) (signed : SignedValue) (extra : SignatureMap) (table : Table)
    → contains (signers_of table v) z ≡ true
    → contains (signers_of (store signed extra table) v) z ≡ true
unfolding store
store-old z v signed extra [] h = cc
store-old z v signed extra ((key, stored) ∷ rest) h =
    elim (Bool-cases (same_contribution key signed.value)) [
      | inl same ↦ rw same (elim (Bool-cases (same_contribution key v)) [
        | inl this ↦ rw this (insert_signatures-old z extra stored.signatures (rw this at h))
        | inr that ↦ rw that (rw that at h)
      ])
      | inr other ↦ rw other (elim (Bool-cases (same_contribution key v)) [
        | inl this ↦ rw this (rw this at h)
        | inr that ↦ rw that (store-old z v signed extra rest (rw that at h))
      ])
    ]

-- A signature stored with a value.
pub store-new :
    (id : ℕ) (sig : List ℕ) (v : ValueContribution) (table : Table)
    → contains
        (signers_of
          (store (record { value = v; signatures = (id, sig) ∷ [] }) ((id, sig) ∷ []) table)
          v)
        id
      ≡ true
unfolding store insert_signatures
store-new id sig v [] = rw ((same_contribution_iff v v).1 refl) (contains-head id [])
store-new id sig v ((key, stored) ∷ rest) = elim (Bool-cases (same_contribution key v)) [
  | inl same ↦ rw (same, same) (insert_signature-new id sig stored.signatures)
  | inr other ↦ rw (other, other) (store-new id sig v rest)
]

-- The table has each value under itself.
abbrev pub IsKeyed : Table → Type 0
IsKeyed table = All (λ e. e.0 ≡ e.1.value) table

pub store-IsKeyed :
    (signed : SignedValue) (extra : SignatureMap) (table : Table)
    → IsKeyed table
    → IsKeyed (store signed extra table)
unfolding store
store-IsKeyed signed extra [] h = (refl, tt)
store-IsKeyed signed extra ((key, stored) ∷ rest) h =
    elim (Bool-cases (same_contribution key signed.value)) [
      | inl same ↦ rw same h
      | inr other ↦ rw other (h.0, store-IsKeyed signed extra rest h.1)
    ]

pub accept_values-enough :
    (log2n : ℕ) (v : ValueContribution) (table : Table)
    → IsKeyed table
    → log2n + 1 ≤ length (signers_of table v)
    → Memᴰ v (accept_values log2n table)
unfolding accept_values
accept_values-enough log2n v [] keyed h = absurd (omega arith)
accept_values-enough log2n v ((key, signed) ∷ rest) keyed h =
    elim (Bool-cases (same_contribution key v)) [
      | inl same ↦
          let e : v ≡ signed.value = sym ((same_contribution_iff key v).0 same) ∙ keyed.0 in
          let many : log2n + 1 ≤ length signed.signatures =
            omega (arith, length-signers signed.signatures, (rw same at h)) in
          rw (le→leb _ _ many) (rw e (Memᴰ.head refl))
      | inr other ↦
          let later = accept_values-enough log2n v rest keyed.1 (rw other at h) in
          elim (Bool-cases (leb (log2n + 1) (length signed.signatures))) [
            | inl enough ↦ rw enough (Memᴰ.tail later)
            | inr few ↦ rw few later
          ]
    ]
