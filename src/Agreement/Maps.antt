-- ===== src/Agreement/Maps.antt =====
-- Insertions into the maps of signatures and of values.
use pddm.Prelude.{
  ℕ, ◌<◌, ◌≡◌, sym, ◌∙◌, ltb, ltb→lt, ◌==◌, Bool-cases, inl, inr, List, [], ◌∷◌, All, All-imp,
  arith,
}
use pddm.Messages.{ValueContribution}
use pddm.Messages.Body.{SignatureMap, SignedValue, same_contribution, same_contribution_iff}
use pddm.Agreement.{Table, insert_signature, insert_signatures, store}

-- The ids of a std::map, in order and so distinct.
abbrev pub Increasing : SignatureMap → Type 0
Increasing [] = Unit {0}
Increasing ((id, sig) ∷ rest) = All (λ e. id < e.0) rest × Increasing rest

module _ (P : ℕ × List ℕ → Type 0) where
  pub insert_signature-All :
      (id : ℕ) (sig : List ℕ) (m : SignatureMap)
      → P (id, sig)
      → All P m
      → All P (insert_signature id sig m)
  unfolding insert_signature
  insert_signature-All id sig [] p h = (p, tt)
  insert_signature-All id sig ((k, s) ∷ rest) p h =
      let later = insert_signature-All id sig rest p h.1 in
      elim (Bool-cases (id == k)) [
        | inl same ↦ rw same h
        | inr other ↦ rw other (elim (Bool-cases (ltb id k)) [
          | inl before ↦ rw before (p, h)
          | inr after ↦ rw after (h.0, later)
        ])
      ]

  pub insert_signatures-All :
      (extra m : SignatureMap) → All P extra → All P m → All P (insert_signatures extra m)
  unfolding insert_signatures
  insert_signatures-All [] m p h = h
  insert_signatures-All ((id, sig) ∷ rest) m p h =
      insert_signatures-All rest (insert_signature id sig m) p.1
        (insert_signature-All id sig m p.0 h)

insert_signature-Increasing :
    (id : ℕ) (sig : List ℕ) (m : SignatureMap)
    → Increasing m
    → Increasing (insert_signature id sig m)
unfolding insert_signature
insert_signature-Increasing id sig [] h = (tt, tt)
insert_signature-Increasing id sig ((k, s) ∷ rest) h =
    let later = insert_signature-Increasing id sig rest h.1 in
    elim (Bool-cases (id == k)) [
      | inl same ↦ rw same h
      | inr other ↦ rw other (elim (Bool-cases (ltb id k)) [
        | inl before ↦
            let less : id < k = ltb→lt id k before in
            rw before
              ((less, All-imp (λ e. k < e.0) (λ e. id < e.0) rest (λ e b. omega arith) h.0), h)
        | inr after ↦
            let more : k < id = ground arith in
            rw after (insert_signature-All (λ e. k < e.0) id sig rest more h.0, later)
      ])
    ]

pub insert_signatures-Increasing :
    (extra m : SignatureMap) → Increasing m → Increasing (insert_signatures extra m)
unfolding insert_signatures
insert_signatures-Increasing [] m h = h
insert_signatures-Increasing ((id, sig) ∷ rest) m h =
    insert_signatures-Increasing rest (insert_signature id sig m)
      (insert_signature-Increasing id sig m h)

-- An entry whose signatures are those of a map, of its own value, and all have the property V.
pub record IsEntry (V : ValueContribution → ℕ × List ℕ → Type 0)
    (entry : ValueContribution × SignedValue) : Type 0 where
  pub key : entry.0 ≡ entry.1.value
  pub increasing : Increasing entry.1.signatures
  pub valid : All (V entry.1.value) entry.1.signatures

pub store-IsEntry :
    (V : ValueContribution → ℕ × List ℕ → Type 0) (signed : SignedValue) (extra : SignatureMap)
    (table : Table)
    → IsEntry V (signed.value, signed)
    → All (V signed.value) extra
    → All (IsEntry V) table
    → All (IsEntry V) (store signed extra table)
unfolding store
store-IsEntry V signed extra [] e x h = (e, tt)
store-IsEntry V signed extra ((key, stored) ∷ rest) e x h =
    let later = store-IsEntry V signed extra rest e x h.1 in
    elim (Bool-cases (same_contribution key signed.value)) [
      | inl same ↦
          let equal : signed.value ≡ stored.value =
            sym ((same_contribution_iff key signed.value).0 same) ∙ h.0.key in
          let x' : All (V stored.value) extra = rw equal at x in
          rw same (
            record {
              key = h.0.key;
              increasing = insert_signatures-Increasing extra stored.signatures h.0.increasing;
              valid = insert_signatures-All (V stored.value) extra stored.signatures x' h.0.valid;
            },
            h.1,
          )
      | inr other ↦ rw other (h.0, later)
    ]
