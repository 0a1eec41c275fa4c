-- ===== src/Simulation/Network/Setup/Finish.antt =====
-- The end of the set-up of simulation/Network.cpp.
use pddm.Prelude.{
  ℕ, zero, suc, ◌+◌, ◌==◌, ==_iff, ◌<◌, ◌≡◌, refl, sym, ap, ◌∙◌, arith, Bool-cases, inl, inr, none,
  some, List, [], ◌∷◌, All, length, get_elem?,
}
use pddm.Messages.Outcome.{Outcome, ok, ◌>>=◌}
use pddm.Simulation.Network.{Network, client_at, clients_from, last_id, connect_meter, finish_setup}
use pddm.Simulation.Network.Setup.{
  first_of, emplace_all, IsMap, first_of-emplace_all, emplace_all-IsMap, emplace_all-below,
}

module _ {A : Type 0} where
  at-first_of :
      (id : ℕ) (a : A) (map : List (ℕ × A)) → first_of id map ≡ some a → client_at id map ≡ ok a
  unfolding client_at
  at-first_of id a [] e = cc
  at-first_of id a ((key, b) ∷ rest) e = elim (Bool-cases (key == id)) [
    | inl found ↦
        let e' : some b ≡ some a = rw found at e in let same : b ≡ a = cc in rw (found, same) refl
    | inr not_found ↦
        let e' : first_of id rest ≡ some a = rw not_found at e in
        rw not_found (at-first_of id a rest e')
  ]

  -- Every id from `id` on has a client.
  abbrev AreThere : ℕ → ℕ → List (ℕ × A) → Type 0
  AreThere count id map = (k : ℕ) → k < count → (a : A) × (first_of (id + k) map ≡ some a)

  elems-cons :
      (count id : ℕ) (map : List (ℕ × A)) (a : A) (rest : List A)
      → first_of id map ≡ some a
      → ((k : ℕ) → k < count → get_elem? rest k ≡ first_of (id + 1 + k) map)
      → (k : ℕ) → k < suc count
      → get_elem? (a ∷ rest) k ≡ first_of (id + k) map
  elems-cons count id map a rest here later zero lt =
      let same : id ≡ id + 0 = omega arith in sym here ∙ ap (λ i. first_of i map) same
  elems-cons count id map a rest here later (suc k) lt =
      let same : id + 1 + k ≡ id + suc k = omega arith in
      later k (omega arith) ∙ ap (λ i. first_of i map) same

  clients-from :
      (count id : ℕ) (map : List (ℕ × A))
      → AreThere count id map
      → (clients : List A) × (clients_from count id map ≡ ok clients)
        × (length clients ≡ count)
        × ((k : ℕ) → k < count → get_elem? clients k ≡ first_of (id + k) map)
  unfolding clients_from
  clients-from zero id map there =
      ([], refl, refl, λ k lt. let absurd : ⊥ = omega arith in elim absurd [ ])
  clients-from (suc count) id map there =
      let (a, e) = there 0 (omega arith) in
      let start : id ≡ id + 0 = omega arith in
      let here : first_of id map ≡ some a = ap (λ i. first_of i map) start ∙ e in
      let later : AreThere count (id + 1) map = λ k lt.
        let (a', e') = there (suc k) (omega arith) in
        let same : id + 1 + k ≡ id + suc k = omega arith in
        (a', ap (λ i. first_of i map) same ∙ e') in
      let (rest, ran, len, elems) = clients-from count (id + 1) map later in
      (
        a ∷ rest,
        rw (at-first_of id a map here, ran) refl,
        ap suc len,
        elems-cons count id map a rest here elems,
      )

  last_id-greatest :
      (low last : ℕ) (entry : ℕ × A) (rest : List (ℕ × A)) (a : A)
      → IsMap low (entry ∷ rest)
      → All (λ e. e.0 < last + 1) (entry ∷ rest)
      → first_of last (entry ∷ rest) ≡ some a
      → last_id entry rest ≡ last
  unfolding last_id
  last_id-greatest low last (key, b) [] a sorted below e = elim (Bool-cases (key == last)) [
    | inl found ↦ (==_iff key last).0 found
    | inr not_found ↦ let e' : none ≡ some a = rw not_found at e in cc
  ]
  last_id-greatest low last (key, b) ((key', b') ∷ rest) a (le, (le', sorted)) (lt, (lt', below))
        e =
      elim (Bool-cases (key == last)) [
        | inl found ↦ let absurd : ⊥ = ground arith in elim absurd [ ]
        | inr not_found ↦
            last_id-greatest (key + 1) last (key', b') rest a (le', sorted) (lt', below)
              (rw not_found at e)
      ]

module _ {Client Engine : Type 0} where
  -- Meters connected one after another.
  abbrev pub connect_all : List (ℕ × Client) → Network Client Engine → Network Client Engine
  connect_all [] network = network
  connect_all ((id, client) ∷ rest) network = connect_all rest (connect_meter client id network)

  connected :
      (entries : List (ℕ × Client)) (network : Network Client Engine)
      → ((connect_all entries network).meter_clients_setup
          ≡ emplace_all entries network.meter_clients_setup)
        × ((connect_all entries network).meter_clients ≡ network.meter_clients)
  unfolding connect_meter
  connected [] network = (refl, refl)
  connected ((id, client) ∷ rest) network = connected rest (connect_meter client id network)

  finished :
      (entries map : List (ℕ × Client)) (last : ℕ) (network : Network Client Engine)
      → network.meter_clients ≡ []
      → network.meter_clients_setup ≡ map
      → IsMap 0 map
      → All (λ e. e.0 < last + 1) map
      → ((id : ℕ) → id < last + 1 → (client : Client) × (first_of id map ≡ some client))
      → (clients : List Client) × (finish_setup network
          ≡ ok (record network { meter_clients = clients; meter_clients_setup = [] }))
        × (length clients ≡ last + 1)
        × ((id : ℕ) → id < last + 1 → get_elem? clients id ≡ first_of id map)
  unfolding finish_setup
  finished entries [] last network new setup sorted below there =
      let (client, e) = there 0 (omega arith) in let absurd : ⊥ = cc in elim absurd [ ]
  finished entries (entry ∷ rest) last network new setup sorted below there =
      let (client, e) = there last (omega arith) in
      let greatest = last_id-greatest 0 last entry rest client sorted below e in
      let (clients, ran, len, elems) = clients-from (last + 1) 0 (entry ∷ rest) (λ k lt.
        let (client', e') = there k lt in
        let same : 0 + k ≡ k = omega arith in
        (client', ap (λ i. first_of i (entry ∷ rest)) same ∙ e')) in
      (
        clients,
        ap (λ before. by_maps before network.meter_clients_setup) new
            ∙ ap (by_maps []) setup
            ∙ ap (λ id. clients_from (id + 1) 0 (entry ∷ rest) >>= done) greatest
            ∙ ap (λ r. r >>= done) ran,
        len,
        λ id lt.
            let same : 0 + id ≡ id = omega arith in
            elems id lt ∙ ap (λ i. first_of i (entry ∷ rest)) same,
      )
    where
      done : List Client → Outcome (Network Client Engine)
      done clients = ok (record network { meter_clients = clients; meter_clients_setup = [] })

      by_maps : List Client → List (ℕ × Client) → Outcome (Network Client Engine)
      by_maps before setup = elim before [
        | client ∷ rest ↦ Outcome.setup_twice
        | [] ↦ elim setup [
          | [] ↦ Outcome.no_meters
          | entry ∷ rest ↦ clients_from (last_id entry rest + 1) 0 (entry ∷ rest) >>= done
        ]
      ]

  -- From a network without meters, if meters are connected in any order whose ids are, for some last
  -- id, exactly those from 0 to it, and an id may be connected more than once: `finish_setup` returns,
  -- there is one client for each id, and the client with an id is the one that was first connected to
  -- it.
  pub finish_setup_by_id :
      (entries : List (ℕ × Client)) (last : ℕ) (network : Network Client Engine)
      → network.meter_clients ≡ []
      → network.meter_clients_setup ≡ []
      → All (λ e. e.0 < last + 1) entries
      → ((id : ℕ) → id < last + 1 → (client : Client) × (first_of id entries ≡ some client))
      → (set_up : Network Client Engine) × (finish_setup (connect_all entries network) ≡ ok set_up)
        × (length set_up.meter_clients ≡ last + 1)
        × ((id : ℕ) → id < last + 1 → get_elem? set_up.meter_clients id ≡ first_of id entries)
  finish_setup_by_id entries last network new setup below there =
      let (maps, clients) = connected entries network in
      let map = emplace_all entries [] in
      let first = λ (id : ℕ). first_of-emplace_all id entries [] tt in
      let (found, ran, len, elems) =
        finished entries map last (connect_all entries network) (clients ∙ new)
          (maps ∙ ap (emplace_all entries) setup) (emplace_all-IsMap entries [] tt)
          (emplace_all-below (last + 1) entries [] below tt)
          (λ id lt. let (client, e) = there id lt in (client, first id ∙ e)) in
      (_, ran, len, λ id lt. elems id lt ∙ first id)
