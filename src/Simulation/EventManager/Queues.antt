-- ===== src/Simulation/EventManager/Queues.antt =====
-- What the two queues of EventManager.cpp hold after each operation.
use mathlib.Core.List.Permᴰ
use mathlib.Core.List.{Permᴰ}
use mathlib.Core.Path.{subst}
use pddm.Prelude.{
  ℕ, zero, suc, ◌≤◌, ◌<◌, ◌≡◌, refl, ◌⊎◌, inl, inr, arith, if◌then◌else◌, Bool, true, false,
  Bool-cases, Option, none, some, List, [], ◌∷◌, ◌++◌, length, All, All-imp, ◌==◌,
}
use pddm.Simulation.Event.{Event, is_before, is_at_most, cancel}
use pddm.Simulation.Queue.{PriorityQueue, All-perm, length-perm}
use pddm.Simulation.EventManager.{collect, choose, cancel_in}

module _ {A : Type 0} where
  -- The events that are not cancelled.
  abbrev pub live_in : List (Event A) → List (Event A)
  live_in [] = []
  live_in (e ∷ q) = if e.cancelled then live_in q else e ∷ live_in q

  -- An event in front, if it is not cancelled.
  abbrev pub put_live : Bool → Event A → List (Event A) → List (Event A)
  put_live cancelled e q = if cancelled then q else e ∷ q

  pub put_live-perm :
      (b : Bool) (e : Event A) {p q : List (Event A)}
      → Permᴰ p q
      → Permᴰ (put_live b e p) (put_live b e q)
  put_live-perm true e p = p
  put_live-perm false e p = Permᴰ.cons refl p

  pub put_live-swap :
      (b c : Bool) (d e : Event A) (q : List (Event A))
      → Permᴰ (put_live b d (put_live c e q)) (put_live c e (put_live b d q))
  put_live-swap true c d e q = Permᴰ.refl _
  put_live-swap false true d e q = Permᴰ.refl _
  put_live-swap false false d e q = Permᴰ.swap refl refl

  pub put_live-append :
      (b : Bool) (e : Event A) (p q : List (Event A))
      → Permᴰ (put_live b e p ++ q) (p ++ put_live b e q)
  put_live-append true e p q = Permᴰ.refl _
  put_live-append false e p q = Permᴰ.symm (Permᴰ.middle e p q)

  pub put_live-append_left :
      (b : Bool) (e : Event A) (p q : List (Event A))
      → Permᴰ (put_live b e (p ++ q)) (put_live b e p ++ q)
  put_live-append_left true e p q = Permᴰ.refl _
  put_live-append_left false e p q = Permᴰ.refl _

  pub live_in-All : (P : Event A → Type 0) (q : List (Event A)) → All P q → All P (live_in q)
  live_in-All P [] h = tt
  live_in-All P (e ∷ q) h = go e.cancelled (live_in-All P q h.1)
    where
      go : (b : Bool) → All P (live_in q) → All P (put_live b e (live_in q))
      go true k = k
      go false k = (h.0, k)

  pub live_in-perm : {p q : List (Event A)} → Permᴰ p q → Permᴰ (live_in p) (live_in q)
  live_in-perm Permᴰ.nil = Permᴰ.nil
  live_in-perm (Permᴰ.cons {a = a} {b = b} e p) =
      rw (← e) (put_live-perm a.cancelled a (live_in-perm p))
  live_in-perm (Permᴰ.swap {a = a} {b = b} {l = l} e d) =
      rw (← e, ← d) (put_live-swap a.cancelled b.cancelled a b (live_in l))
  live_in-perm (Permᴰ.trans p q) = Permᴰ.trans (live_in-perm p) (live_in-perm q)

  abbrev pub IsLeast : Event A → List (Event A) → Type 0
  IsLeast e = All (λ x. e.fire_time ≤ x.fire_time)

  -- The next event is at least as early as all events, and one of the queues loses it.
  abbrev pub Chosen :
      List (Event A) → List (Event A) → Option (Event A × List (Event A) × List (Event A)) → Type 0
  Chosen es ts none = (es ≡ []) × (ts ≡ [])
  Chosen es ts (some (next, es', ts')) =
      IsLeast next es
      × IsLeast next ts
      × ((Permᴰ (next ∷ es') es × (ts' ≡ ts)) ⊎ (Permᴰ (next ∷ ts') ts × (es' ≡ es)))

module _ {A : Type 0} (pq : PriorityQueue A) where
  open pq use {push, pop, push-perm, pop-perm, pop_least}

  pub choose-Chosen : (es ts : List (Event A)) → Chosen es ts (choose pq es ts)
  unfolding choose
  choose-Chosen [] [] = (refl, refl)
  choose-Chosen (e ∷ es) [] = (pop_least e es, tt, inl (pop-perm e es, refl))
  choose-Chosen [] (t ∷ ts) = (tt, pop_least t ts, inr (pop-perm t ts, refl))
  choose-Chosen (e ∷ es) (t ∷ ts) =
      let event = (pop e es).0 in
      let timeout = (pop t ts).0 in
      elim (Bool-cases (is_before timeout event)) [
        | inl before ↦
            let lt : timeout.fire_time < event.fire_time = ground arith in
            rw before (
              All-imp _ _ (e ∷ es) (λ x h. omega arith) (pop_least e es),
              pop_least t ts,
              inr (pop-perm t ts, refl),
            )
        | inr not_before ↦
            let le : event.fire_time ≤ timeout.fire_time = ground arith in
            let at_most : is_at_most event timeout ≡ true = ground arith in
            rw (not_before, at_most)
              (
                pop_least e es,
                All-imp _ _ (t ∷ ts) (λ x h. omega arith) (pop_least t ts),
                inl (pop-perm e es, refl),
              )
      ]

  module _ (P : Event A → Type 0) where
    pub push-All : (e : Event A) (q : List (Event A)) → P e → All P q → All P (push e q)
    push-All e q p h = All-perm P (Permᴰ.symm (push-perm e q)) (p, h)

    pub pop-All :
        (e : Event A) (q : List (Event A)) → All P (e ∷ q) → P (pop e q).0 × All P (pop e q).1
    pop-All e q h = All-perm P (Permᴰ.symm (pop-perm e q)) h

    pub collect-All :
        (n : ℕ) (q filtered : List (Event A))
        → All P q
        → All P filtered
        → All P (collect pq n q filtered)
    unfolding collect
    collect-All zero q filtered h k = k
    collect-All (suc n) [] filtered h k = k
    collect-All (suc n) (e ∷ q) filtered h k =
        let (p, rest) = pop-All e q h in
        collect-All n (pop e q).1 _ rest (kept (pop e q).0.cancelled p)
      where
        kept :
            (b : Bool) → P (pop e q).0 → All P (if b then filtered else push (pop e q).0 filtered)
        kept true p = k
        kept false p = push-All (pop e q).0 filtered p k

    pub cancel_in-All :
        ((e : Event A) → P e → P (cancel e))
        → (id : ℕ) (q : List (Event A)) → All P q
        → All P (cancel_in id q)
    unfolding cancel_in
    cancel_in-All closed id [] h = tt
    cancel_in-All closed id (e ∷ q) h = (one (e.id == id), cancel_in-All closed id q h.1)
      where
        one : (b : Bool) → P (if b then cancel e else e)
        one true = closed e h.0
        one false = h.0

  -- The collection of garbage loses only events that are cancelled.
  pub collect_live :
      (n : ℕ) (q filtered : List (Event A))
      → length q ≤ n
      → Permᴰ (live_in q ++ live_in filtered) (live_in (collect pq n q filtered))
  unfolding collect
  collect_live zero [] filtered h = Permᴰ.refl _
  collect_live zero (e ∷ q) filtered h = absurd (omega arith)
  collect_live (suc n) [] filtered h = Permᴰ.refl _
  collect_live (suc n) (e ∷ q) filtered h =
      let rest = (pop e q).1 in
      let shorter : length rest ≤ n = omega (arith, length-perm (pop-perm e q)) in
      Permᴰ.trans (Permᴰ.append_right (live_in filtered) (live_in-perm (Permᴰ.symm (pop-perm e q))))
        (Permᴰ.trans (put_live-append top.cancelled top (live_in rest) (live_in filtered)) (
          Permᴰ.trans (Permᴰ.append_left (live_in rest) (kept top.cancelled refl))
            (collect_live n rest _ shorter)))
    where
      top : Event A
      top = (pop e q).0

      kept :
          (b : Bool)
          → top.cancelled ≡ b
          → Permᴰ
              (put_live b top (live_in filtered))
              (live_in (if b then filtered else push top filtered))
      kept true c = Permᴰ.refl _
      kept false c =
          subst (λ b. Permᴰ (put_live b top (live_in filtered)) (live_in (push top filtered))) c
            (live_in-perm (Permᴰ.symm (push-perm top filtered)))
