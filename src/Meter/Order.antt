-- ===== src/Meter/Order.antt =====
-- The messages that reach MeterClient.cpp early, late, and in their round.
use pddm.Prelude.{
  ℕ, ◌+◌, ltb, ◌==◌, ◌<◌, ◌≡◌, ◌⊎◌, inl, inr, refl, ap, ◌∙◌, arith, if◌then◌else◌, Bool, true,
  false, Bool-cases, ltb→lt, ==_iff, Option, none, some,
}
use pddm.Messages.Outcome.{Outcome, ok, undefined, ◌>>=◌}
use pddm.Overlay.Gossip.{target}
use pddm.Protocol.{
  Transport, Environment, ProtocolState, get_current_query_num, buffer_future_message,
}
use pddm.Protocol.Round
use pddm.Protocol.Round.{end_overlay_round, split_future, is_of_query}
use pddm.Meter.{
  MeterProtocol, MeterClient, is_above, is_below, query_num_of, on_primary, on_second_id,
  receive_overlay,
}
use pddm.Meter.Handlers.{handle_overlay_message}

-- The order in which a state goes through the queries and, in each, the rounds of the overlay.
-- `next_round` is the round that comes after the state's own.
abbrev pub IsLater : ℕ → ℕ → ℕ → ℕ → Type 0
IsLater query_num sender_round current next_round =
    (current < query_num) ⊎ ((query_num ≡ current) × (next_round < sender_round + 1))

abbrev pub IsPast : ℕ → ℕ → ℕ → ℕ → Type 0
IsPast query_num sender_round current next_round =
    (query_num < current) ⊎ ((query_num ≡ current) × (sender_round + 1 < next_round))

-- The tests of the handler, in their order.
abbrev chosen : {A : Type 0} → ℕ → ℕ → ℕ → ℕ → A → A → A → A
chosen query_num sender_round current next_round later past now =
    if ltb current query_num
    then later
    else if ltb query_num current
    then past
    else if sender_round + 1 == next_round
    then now
    else if ltb next_round (sender_round + 1)
    then later
    else past

position :
    (q r current next : ℕ)
    → IsLater q r current next ⊎ (IsPast q r current next ⊎ ((q ≡ current) × (r + 1 ≡ next)))
position q r current next = elim (Bool-cases (ltb current q)) [
  | inl newer ↦ inl (inl (ltb→lt current q newer))
  | inr not_newer ↦ elim (Bool-cases (ltb q current)) [
    | inl older ↦ inr (inl (inl (ltb→lt q current older)))
    | inr not_older ↦
        let same : q ≡ current = ground arith in
        elim (Bool-cases (ltb next (r + 1))) [
          | inl ahead ↦ inl (inr (same, ltb→lt next (r + 1) ahead))
          | inr not_ahead ↦ elim (Bool-cases (ltb (r + 1) next)) [
            | inl behind ↦ inr (inl (inr (same, ltb→lt (r + 1) next behind)))
            | inr not_behind ↦ inr (inr (same, ground arith))
          ]
        ]
  ]
]

module _ {A : Type 0} (q r current next : ℕ) (later past now : A) where
  chosen_later : IsLater q r current next → chosen q r current next later past now ≡ later
  chosen_later (inl newer) = let e : ltb current q ≡ true = ground arith in rw e refl
  chosen_later (inr (same, ahead)) =
      let e₁ : ltb current q ≡ false = ground arith in
      let e₂ : ltb q current ≡ false = ground arith in
      let e₃ : (r + 1 == next) ≡ false = ground arith in
      let e₄ : ltb next (r + 1) ≡ true = ground arith in rw (e₁, e₂, e₃, e₄) refl

  chosen_past : IsPast q r current next → chosen q r current next later past now ≡ past
  chosen_past (inl older) =
      let e₁ : ltb current q ≡ false = ground arith in
      let e₂ : ltb q current ≡ true = ground arith in rw (e₁, e₂) refl
  chosen_past (inr (same, behind)) =
      let e₁ : ltb current q ≡ false = ground arith in
      let e₂ : ltb q current ≡ false = ground arith in
      let e₃ : (r + 1 == next) ≡ false = ground arith in
      let e₄ : ltb next (r + 1) ≡ false = ground arith in rw (e₁, e₂, e₃, e₄) refl

  chosen_now : q ≡ current → r + 1 ≡ next → chosen q r current next later past now ≡ now
  chosen_now same here =
      let e₁ : ltb current q ≡ false = ground arith in
      let e₂ : ltb q current ≡ false = ground arith in
      let e₃ : (r + 1 == next) ≡ true = ground arith in rw (e₁, e₂, e₃) refl

module _ {Impl Engine : Type 0} (env : Environment) (protocol : MeterProtocol Impl Engine)
    (fuel : ℕ) (c : MeterClient Impl Engine) (m : Transport) (q current : ℕ) where
  -- A message to the meter's own id, of a query, while the primary state has a query.
  abbrev IsOurs : Type 0
  IsOurs =
      (target m.sender_id m.sender_round c.num_meters ≡ c.meter_id)
      × (query_num_of m.body ≡ some q)
      × (get_current_query_num c.primary_protocol_state ≡ some current)

  abbrev pub handled_now : Outcome (ProtocolState Impl)
  handled_now =
      Round.handle_overlay_message env protocol.sub (end_overlay_round env protocol.sub fuel)
        c.primary_protocol_state m

  abbrev by_number : ℕ → Option ℕ → Outcome (ProtocolState Impl)
  by_number query_num number =
      if is_above query_num number
      then ok (buffer_future_message c.primary_protocol_state m)
      else if is_below query_num number
      then ok c.primary_protocol_state
      else if m.sender_round + 1 == c.primary_protocol_state.next_round
      then handled_now
      else if ltb c.primary_protocol_state.next_round (m.sender_round + 1)
      then ok (buffer_future_message c.primary_protocol_state m)
      else ok c.primary_protocol_state

  received :
      IsOurs
      → receive_overlay env protocol fuel m c.primary_protocol_state
        ≡ chosen q m.sender_round current c.primary_protocol_state.next_round
            (ok (buffer_future_message c.primary_protocol_state m))
            (ok c.primary_protocol_state)
            handled_now
  unfolding receive_overlay
  received (here, body, mine) =
      ap
        (λ (query : Option ℕ). elim query [
          | none ↦ undefined
          | some query_num ↦ by_number query_num (get_current_query_num c.primary_protocol_state)
        ])
        body
      ∙ ap (by_number q) mine

  routed :
      IsOurs
      → handle_overlay_message env protocol fuel m c
        ≡ on_primary (receive_overlay env protocol fuel m) c
  unfolding handle_overlay_message
  routed (here, body, mine) =
      ap
        (λ (b : Bool). elim b [
          | true ↦ on_primary (receive_overlay env protocol fuel m) c
          | false ↦ elim (target m.sender_id m.sender_round c.num_meters == c.second_id) [
            | true ↦ on_second_id (receive_overlay env protocol fuel m) c
            | false ↦ ok c
          ]
        ])
        ((==_iff _ _).1 here)

  -- The client with another primary state.
  abbrev pub with_primary : ProtocolState Impl → Outcome (MeterClient Impl Engine)
  with_primary s = ok (record c { primary_protocol_state = s })

  by_order :
      IsOurs
      → handle_overlay_message env protocol fuel m c
        ≡ chosen q m.sender_round current c.primary_protocol_state.next_round
            (ok (buffer_future_message c.primary_protocol_state m))
            (ok c.primary_protocol_state)
            handled_now
          >>= with_primary
  by_order ours = routed ours ∙ ap (λ r. r >>= with_primary) (received ours)

  -- The message is for later, of the past, or for now.
  abbrev pub When : Type 0
  When =
      IsLater q m.sender_round current c.primary_protocol_state.next_round
      ⊎ (IsPast q m.sender_round current c.primary_protocol_state.next_round
          ⊎ ((q ≡ current) × (m.sender_round + 1 ≡ c.primary_protocol_state.next_round)))

  -- For a message to a meter's own id, of any query, while the meter has a query: if the message's
  -- query and round are later than those of the meter's protocol state, by the query first and the
  -- round in a query, the message is put at the end of the state's future messages and nothing else
  -- changes; if they are earlier, nothing changes; and if they are the state's own, then the message
  -- is handled. One of the three is the case.
  pub overlay_message_by_order :
      target m.sender_id m.sender_round c.num_meters ≡ c.meter_id
      → query_num_of m.body ≡ some q
      → get_current_query_num c.primary_protocol_state ≡ some current
      → When
        × ((when : When)
            → handle_overlay_message env protocol fuel m c ≡ elim when [
              | inl later ↦ with_primary (buffer_future_message c.primary_protocol_state m)
              | inr (inl past) ↦ ok c
              | inr (inr now) ↦ handled_now >>= with_primary
            ])
  overlay_message_by_order here body mine = (
    position q m.sender_round current c.primary_protocol_state.next_round,
    by_time (by_order (here, body, mine)),
  )
    where
      next : ℕ
      next = c.primary_protocol_state.next_round

      by_time :
          handle_overlay_message env protocol fuel m c
            ≡ chosen q m.sender_round current next
                (ok (buffer_future_message c.primary_protocol_state m))
                (ok c.primary_protocol_state)
                handled_now
              >>= with_primary
          → (when : When)
          → handle_overlay_message env protocol fuel m c ≡ elim when [
            | inl later ↦ with_primary (buffer_future_message c.primary_protocol_state m)
            | inr (inl past) ↦ ok c
            | inr (inr now) ↦ handled_now >>= with_primary
          ]
      by_time e (inl later) =
          e ∙ ap (λ r. r >>= with_primary) (chosen_later q m.sender_round current next _ _ _ later)
      by_time e (inr (inl past)) =
          e ∙ ap (λ r. r >>= with_primary) (chosen_past q m.sender_round current next _ _ _ past)
      by_time e (inr (inr (same, now))) =
          e ∙ ap (λ r. r >>= with_primary) (chosen_now q m.sender_round current next _ _ _ same now)
