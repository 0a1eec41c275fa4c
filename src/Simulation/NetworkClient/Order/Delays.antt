-- ===== src/Simulation/NetworkClient/Order/Delays.antt =====
-- The queue of a SimNetworkClient, and the event that resumes it, over a delay.
use pddm.Prelude.{
  ℕ, ◌+◌, ◌/◌, ◌%◌, ltb, ==_iff, ◌≤◌, ◌≡◌, refl, ap, ◌∙◌, arith, if◌then◌else◌, Bool, true, false,
  Bool-cases, inl, inr, Option, none, some, List, [], ◌∷◌,
}
use pddm.Simulation.Network.{Network}
use pddm.Simulation.NetworkClient.{
  Setting, State, Submission, without, submit_resume, cancel_resume, with_delay, delay_client,
  count_sent,
}
use pddm.Simulation.NetworkClient.Order.{WaitsAs, Waits, Kept}

module _ (setting : Setting) where
  open setting use {Message}

  submitted-Waits :
      (until : ℕ) (w : State setting)
      → w.resume_events ≡ []
      → w.client.client_is_busy ≡ true
      → w.client.accumulated_delay_micros ≤ 1000
      → Waits setting (submit_resume setting until w)
  submitted-Waits until w none_yet busy few = rw (busy, none_yet) ((w.next_event, refl, refl), few)

  -- Cancelled by the pointer to it, the one event is gone.
  without-one : (event until : ℕ) → without event ((event, until) ∷ []) ≡ []
  without-one event until = rw ((==_iff event event).1 refl) refl

  delay_client-Waits :
      (micros : ℕ) (w : State setting)
      → Waits setting w
      → Waits setting (delay_client setting micros w)
  unfolding delay_client
  delay_client-Waits micros w (waits, few) = elim (Bool-cases (ltb 1000 total)) [
    | inr little ↦ rw little (waits, ground arith)
    | inl much ↦ rw much (go w.client.client_is_busy refl)
  ]
    where
      total : ℕ
      total = w.client.accumulated_delay_micros + micros

      w₁ : State setting
      w₁ = with_delay setting (total % 1000) w

      left_over : total % 1000 ≤ 1000
      left_over = omega arith

      go :
          (b : Bool)
          → w.client.client_is_busy ≡ b
          → Waits setting (
              if b
              then submit_resume setting
                  (w.client.busy_until_time + total / 1000)
                  (cancel_resume setting w.client.busy_done_event w₁)
              else submit_resume setting
                  (w.current_time + total / 1000)
                  (record w₁ { client = record w₁.client { client_is_busy = true } }))
      go true busy =
          let (event, points, events) : WaitsAs true w.client.busy_until_time
              w.client.busy_done_event w.resume_events =
            rw busy at waits in
          rw points (
            submitted-Waits _ (cancel_resume setting (some event) w₁)
              (ap (without event) events ∙ without-one event w.client.busy_until_time) busy
              left_over)
      go false idle =
          let events : w.resume_events ≡ [] = rw idle at waits in
          submitted-Waits _ (record w₁ { client = record w₁.client { client_is_busy = true } })
            events refl left_over

  -- The messages handled and those in the queue are those of another state.
  abbrev Same : State setting → State setting → Type 0
  Same w w' =
      (w'.handled ≡ w.handled)
      × (w'.client.incoming_message_queue ≡ w.client.incoming_message_queue)

  cancel-Same : (event : Option ℕ) (w : State setting) → Same w (cancel_resume setting event w)
  cancel-Same none w = (refl, refl)
  cancel-Same (some event) w = (refl, refl)

  delay-Same : (micros : ℕ) (w : State setting) → Same w (delay_client setting micros w)
  unfolding delay_client
  delay-Same micros w = elim (Bool-cases (ltb 1000 total)) [
    | inr little ↦ rw little (refl, refl)
    | inl much ↦ rw much (go w.client.client_is_busy)
  ]
    where
      total : ℕ
      total = w.client.accumulated_delay_micros + micros

      w₁ : State setting
      w₁ = with_delay setting (total % 1000) w

      go :
          (b : Bool)
          → Same w (
              if b
              then submit_resume setting
                  (w.client.busy_until_time + total / 1000)
                  (cancel_resume setting w.client.busy_done_event w₁)
              else submit_resume setting
                  (w.current_time + total / 1000)
                  (record w₁ { client = record w₁.client { client_is_busy = true } }))
      go true = cancel-Same w.client.busy_done_event w₁
      go false = (refl, refl)

  -- A property that every change which a call makes leaves true.
  pub record IsStable (P : State setting → Type 0) : Type 0 where
    pub delays : (micros : ℕ) (w : State setting) → P w → P (delay_client setting micros w)
    pub networks :
        (network : Network setting.NetworkClient setting.latency.Engine) (w : State setting)
        → P w
        → P (record w { network = network })
    pub submits :
        (submission : Submission Message) (w : State setting)
        → P w
        → P (record w { submitted = submission ∷ w.submitted })
    pub counts : (n : ℕ) (w : State setting) → P w → P (count_sent setting n w)

  pub Kept-IsStable : (handled queue : List Message) → IsStable (Kept setting handled queue)
  Kept-IsStable handled queue = record {
    delays = λ micros w (h, q, waits).
        let (h', q') = delay-Same micros w in (h' ∙ h, q' ∙ q, delay_client-Waits micros w waits);
    networks = λ network w h. h;
    submits = λ submission w h. h;
    counts = λ n w h. h;
  }

  -- A delay leaves a busy client busy.
  abbrev IsBusy : State setting → Type 0
  IsBusy w = w.client.client_is_busy ≡ true

  cancel-IsBusy :
      (event : Option ℕ) (w : State setting) → IsBusy w → IsBusy (cancel_resume setting event w)
  cancel-IsBusy none w busy = busy
  cancel-IsBusy (some event) w busy = busy

  delay_client-IsBusy :
      (micros : ℕ) (w : State setting) → IsBusy w → IsBusy (delay_client setting micros w)
  unfolding delay_client
  delay_client-IsBusy micros w busy = elim (Bool-cases (ltb 1000 total)) [
    | inr little ↦ rw little busy
    | inl much ↦ rw much (go w.client.client_is_busy)
  ]
    where
      total : ℕ
      total = w.client.accumulated_delay_micros + micros

      w₁ : State setting
      w₁ = with_delay setting (total % 1000) w

      go :
          (b : Bool)
          → IsBusy (
              if b
              then submit_resume setting
                  (w.client.busy_until_time + total / 1000)
                  (cancel_resume setting w.client.busy_done_event w₁)
              else submit_resume setting
                  (w.current_time + total / 1000)
                  (record w₁ { client = record w₁.client { client_is_busy = true } }))
      go true = cancel-IsBusy w.client.busy_done_event w₁ busy
      go false = refl

  pub busy-IsStable :
      (handled queue : List Message)
      → IsStable (λ w. Kept setting handled queue w × (w.client.client_is_busy ≡ true))
  busy-IsStable handled queue =
      let kept = Kept-IsStable handled queue in
      record {
        delays = λ micros w (h, busy). (kept.delays micros w h, delay_client-IsBusy micros w busy);
        networks = λ network w h. h;
        submits = λ submission w h. h;
        counts = λ n w h. h;
      }
