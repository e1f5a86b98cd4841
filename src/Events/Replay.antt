-- ===== src/Events/Replay.antt =====
-- The replay buffer of the event bus of src/sp_rtk_base_relay/core/events.py.
use sp_rtk_base_relay.Prelude.{
  ℕ, zero, suc, ◌+◌, ◌-◌, ◌≤◌, ◌<◌, ◌≡◌, refl, ◌∙◌, sym, ap, inl, inr, List, [], ◌∷◌, ◌++◌, length,
  length-append, length-drop, drop, drop-append, append_assoc, append-nil, arith, Bool-cases, leb,
  min,
}
use sp_rtk_base_relay.Events.{
  RelayEvent, EventBus, new_bus, ring_append, emit, last_slice, get_recent,
}

-- The last n items.
pub last {ℓ} : {A : Type ℓ} → ℕ → List A → List A
last n xs = drop (length xs - n) xs

-- How many events get_recent asks the replay buffer for.
pub asked_for : ℕ → ℕ → ℕ
asked_for zero ring_buffer_size = ring_buffer_size
asked_for (suc n) ring_buffer_size = min (suc n) ring_buffer_size

module _ {ℓ} {A : Type ℓ} where
  nothing : List A
  nothing = []

  drop-nil : (k : ℕ) → drop {A = A} k [] ≡ []
  drop-nil zero = refl
  drop-nil (suc k) = refl

  drop-drop : (m n k : ℕ) (xs : List A) → k ≡ n + m → drop m (drop n xs) ≡ drop k xs
  drop-drop m zero k xs h = ap (λ j. drop j xs) (omega arith)
  drop-drop m (suc n) k [] h = drop-nil m ∙ sym (drop-nil k)
  drop-drop m (suc n) zero (x ∷ xs) h = absurd (omega arith)
  drop-drop m (suc n) (suc k) (x ∷ xs) h = drop-drop m n k xs (omega arith)

  last-last : (m n : ℕ) (xs : List A) → last m (last n xs) ≡ last (min m n) xs
  unfolding last
  last-last m n xs =
      drop-drop (length (drop (length xs - n) xs) - m) (length xs - n) (length xs - min m n) xs
        (omega (arith, length-drop (length xs - n) xs))

  -- What is appended to the last items is among the last items of all.
  last-append : (n : ℕ) (xs ys : List A) → last n (last n xs ++ ys) ≡ last n (xs ++ ys)
  unfolding last
  last-append n xs ys =
      let d : ℕ = length xs - n in
      ap (λ l. drop (length l - n) l) (sym (drop-append d xs ys (omega arith)))
      ∙ drop-drop (length (drop d (xs ++ ys)) - n) d (length (xs ++ ys) - n) (xs ++ ys)
          (omega (arith, length-drop d (xs ++ ys), length-append xs ys))

  last_short : (n : ℕ) (xs : List A) → length xs ≤ n → last n xs ≡ xs
  unfolding last
  last_short n xs h =
      let none_left : length xs - n ≡ 0 = omega (arith, h) in ap (λ k. drop k xs) none_left

module _ {P : Type 0} where
  unfoldable pub emit_all : List (RelayEvent P) → EventBus P → EventBus P
  emit_all [] bus = bus
  emit_all (event ∷ events) bus = emit_all events (emit event bus)

  emit_all-ring :
      (events before : List (RelayEvent P)) (bus : EventBus P)
      → bus.ring_buffer ≡ last bus.ring_buffer_size before
      → let bus' = emit_all events bus in
        (bus'.ring_buffer ≡ last bus.ring_buffer_size (before ++ events))
        × (bus'.total_events_emitted ≡ bus.total_events_emitted + length events)
  unfolding emit_all emit ring_append last
  emit_all-ring [] before bus h =
      (h ∙ ap (last bus.ring_buffer_size) (sym (append-nil before)), omega arith)
  emit_all-ring (event ∷ events) before bus h =
      let appended =
        ap (λ r. last bus.ring_buffer_size (r ++ event ∷ [])) h
        ∙ last-append bus.ring_buffer_size before (event ∷ []) in
      let (ring, emitted) = emit_all-ring events (before ++ event ∷ []) (emit event bus) appended in
      (
        ring ∙ ap (last bus.ring_buffer_size) (append_assoc before (event ∷ []) events),
        omega (arith, emitted),
      )

  slice-last :
      (count : ℕ) (events : List (RelayEvent P))
      → 0 < count
      → last_slice count events ≡ last count events
  unfolding last_slice last
  slice-last zero events h = absurd (omega arith)
  slice-last (suc n) events h = refl

  get_recent_lem :
      (count : ℕ) (bus : EventBus P) → 0 < count → get_recent count bus ≡ last count bus.ring_buffer
  unfolding get_recent
  get_recent_lem count bus positive = elim (Bool-cases (leb (length bus.ring_buffer) count)) [
    | inl all ↦ rw all (sym (last_short count bus.ring_buffer (ground (arith, all))))
    | inr some_only ↦ rw some_only (slice-last count bus.ring_buffer positive)
  ]

  get_recent_zero : (bus : EventBus P) → get_recent 0 bus ≡ bus.ring_buffer
  unfolding get_recent last_slice
  get_recent_zero bus = elim (Bool-cases (leb (length bus.ring_buffer) 0)) [
    | inl all ↦ rw all refl
    | inr some_only ↦ rw some_only refl
  ]

  -- After any events on a new bus, get_recent gives the last of the events, oldest first: with a
  -- positive count as many as asked for, as the replay buffer holds and as there were; with a count
  -- of 0 as many as the replay buffer holds. Every event is counted.
  pub get_recent-last :
      (ring_buffer_size subscriber_queue_size count : ℕ) (events : List (RelayEvent P))
      → let bus = emit_all events (new_bus ring_buffer_size subscriber_queue_size) in
        (get_recent count bus ≡ last (asked_for count ring_buffer_size) events)
        × (bus.total_events_emitted ≡ length events)
  unfolding new_bus last asked_for
  get_recent-last ring_buffer_size subscriber_queue_size zero events =
      let bus : EventBus P = new_bus ring_buffer_size subscriber_queue_size in
      let (ring, emitted) = emit_all-ring events [] bus (sym (drop-nil (0 - ring_buffer_size))) in
      (get_recent_zero (emit_all events bus) ∙ ring, omega (arith, emitted))
  get_recent-last ring_buffer_size subscriber_queue_size (suc n) events =
      let bus : EventBus P = new_bus ring_buffer_size subscriber_queue_size in
      let (ring, emitted) = emit_all-ring events [] bus (sym (drop-nil (0 - ring_buffer_size))) in
      (
        get_recent_lem (suc n) (emit_all events bus) (omega arith)
            ∙ ap (last (suc n)) ring
            ∙ last-last (suc n) ring_buffer_size events,
        omega (arith, emitted),
      )
