-- ===== src/Events/Delivery.antt =====
-- What subscribers get from the event bus of src/sp_rtk_base_relay/core/events.py.
use sp_rtk_base_relay.Prelude.{
  ℕ, zero, suc, ◌+◌, ◌≡◌, refl, ◌∙◌, sym, ap, subst, ◌⊎◌, inl, inr, Bool, true, false, Option, none,
  some, List, [], ◌∷◌, ◌++◌, append_assoc, arith, Bool-cases, if◌then◌else◌,
}
use sp_rtk_base_relay.Queue.{present, get_nowait, get_items}
use sp_rtk_base_relay.Queue.Laws.{put_cases, present-append}
use sp_rtk_base_relay.Events.{
  RelayEvent, EventSubscription, EventBus, deliver, deliver_all, emit, get_event,
}

-- The second list without n of its items, in order, is the first.
pub data Keeps {A : Type 0} : List A → List A → ℕ → Type 0 where
  nothing : Keeps [] [] 0
  kept : {xs ys : List A} {n : ℕ} (a : A) → Keeps xs ys n → Keeps (xs ++ a ∷ []) (ys ++ a ∷ []) n
  lost : {xs ys : List A} {n : ℕ} (a : A) → Keeps xs ys n → Keeps xs (ys ++ a ∷ []) (suc n)

pub Keeps-all : {A : Type 0} {xs ys : List A} {n : ℕ} → Keeps xs ys n → n ≡ 0 → xs ≡ ys
Keeps-all nothing e = refl
Keeps-all (kept a keeps) e = ap (λ l. l ++ a ∷ []) (Keeps-all keeps e)
Keeps-all (lost a keeps) e = absurd (omega (arith, e))

-- The bus, what each of its subscribers has read, in the order of the list, and all events.
pub record Hearing (P : Type 0) : Type 0 where
  pub bus : EventBus P
  pub gots : List (List (RelayEvent P))
  pub events : List (RelayEvent P)

-- An event is emitted, or the subscriber at a place of the list reads.
pub data Turn (P : Type 0) : Type 0 where
  emitted : RelayEvent P → Turn P
  reads : ℕ → Turn P

count_lem :
    (ok : Bool) (sum missed total dropped : ℕ)
    → sum ≡ missed + total
    → sum + (if ok then dropped else dropped + 1)
      ≡ (if ok then missed else suc missed) + (total + dropped)
count_lem true sum missed total dropped e = omega (arith, e)
count_lem false sum missed total dropped e = omega (arith, e)

module _ {P : Type 0} where
  -- What a read hands out.
  unfoldable pub handed : Option (RelayEvent P) → List (RelayEvent P)
  handed none = []
  handed (some event) = event ∷ []

  -- What the subscriber has got and what still waits for it.
  abbrev pub reached : List (RelayEvent P) → EventSubscription P → List (RelayEvent P)
  reached got s = got ++ present s.queue.items

  get_event_lem :
      (s : EventSubscription P)
      → handed (get_event s).1 ++ present (get_event s).0.queue.items ≡ present s.queue.items
  unfolding get_event handed get_nowait get_items present
  get_event_lem s = ground arith

  pub get_event-reached :
      (got : List (RelayEvent P)) (s : EventSubscription P)
      → reached (got ++ handed (get_event s).1) (get_event s).0 ≡ reached got s
  get_event-reached got s =
      append_assoc got (handed (get_event s).1) (present (get_event s).0.queue.items)
      ∙ ap (λ l. got ++ l) (get_event_lem s)

  -- An event is refused, or it waits after those that do.
  pub deliver_cases :
      (s : EventSubscription P) (event : RelayEvent P)
      → (deliver s event ≡ (s, false))
        ⊎ ((deliver s event).1 ≡ true)
          × (present (deliver s event).0.queue.items ≡ present s.queue.items ++ event ∷ [])
  unfolding deliver present
  deliver_cases s event = elim (Bool-cases s.closed) [
    | inl shut ↦ inl (simp shut refl)
    | inr opened ↦ elim (put_cases s.queue (some event)) [
      | inl (room, e) ↦
          inr (simp (opened, e) (refl, present-append s.queue.items (some event ∷ [])))
      | inr (full, e) ↦ inl (simp (opened, e) refl)
    ]
  ]

  -- The subscribers' lists against all events, with the number of events that they missed together.
  pub data IsHeard (events : List (RelayEvent P))
      : List (EventSubscription P) → List (List (RelayEvent P)) → ℕ → Type 0 where
    nobody : IsHeard events [] [] 0
    one_more :
        {subs : List (EventSubscription P)} {gots : List (List (RelayEvent P))} {total : ℕ}
        (s : EventSubscription P) (got : List (RelayEvent P)) (missed sum : ℕ)
        → Keeps (reached got s) events missed
        → IsHeard events subs gots total
        → sum ≡ missed + total
        → IsHeard events (s ∷ subs) (got ∷ gots) sum

  unfoldable pub read_at :
      ℕ
      → List (EventSubscription P)
      → List (List (RelayEvent P))
      → List (EventSubscription P) × List (List (RelayEvent P))
  read_at place [] gots = ([], gots)
  read_at place (s ∷ subs) [] = (s ∷ subs, [])
  read_at zero (s ∷ subs) (got ∷ gots) =
      let (s', event) = get_event s in (s' ∷ subs, (got ++ handed event) ∷ gots)
  read_at (suc place) (s ∷ subs) (got ∷ gots) =
      let (subs', gots') = read_at place subs gots in (s ∷ subs', got ∷ gots')

  unfoldable pub turn : Hearing P → Turn P → Hearing P
  turn h (emitted event) = record h { bus = emit event h.bus; events = h.events ++ event ∷ [] }
  turn h (reads place) =
      let (subs, gots) = read_at place h.bus.subscribers h.gots in
      record h { bus = record h.bus { subscribers = subs }; gots = gots }

  unfoldable pub run : Hearing P → List (Turn P) → Hearing P
  run h [] = h
  run h (t ∷ turns) = run (turn h t) turns

  read_at-IsHeard :
      {events : List (RelayEvent P)} {total : ℕ} (place : ℕ) (subs : List (EventSubscription P))
      (gots : List (List (RelayEvent P)))
      → IsHeard events subs gots total
      → let (subs', gots') = read_at place subs gots in IsHeard events subs' gots' total
  unfolding read_at
  read_at-IsHeard place [] gots heard = heard
  read_at-IsHeard place (s ∷ subs) [] heard = heard
  read_at-IsHeard {events = events} zero (s ∷ subs) (got ∷ gots)
        (one_more _ _ missed sum keeps rest e) =
      one_more _ _ missed sum
        (subst (λ l. Keeps l events missed) (sym (get_event-reached got s)) keeps) rest e
  read_at-IsHeard (suc place) (s ∷ subs) (got ∷ gots) (one_more _ _ missed sum keeps rest e) =
      one_more s got missed sum keeps (read_at-IsHeard place subs gots rest) e

  deliver-Keeps :
      (got events : List (RelayEvent P)) (s : EventSubscription P) (event : RelayEvent P)
      (missed : ℕ)
      → Keeps (reached got s) events missed
      → let (s', ok) = deliver s event in
        Keeps (reached got s') (events ++ event ∷ []) (if ok then missed else suc missed)
  deliver-Keeps got events s event missed keeps = elim (deliver_cases s event) [
    | inl e ↦ rw e (lost event keeps)
    | inr (ok, e) ↦ rw ok (
        subst (λ l. Keeps l (events ++ event ∷ []) missed)
          (append_assoc got (present s.queue.items) (event ∷ []) ∙ ap (λ l. got ++ l) (sym e))
          (kept event keeps))
  ]

  deliver_all-IsHeard :
      {events : List (RelayEvent P)} {total : ℕ} {subs : List (EventSubscription P)}
      {gots : List (List (RelayEvent P))} (event : RelayEvent P)
      → IsHeard events subs gots total
      → let (subs', dropped) = deliver_all subs event in
        IsHeard (events ++ event ∷ []) subs' gots (total + dropped)
  unfolding deliver_all
  deliver_all-IsHeard event nobody = nobody
  deliver_all-IsHeard {events = events} event (one_more s got missed sum keeps rest e) =
      one_more _ _ _ _ (deliver-Keeps got events s event missed keeps)
        (deliver_all-IsHeard event rest) (count_lem (deliver s event).1 sum missed _ _ e)

  -- All that holds of a bus after the total of dropped events was `base`.
  pub record IsFollowed (base : ℕ) (h : Hearing P) : Type 0 where
    pub total : ℕ
    pub heard : IsHeard h.events h.bus.subscribers h.gots total
    pub counted : h.bus.total_events_dropped ≡ base + total

  turn-IsFollowed :
      (base : ℕ) (h : Hearing P) (t : Turn P) → IsFollowed base h → IsFollowed base (turn h t)
  unfolding turn emit
  turn-IsFollowed base h (emitted event) v = record {
    total = v.total + (deliver_all h.bus.subscribers event).1;
    heard = deliver_all-IsHeard event v.heard;
    counted = omega (arith, v.counted);
  }
  turn-IsFollowed base h (reads place) v = record {
    total = v.total;
    heard = read_at-IsHeard place h.bus.subscribers h.gots v.heard;
    counted = v.counted;
  }

  -- Through any events and reads in any order: what a subscriber got, and then what waits for it,
  -- are the events that were emitted, in order and each once, without those that it missed; and the
  -- bus counts as dropped just the events that its subscribers missed.
  pub run-IsFollowed :
      (base : ℕ) (h : Hearing P) (turns : List (Turn P))
      → IsFollowed base h
      → IsFollowed base (run h turns)
  unfolding run
  run-IsFollowed base h [] v = v
  run-IsFollowed base h (t ∷ turns) v =
      run-IsFollowed base (turn h t) turns (turn-IsFollowed base h t v)

  -- Every subscriber has got all events, or they wait for it.
  unfoldable pub IsComplete :
      List (RelayEvent P) → List (EventSubscription P) → List (List (RelayEvent P)) → Type 0
  IsComplete events [] gots = Unit
  IsComplete events (s ∷ subs) [] = ⊥
  IsComplete events (s ∷ subs) (got ∷ gots) = (reached got s ≡ events) × IsComplete events subs gots

  heard-IsComplete :
      {events : List (RelayEvent P)} {subs : List (EventSubscription P)}
      {gots : List (List (RelayEvent P))} {total : ℕ}
      → IsHeard events subs gots total
      → total ≡ 0
      → IsComplete events subs gots
  unfolding IsComplete
  heard-IsComplete nobody none_missed = tt
  heard-IsComplete (one_more s got missed sum keeps rest e) none_missed = (
    Keeps-all keeps (omega (arith, e, none_missed)),
    heard-IsComplete rest (omega (arith, e, none_missed)),
  )

  -- If the bus counts no dropped event over any events and reads, every subscriber has got all the
  -- events that were emitted, in order and each once, but for those that wait for it at the end of
  -- them.
  pub run-IsComplete :
      (h : Hearing P) (turns : List (Turn P))
      → IsFollowed h.bus.total_events_dropped h
      → (run h turns).bus.total_events_dropped ≡ h.bus.total_events_dropped
      → let h' = run h turns in IsComplete h'.events h'.bus.subscribers h'.gots
  run-IsComplete h turns v none_dropped =
      let v' = run-IsFollowed h.bus.total_events_dropped h turns v in
      heard-IsComplete v'.heard (omega (arith, v'.counted, none_dropped))
