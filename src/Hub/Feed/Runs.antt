-- ===== src/Hub/Feed/Runs.antt =====
-- Runs of the two threads of the hub of src/sp_rtk_base_relay/core/broadcast_hub.py: what comes from
-- the input arrives at the destinations.
mod Tests
use sp_rtk_base_relay.Prelude.{
  ℕ, suc, ◌+◌, ◌≡◌, ◌≤◌, ◌<◌, refl, ◌∙◌, sym, ap, ap₂, subst, inl, inr, String, Bool, true, false,
  Option, none, some, List, [], ◌∷◌, ◌++◌, map, length, append_assoc, append-nil, Bool-cases,
  Option-cases, by_branches, arith, if◌then◌else◌,
}
use sp_rtk_base_relay.Rtcm.{Bytes}
use sp_rtk_base_relay.Queue.{Queue, put_nowait, get_nowait, get_items, present, qsize}
use sp_rtk_base_relay.Queue.Laws.{
  IsBounded, put_cases, put-IsBounded, get-IsBounded, present-append,
}
use sp_rtk_base_relay.Destination.{Destination}
use sp_rtk_base_relay.Hub.{BroadcastHub, HubEvent}
use sp_rtk_base_relay.Hub.Input.{InputSource}
use sp_rtk_base_relay.Hub.Broadcast.{broadcast, broadcast_all, check_no_data_watchdog}
use sp_rtk_base_relay.Hub.Broadcast.Quiet.{
  quiet, broadcast-quiet, watchdog-quiet, broadcast_all-snoc, broadcast_all-nil,
}
use sp_rtk_base_relay.Hub.Broadcast.Paths.{IsParsing, chunk_bytes, broadcast_all-receives}
use sp_rtk_base_relay.Hub.Broadcast.Receives.{receives}
use sp_rtk_base_relay.Hub.Feed.{
  Feed, Reading, no_data, data_read, read_error, emit_all, connect_again, note_typed, after_read,
  input_round, broadcast_round,
}
use sp_rtk_base_relay.Hub.Feed.Rounds.{and_chunk, IsPut, input_round-IsPut, get-present}

-- A round of the input thread or of the broadcast thread, with the text, answers or time it needs.
pub data Turn : Type 0 where
  input_turn : String → List Bool → Turn
  broadcast_turn : ℕ → Turn

-- With the chunks that were put into the queue, and those that were handed out and when.
pub record Fed (R : Type 0) (I : Type 0) : Type 0 where
  pub feed : Feed R I
  pub accepted : List Bytes
  pub handed : List (ℕ × Bytes)

pub begin : {R : Type 0} {I : Type 0} → Feed R I → Fed R I
begin f = record { feed = f; accepted = []; handed = [] }

abbrev and_timed : ℕ → Option Bytes → List (ℕ × Bytes)
and_timed now none = []
and_timed now (some bytes) = (now, bytes) ∷ []

module _ {R : Type 0} {I : Type 0} (source : InputSource I) (read_data : I → Reading × I) where
  pub turn : Fed R I → Turn → Fed R I
  turn r (input_turn otherwise answers) =
      let (f, put) = input_round source read_data otherwise answers r.feed in
      record r { feed = f; accepted = r.accepted ++ and_chunk put }
  turn r (broadcast_turn now) =
      let (f, taken) = broadcast_round now r.feed in
      record r { feed = f; handed = r.handed ++ and_timed now taken }

  pub run : Fed R I → List Turn → Fed R I
  run r [] = r
  run r (t ∷ turns) = run (turn r t) turns

map-snoc :
    (handed : List (ℕ × Bytes)) (now : ℕ) (bytes : Bytes)
    → map chunk_bytes (handed ++ (now, bytes) ∷ []) ≡ map chunk_bytes handed ++ bytes ∷ []
map-snoc [] now bytes = refl
map-snoc (chunk ∷ handed) now bytes = ap (λ l. chunk_bytes chunk ∷ l) (map-snoc handed now bytes)

-- The hub is as if it had handed out the chunks alone; those accepted are those handed out and then
-- those in the queue, which keeps its bound.
pub record IsFed {R : Type 0} {I : Type 0} (h : BroadcastHub R) (r : Fed R I) : Type 0 where
  pub same_hub : quiet r.feed.hub ≡ broadcast_all r.handed (quiet h)
  pub order : r.accepted ≡ map chunk_bytes r.handed ++ present r.feed.input_queue.items
  pub bound : IsBounded r.feed.input_queue

module _ {R : Type 0} {I : Type 0} (h : BroadcastHub R) (r : Fed R I) (v : IsFed h r) where
  put-IsFed :
      (f : Feed R I) (put : Option Bytes)
      → IsPut r.feed (f, put)
      → IsFed h (record r { feed = f; accepted = r.accepted ++ and_chunk put })
  put-IsFed f put (same_hub, items, bound) = record {
    same_hub = same_hub ∙ v.same_hub;
    order =
        ap (λ l. l ++ and_chunk put) v.order
        ∙ append_assoc (map chunk_bytes r.handed) (present r.feed.input_queue.items) (and_chunk put)
        ∙ ap (λ l. map chunk_bytes r.handed ++ l) (sym items);
    bound = bound v.bound;
  }

  unhanded-IsFed : IsFed h (record r { handed = r.handed ++ [] })
  unhanded-IsFed = subst (λ l. IsFed h (record r { handed = l })) (sym (append-nil r.handed)) v

  watched-IsFed :
      (now : ℕ)
      → IsFed h (record r {
        feed = record r.feed { hub = check_no_data_watchdog now r.feed.hub };
        handed = r.handed ++ [];
      })
  watched-IsFed now = record {
    same_hub =
        watchdog-quiet now r.feed.hub
        ∙ v.same_hub
        ∙ ap (λ l. broadcast_all l (quiet h)) (sym (append-nil r.handed));
    order =
        v.order
        ∙ ap (λ l. map chunk_bytes l ++ present r.feed.input_queue.items)
            (sym (append-nil r.handed));
    bound = v.bound;
  }

  taken-IsFed :
      (now : ℕ) (bytes : Bytes) (q : Queue (Option Bytes))
      → get_nowait r.feed.input_queue ≡ some (some bytes, q)
      → IsFed h (record r {
        feed = record r.feed { input_queue = q; hub = broadcast now bytes r.feed.hub };
        handed = r.handed ++ (now, bytes) ∷ [];
      })
  taken-IsFed now bytes q found = record {
    same_hub =
        broadcast-quiet now bytes r.feed.hub
        ∙ ap (broadcast now bytes) v.same_hub
        ∙ sym (broadcast_all-snoc r.handed now bytes (quiet h));
    order =
        v.order
        ∙ ap (λ l. map chunk_bytes r.handed ++ l)
            (get-present r.feed.input_queue (some bytes) q found)
        ∙ sym (append_assoc (map chunk_bytes r.handed) (bytes ∷ []) (present q.items))
        ∙ ap (λ l. l ++ present q.items) (sym (map-snoc r.handed now bytes));
    bound = get-IsBounded r.feed.input_queue v.bound found;
  }

  pill-IsFed :
      (q : Queue (Option Bytes))
      → get_nowait r.feed.input_queue ≡ some (none, q)
      → IsFed h (record r { feed = record r.feed { input_queue = q }; handed = r.handed ++ [] })
  pill-IsFed q found =
      subst (λ l. IsFed h (record r { feed = record r.feed { input_queue = q }; handed = l }))
        (sym (append-nil r.handed))
        (record {
          same_hub = v.same_hub;
          order =
              v.order
              ∙ ap (λ l. map chunk_bytes r.handed ++ l)
                  (get-present r.feed.input_queue none q found);
          bound = get-IsBounded r.feed.input_queue v.bound found;
        })

  broadcast-IsFed :
      (now : ℕ)
      → let (f, taken) = broadcast_round now r.feed in
        IsFed h (record r { feed = f; handed = r.handed ++ and_timed now taken })
  unfolding broadcast_round
  broadcast-IsFed now =
      by_branches
        (λ (x : Feed R I × Option Bytes).
          IsFed h (record r { feed = x.0; handed = r.handed ++ and_timed now x.1 }))
        r.feed.hub.running
        (λ running. elim (Option-cases (get_nowait r.feed.input_queue)) [
          | inl empty ↦ rw empty (watched-IsFed now)
          | inr ((none, q), found) ↦ rw found (pill-IsFed q found)
          | inr ((some bytes, q), found) ↦ rw found (taken-IsFed now bytes q found)
        ])
        (λ stopped. unhanded-IsFed)

module _ {R : Type 0} {I : Type 0} (source : InputSource I) (read_data : I → Reading × I) where
  turn-IsFed :
      (h : BroadcastHub R) (r : Fed R I) (t : Turn)
      → IsFed h r
      → IsFed h (turn source read_data r t)
  unfolding turn
  turn-IsFed h r (input_turn otherwise answers) v =
      put-IsFed h r v _ _ (input_round-IsPut source read_data otherwise answers r.feed)
  turn-IsFed h r (broadcast_turn now) v = broadcast-IsFed h r v now

  run-IsFed :
      (h : BroadcastHub R) (r : Fed R I) (turns : List Turn)
      → IsFed h r
      → IsFed h (run source read_data r turns)
  unfolding run
  run-IsFed h r [] v = v
  run-IsFed h r (t ∷ turns) v = run-IsFed h (turn source read_data r t) turns (turn-IsFed h r t v)

  -- The two threads of a hub that begins with an empty input queue, in any order of their rounds,
  -- with the input lost and connected again: each destination ends up as if the chunks that were
  -- handed out had been handed to it alone; the chunks that the queue accepted, in the order of
  -- reading, are those handed out and then those still in the queue, none lost, doubled or
  -- exchanged; and the queue does not grow beyond its size. The condition is that a hub that does
  -- not parse has no destination that filters.
  pub run-receives :
      (f : Feed R I) (turns : List Turn)
      → IsParsing f.hub
      → f.input_queue.items ≡ []
      → let r = run source read_data (begin f) turns in
        (r.feed.hub.destinations
          ≡ map (receives f.hub.frame_buffer (map chunk_bytes r.handed)) f.hub.destinations)
        × (r.accepted ≡ map chunk_bytes r.handed ++ present r.feed.input_queue.items)
        × IsBounded r.feed.input_queue
  unfolding begin present
  run-receives f turns parsing empty =
      let begun : IsFed f.hub (begin f) = record {
        same_hub = sym (broadcast_all-nil (quiet f.hub));
        order = sym (ap present empty);
        bound = λ sized. ground (arith, ap length empty);
      } in
      let v = run-IsFed f.hub (begin f) turns begun in
      let r = run source read_data (begin f) turns in
      (
        ap (λ (k : BroadcastHub R). k.destinations) v.same_hub
            ∙ broadcast_all-receives r.handed (quiet f.hub) parsing,
        v.order,
        v.bound,
      )
