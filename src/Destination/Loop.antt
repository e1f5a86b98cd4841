-- ===== src/Destination/Loop.antt =====
-- What each part of src/sp_rtk_base_relay/core/destinations/base_destination.py does, on every
-- branch.
use sp_rtk_base_relay.Prelude.{
  ℕ, zero, suc, ◌+◌, ◌<◌, ◌≡◌, refl, ◌∙◌, ap, ◌⊎◌, inl, inr, String, true, false, Option, none,
  some, List, [], ◌∷◌, ◌++◌, length, arith, Bool-cases,
}
use sp_rtk_base_relay.Rtcm.{Bytes}
use sp_rtk_base_relay.Queue.{is_full, get_nowait, get_items, qsize}
use sp_rtk_base_relay.Destination.{
  Remote, Item, Destination, enqueue, add_dropped, clear_loop, clear_queue, connect_succeeded,
  attempt_connect, begin_attempt, judge_attempt, ensure_connected, send_chunk,
}

clear_loop_lem :
    (items : List Item) (fuel cleared m : ℕ)
    → length items < fuel
    → clear_loop fuel cleared (record { items = items; maxsize = m })
      ≡ (cleared + length items, record { items = []; maxsize = m })
unfolding clear_loop get_nowait get_items
clear_loop_lem items zero cleared m h = absurd (omega arith)
clear_loop_lem [] (suc fuel) cleared m h =
    ap (λ (n : ℕ). (n, record { items = []; maxsize = m })) (omega arith)
clear_loop_lem (x ∷ items) (suc fuel) cleared m h =
    clear_loop_lem items fuel (cleared + 1) m (omega arith)
    ∙ ap (λ (n : ℕ). (n, record { items = []; maxsize = m })) (omega arith)

-- Clearing empties the queue, keeps all else, and returns how many items were there.
pub clear_queue_lem :
    {R : Type 0} (d : Destination R)
    → clear_queue d ≡ (record d { queue = record d.queue { items = [] } }, qsize d.queue)
unfolding clear_queue
clear_queue_lem d =
    rw (clear_loop_lem d.queue.items (qsize d.queue + 1) 0 d.queue.maxsize (omega arith))
      (ap (λ (n : ℕ). (record d { queue = record d.queue { items = [] } }, n)) (omega arith))

-- A full queue drops the new chunk, counts it, and keeps what it holds; any other takes the chunk
-- as its youngest. Nothing else of the destination changes.
pub enqueue_cases :
    {R : Type 0} (d : Destination R) (bytes : Bytes)
    → ((is_full d.queue ≡ true) × (enqueue d bytes ≡ (add_dropped d, false)))
      ⊎ ((is_full d.queue ≡ false)
          × (enqueue d bytes ≡ (
            record d { queue = record d.queue { items = d.queue.items ++ some bytes ∷ [] } },
            true,
          )))
unfolding enqueue
enqueue_cases d bytes = elim (Bool-cases (is_full d.queue)) [
  | inl full ↦ inl (full, rw (full, enqueue))
  | inr room ↦ inr (room, rw (room, enqueue))
]

-- A chunk is sent, or its error is recorded and the connection closed.
module _ {R : Type 0} (ops : Remote R) (now : ℕ) (bytes : Bytes) (d : Destination R) where
  pub chunk_sent :
      (ops.send_data bytes d.remote).0 ≡ none
      → send_chunk ops now bytes d ≡ record d {
        stats = record d.stats {
          bytes_sent = d.stats.bytes_sent + length bytes;
          messages_sent = d.stats.messages_sent + 1;
          last_send_time = now;
        };
        remote = (ops.send_data bytes d.remote).1;
      }
  unfolding send_chunk
  chunk_sent fine = rw (fine, send_chunk)

  pub chunk_failed :
      (error : String)
      → (ops.send_data bytes d.remote).0 ≡ some error
      → send_chunk ops now bytes d ≡ record d {
        stats = record d.stats { errors = d.stats.errors + 1; last_error = some error };
        remote = ops.disconnect (ops.send_data bytes d.remote).1;
      }
  unfolding send_chunk
  chunk_failed error raised = rw (raised, send_chunk)

-- Without a connection one attempt is made and counted; one that succeeds clears the queue.
module _ {R : Type 0} (ops : Remote R) (now : ℕ) (d : Destination R) where
  pub connected_already : ops.is_connected d.remote ≡ true → ensure_connected ops now d ≡ d
  unfolding ensure_connected
  connected_already on = rw (on, ensure_connected)

  module _ (off : ops.is_connected d.remote ≡ false) where
    pub attempts_now : ensure_connected ops now d ≡ attempt_connect ops now d
    unfolding ensure_connected
    attempts_now = rw (off, ensure_connected) refl

    pub connect_cleared :
        (ops.connect d.remote).0 ≡ none
        → ops.is_connected (ops.connect d.remote).1 ≡ true
        → ensure_connected ops now d ≡ record d {
          stats = record d.stats {
            connection_attempts = d.stats.connection_attempts + 1;
            successful_connections = d.stats.successful_connections + 1;
            connected_since = some now;
            last_error = none;
          };
          queue = record d.queue { items = [] };
          remote = (ops.connect d.remote).1;
        }
    unfolding ensure_connected attempt_connect begin_attempt judge_attempt connect_succeeded
    connect_cleared fine on =
        rw (off, ensure_connected, fine, attempt_connect, on)
          (ap (λ (p : Destination R × ℕ). p.0)
            (clear_queue_lem (record d {
              stats = record d.stats {
                connection_attempts = d.stats.connection_attempts + 1;
                successful_connections = d.stats.successful_connections + 1;
                connected_since = some now;
                last_error = none;
              };
              remote = (ops.connect d.remote).1;
            })))

    pub connect_refused :
        (ops.connect d.remote).0 ≡ none
        → ops.is_connected (ops.connect d.remote).1 ≡ false
        → ensure_connected ops now d ≡ record d {
          stats = record d.stats {
            connection_attempts = d.stats.connection_attempts + 1;
            connection_failures = d.stats.connection_failures + 1;
          };
          remote = (ops.connect d.remote).1;
        }
    unfolding ensure_connected attempt_connect begin_attempt judge_attempt
    connect_refused fine still_off = rw (off, ensure_connected, fine, attempt_connect, still_off)

    pub connect_raised :
        (error : String)
        → (ops.connect d.remote).0 ≡ some error
        → ensure_connected ops now d ≡ record d {
          stats = record d.stats {
            connection_attempts = d.stats.connection_attempts + 1;
            connection_failures = d.stats.connection_failures + 1;
            errors = d.stats.errors + 1;
            last_error = some error;
          };
          remote = (ops.connect d.remote).1;
        }
    unfolding ensure_connected attempt_connect begin_attempt judge_attempt
    connect_raised error raised = rw (off, ensure_connected, raised, attempt_connect)

-- The parts of an attempt.
module _ {R : Type 0} (ops : Remote R) (d : Destination R) where
  pub begun_with :
      (raised : Option String) (remote : R)
      → ops.connect d.remote ≡ (raised, remote)
      → begin_attempt ops d ≡ (
        raised,
        record d {
          stats = record d.stats { connection_attempts = d.stats.connection_attempts + 1 };
          remote = remote;
        },
      )
  unfolding begin_attempt
  begun_with raised remote e =
      ap
        (λ (p : Option String × R). (
          p.0,
          record d {
            stats = record d.stats { connection_attempts = d.stats.connection_attempts + 1 };
            remote = p.1;
          },
        ))
        e

  pub judged_raised :
      (now : ℕ) (error : String)
      → judge_attempt ops now (some error) d ≡ record d {
        stats = record d.stats {
          connection_failures = d.stats.connection_failures + 1;
          errors = d.stats.errors + 1;
          last_error = some error;
        };
      }
  unfolding judge_attempt
  judged_raised now error = refl

  pub judged_lost :
      (now : ℕ)
      → ops.is_connected d.remote ≡ false
      → judge_attempt ops now none d ≡ record d {
        stats = record d.stats { connection_failures = d.stats.connection_failures + 1 };
      }
  unfolding judge_attempt
  judged_lost now off = rw (off, judge_attempt) refl

  pub judged_connected :
      (now : ℕ)
      → ops.is_connected d.remote ≡ true
      → judge_attempt ops now none d ≡ record d {
        stats = record d.stats {
          successful_connections = d.stats.successful_connections + 1;
          connected_since = some now;
          last_error = none;
        };
        queue = record d.queue { items = [] };
      }
  unfolding judge_attempt connect_succeeded
  judged_connected now on =
      rw (on, judge_attempt)
        (ap (λ (p : Destination R × ℕ). p.0)
          (clear_queue_lem (record d {
            stats = record d.stats {
              successful_connections = d.stats.successful_connections + 1;
              connected_since = some now;
              last_error = none;
            };
          })))
