-- ===== src/Pipeline/Relay/Starts.antt =====
-- How start_relay() of src/sp_rtk_base_relay/core/data_pipeline.py begins a run of the pipeline or
-- fails to, and how it ends.
use sp_rtk_base_relay.Prelude.{
  ℕ, ◌+◌, ◌≤◌, ◌≡◌, refl, ap, Bool, true, false, none, [], arith, by_branches,
}
use sp_rtk_base_relay.Queue.{present}
use sp_rtk_base_relay.Client.{RtcmClient, Opening, connect, disconnect}
use sp_rtk_base_relay.Pipeline.{
  Pipeline, InputAnswer, connects, refuses, raises, Begun, finalize_shutdown, cleanup_connections,
  start_relay, start_input, start_failed, start_connected,
}
use sp_rtk_base_relay.Pipeline.Relay.{over, Relay, started, is_looping, IsRelayed}

module _ (r : Relay) (v : IsRelayed r) where
  -- A pipeline whose threads are over, with its queue emptied.
  pub ended-IsRelayed :
      (active : Bool) (client : RtcmClient) (starts : ℕ)
      → r.reader ≡ over
      → r.coordinator ≡ over
      → r.pipeline.stats.pipeline_starts ≤ starts
      → IsRelayed (record r {
        active = active;
        pipeline = record r.pipeline {
          client = client;
          input_connected = false;
          data_queue = record r.pipeline.data_queue { items = [] };
          frame_buffer = [];
          stats = record r.pipeline.stats { pipeline_starts = starts; uptime_start = none };
          running = false;
        };
      })
  unfolding present
  ended-IsRelayed active client starts reader coordinator more = record {
    counted = record {
      restarts = v.counted.restarts;
      starts = omega (arith, v.counted.starts, more);
      bounded = λ limited. omega arith;
    };
    prefix = v.prefix;
    whole = λ goes_on. absurd (cc (goes_on, ap is_looping coordinator));
    idle = λ h. record {
      empty = refl;
      halted = refl;
      reader_over = reader;
      coordinator_over = coordinator;
    };
  }

  module _ (off : r.active ≡ false) where
    failed_start-IsRelayed :
        (client : RtcmClient) (input : Bool) (starts : ℕ)
        → r.pipeline.stats.pipeline_starts ≤ starts
        → IsRelayed (
            started r (
              start_failed (record r.pipeline {
                client = client;
                input_connected = input;
                stats = record r.pipeline.stats { pipeline_starts = starts };
              })))
    unfolding start_failed finalize_shutdown cleanup_connections
    failed_start-IsRelayed client input starts more =
        let i = v.idle off in
        ended-IsRelayed r.active (disconnect (disconnect client)) starts i.reader_over
          i.coordinator_over more

    begun-IsRelayed :
        (now : ℕ) (client : RtcmClient)
        → IsRelayed (
            started r (
              start_connected now
                (client, true)
                (record r.pipeline {
                  input_connected = true;
                  stats = record r.pipeline.stats {
                    pipeline_starts = r.pipeline.stats.pipeline_starts + 1;
                  };
                })))
    unfolding start_connected present
    begun-IsRelayed now client =
        let i = v.idle off in
        record {
          counted = record {
            restarts = v.counted.restarts;
            starts = omega (arith, v.counted.starts);
            bounded = v.counted.bounded;
          };
          prefix = ([], refl);
          whole = λ goes_on. record {
            lost = [];
            order = rw (i.empty) refl;
            none_lost = λ on. refl;
            one_lost = omega arith;
          };
          idle = λ h. absurd (cc h);
        }

    connected-IsRelayed :
        (now : ℕ) (attempt : RtcmClient × Bool)
        → IsRelayed (
            started r (
              start_connected now attempt (record r.pipeline {
                input_connected = true;
                stats = record r.pipeline.stats {
                  pipeline_starts = r.pipeline.stats.pipeline_starts + 1;
                };
              })))
    unfolding start_connected
    connected-IsRelayed now (client, true) = begun-IsRelayed now client
    connected-IsRelayed now (client, false) =
        failed_start-IsRelayed client false (r.pipeline.stats.pipeline_starts + 1) (omega arith)

    start_input-IsRelayed :
        (answer : InputAnswer) (now key : ℕ) (opening : Opening)
        → IsRelayed (
            started r (
              start_input answer now key opening (record r.pipeline {
                stats = record r.pipeline.stats {
                  pipeline_starts = r.pipeline.stats.pipeline_starts + 1;
                };
              })))
    unfolding start_input
    start_input-IsRelayed connects now key opening =
        connected-IsRelayed now (connect now key opening r.pipeline.client)
    start_input-IsRelayed refuses now key opening =
        failed_start-IsRelayed r.pipeline.client false (r.pipeline.stats.pipeline_starts + 1)
          (omega arith)
    start_input-IsRelayed raises now key opening =
        failed_start-IsRelayed r.pipeline.client false (r.pipeline.stats.pipeline_starts + 1)
          (omega arith)

    pub start-IsRelayed :
        (answer : InputAnswer) (now key : ℕ) (opening : Opening)
        → IsRelayed (started r (start_relay answer now key opening r.pipeline))
    unfolding start_relay
    start-IsRelayed answer now key opening =
        by_branches (λ (o : Pipeline × Begun). IsRelayed (started r o)) r.pipeline.running (λ on. v)
          (λ halted. start_input-IsRelayed answer now key opening)
