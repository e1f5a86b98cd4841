-- ===== src/Pipeline/Relay/Sends.antt =====
-- What the coordinator of src/sp_rtk_base_relay/core/data_pipeline.py sends in a run of the pipeline.
use sp_rtk_base_relay.Prelude.{
  ℕ, ◌≡◌, refl, ◌∙◌, sym, inl, inr, Bool, true, false, not, ◌&&◌, List, [], ◌∷◌, ◌++◌, append_assoc,
  Bool-cases, by_branches,
}
use sp_rtk_base_relay.Rtcm.{Bytes}
use sp_rtk_base_relay.Queue.{present}
use sp_rtk_base_relay.Client.{RtcmClient, Sending, is_connected, send_rtcm_data}
use sp_rtk_base_relay.Pipeline.{
  Pipeline, Metrics, checks, Next, loops, handle_rtcm_error, handle_coordination_error,
  coordinator_send, after_send, collect, count_processed,
}
use sp_rtk_base_relay.Pipeline.Relay.{
  fresh, carries, halting, Relay, held_by, send_at, send_with, IsCounted, IsRelayed,
}
use sp_rtk_base_relay.Pipeline.Relay.Halts.{rtcm_error-IsKept, coordination_error-IsKept}
use sp_rtk_base_relay.Pipeline.Relay.Steps.{coordinator-IsRelayed}
use sp_rtk_base_relay.Pipeline.Relay.Reader.{same-IsCounted}

module _ (r : Relay) (bytes : Bytes)
    (v : IsRelayed (record r { coordinator = carries bytes })) where
  sent_prefix : (more : List Bytes) × (r.got ≡ (r.sent ++ bytes ∷ []) ++ more)
  sent_prefix =
      let w = v.whole refl in
      let more = present r.pipeline.data_queue.items ++ (held_by r.reader ++ w.lost) in
      (more, w.order ∙ sym (append_assoc r.sent (bytes ∷ []) more))

  sender_active : r.active ≡ true
  sender_active = elim (Bool-cases r.active) [
    | inl on ↦ on
    | inr off ↦ absurd (cc ((v.idle off).coordinator_over))
  ]

  failed-IsRelayed :
      (p : Pipeline) (sent : List Bytes)
      → IsCounted p r.requests
      → ((more : List Bytes) × (r.got ≡ sent ++ more))
      → IsRelayed (record r { pipeline = p; coordinator = halting checks; sent = sent })
  failed-IsRelayed p sent counted prefix =
      coordinator-IsRelayed (record r { coordinator = carries bytes }) v p (halting checks) sent
        counted sender_active refl prefix

  -- The client has sent the data, and it is counted.
  processed-IsRelayed :
      (now : ℕ) (client : RtcmClient) (buffer : Bytes) (metrics : Metrics)
      → IsRelayed (record r {
        pipeline =
            count_processed now bytes
              (record r.pipeline { client = client; frame_buffer = buffer; metrics = metrics });
        coordinator = fresh;
        sent = r.sent ++ bytes ∷ [];
      })
  unfolding count_processed
  processed-IsRelayed now client buffer metrics = record {
    counted = record {
      restarts = v.counted.restarts;
      starts = v.counted.starts;
      bounded = v.counted.bounded;
    };
    prefix = sent_prefix;
    whole = λ goes_on.
        let w = v.whole refl in
        record {
          lost = w.lost;
          order =
              w.order
              ∙ sym (
                  append_assoc r.sent (bytes ∷ [])
                    (present r.pipeline.data_queue.items ++ (held_by r.reader ++ w.lost)));
          none_lost = w.none_lost;
          one_lost = w.one_lost;
        };
    idle = λ off. absurd (cc (off, sender_active));
  }

  IsSendPart : (Pipeline × Next) × Bool → Type 0
  IsSendPart o = IsRelayed (send_with bytes o r)

  after_send-IsRelayed :
      (now : ℕ) (breaks : Bool) (client : RtcmClient) (sent : Bool)
      → IsSendPart (after_send now bytes breaks sent (record r.pipeline { client = client }), sent)
  unfolding after_send IsSendPart collect
  after_send-IsRelayed now breaks client false =
      let p : Pipeline = record r.pipeline { client = client } in
      failed-IsRelayed (handle_rtcm_error p) r.sent
        ((rtcm_error-IsKept p).counted r.requests
          (same-IsCounted r.pipeline r.requests client r.pipeline.input_connected v.counted))
        v.prefix
  after_send-IsRelayed now breaks client true =
      let p : Pipeline = record r.pipeline { client = client } in
      by_branches (λ (o : Pipeline × Next). IsSendPart (o, true)) (breaks && p.metrics.collects)
        (λ breaks_off.
          failed-IsRelayed (handle_coordination_error p) (r.sent ++ bytes ∷ [])
            ((coordination_error-IsKept p).counted r.requests
              (same-IsCounted r.pipeline r.requests client r.pipeline.input_connected v.counted))
            sent_prefix)
        (λ goes_on.
          by_branches (λ (p' : Pipeline). IsSendPart ((count_processed now bytes p', loops), true))
            p.metrics.collects (λ collects. processed-IsRelayed now client _ _)
            (λ off. processed-IsRelayed now client _ _))

  pub send-IsRelayed :
      (now : ℕ) (sending : Sending) (breaks : Bool)
      → IsRelayed (send_at (carries bytes) now sending breaks r)
  unfolding coordinator_send IsSendPart
  send-IsRelayed now sending breaks =
      by_branches IsSendPart (not (is_connected r.pipeline.client))
        (λ gone.
          failed-IsRelayed (handle_rtcm_error r.pipeline) r.sent
            ((rtcm_error-IsKept r.pipeline).counted r.requests v.counted) v.prefix)
        (λ connected.
          let (client, sent) = send_rtcm_data bytes sending r.pipeline.client in
          after_send-IsRelayed now breaks client sent)
