-- ===== src/SurePath/Prepares.antt =====
-- How the tests and the connection attempts of
-- src/sp_rtk_base_relay/core/destinations/surepath_destination.py keep the statistics
-- in step with the client's.
use sp_rtk_base_relay.Prelude.{
  ℕ, ◌+◌, ◌≡◌, refl, sym, ap, subst, inl, inr, String, true, false, Option, none, some, arith,
  by_branches, Bool-cases, ltb, if◌then◌else◌,
}
use sp_rtk_base_relay.Rtcm.{Bytes}
use sp_rtk_base_relay.Client.{ClientConfig, Opening, went, is_connected}
use sp_rtk_base_relay.Client.Calls.{IsSettled, IsConfig}
use sp_rtk_base_relay.Client.Calls.Connects.{connect_cases, failed_client, connected_client}
use sp_rtk_base_relay.Client.Calls.Keeps.{failed-IsLinked, failed-IsWithin, connected-IsWithin}
use sp_rtk_base_relay.Destination.{Destination, begin_attempt, judge_attempt}
use sp_rtk_base_relay.Destination.Loop.{judged_raised, judged_lost, judged_connected}
use sp_rtk_base_relay.SurePath.{SurePath, surepath_remote}
use sp_rtk_base_relay.SurePath.History.{
  History, Phase, free, holding, tried, judged, settled, ready, is_early, attempt_pending,
  success_pending, at_rest, try_connect, test_at, judge_at, count_unseen, set_time_at,
  test_again_at, IsInStep,
}
use sp_rtk_base_relay.SurePath.Attempts.{begun_dest, raised_of, begun}

module _ (config : ClientConfig) (valid : IsConfig config) (h : History)
    (v : IsInStep config h) where
  -- Whatever keeps the statistics that the client has too, the client, and what is to be counted.
  pub kept-IsInStep :
      (d : Destination SurePath) (phase : Phase)
      → d.stats ≡ h.dest.stats
      → d.remote ≡ h.dest.remote
      → success_pending phase ≡ success_pending h.phase
      → attempt_pending phase ≡ attempt_pending h.phase
      → IsInStep config (record h { dest = d; phase = phase })
  kept-IsInStep d phase same_stats same_remote same_success same_attempt = record {
    linked = rw same_remote (v.linked);
    within = rw same_remote (v.within);
    messages = rw (same_stats, same_remote) (v.messages);
    bytes = rw (same_stats, same_remote) (v.bytes);
    attempts = rw (same_stats, same_remote) (v.attempts);
    successes = rw (same_stats, same_remote, same_success) (v.successes);
    failures = rw (same_stats, same_attempt) (v.failures);
    waits = rw same_remote (v.waits);
    punctual = v.punctual;
  }

  never_early :
      (before : ℕ) (failed_at : Option ℕ)
      → h.failed_at ≡ failed_at
      → ltb before h.dest.remote.next_connect_time ≡ false
      → is_early config.retry_initial_delay before failed_at ≡ false
  never_early before none e late = refl
  never_early before (some t) e late = ground (arith, v.waits t e, late)

  still_punctual :
      (before : ℕ)
      → ltb before h.dest.remote.next_connect_time ≡ false
      → (if is_early config.retry_initial_delay before h.failed_at then h.early + 1 else h.early)
        ≡ 0
  still_punctual before late =
      by_branches (λ (n : ℕ). n ≡ 0) (is_early config.retry_initial_delay before h.failed_at)
        (λ early. absurd (cc (early, never_early before h.failed_at refl late)))
        (λ punctual. v.punctual)

  module _ (before after key : ℕ) (opening : Opening) (bytes : Bytes)
      (nothing_pending : success_pending h.phase ≡ 0) (none_tried : attempt_pending h.phase ≡ 0)
      (off : is_connected h.dest.remote.client ≡ false)
      (late : ltb before h.dest.remote.next_connect_time ≡ false) where
    IsTried : Option String × Destination SurePath → Type 0
    IsTried (raised, d) = IsInStep config (record h {
      dest = d;
      phase = tried bytes raised;
      early =
          if is_early config.retry_initial_delay before h.failed_at then h.early + 1 else h.early;
    })

    failed-IsTried :
        (failures : ℕ)
        → IsTried (raised_of false, begun_dest (failed_client failures h.dest.remote.client) h.dest)
    unfolding IsTried
    failed-IsTried failures = record {
      linked = failed-IsLinked failures h.dest.remote.client v.linked off;
      within = failed-IsWithin config failures h.dest.remote.client v.within;
      messages = v.messages;
      bytes = v.bytes;
      attempts = omega (arith, v.attempts);
      successes = omega (arith, v.successes, nothing_pending);
      failures = omega (arith, v.failures, none_tried);
      waits = v.waits;
      punctual = still_punctual before late;
    }

    connected-IsTried :
        IsTried
          (raised_of true, begun_dest (connected_client after key h.dest.remote.client) h.dest)
    unfolding IsTried IsSettled
    connected-IsTried = record {
      linked = record {
        settled = tt;
        has_socket = refl;
        monitored = refl;
        same_socket = refl;
        since = refl;
      };
      within = connected-IsWithin config valid after key h.dest.remote.client v.within;
      messages = v.messages;
      bytes = v.bytes;
      attempts = omega (arith, v.attempts);
      successes = omega (arith, v.successes, nothing_pending);
      failures = omega (arith, v.failures, none_tried);
      waits = v.waits;
      punctual = still_punctual before late;
    }

    attempt-IsTried : IsTried (begin_attempt (surepath_remote after key opening went) h.dest)
    attempt-IsTried = elim (connect_cases after key h.dest.remote.client v.linked off opening) [
      | inl e ↦ subst IsTried (sym (begun after key opening h.dest _ false e)) (failed-IsTried _)
      | inr (inl e) ↦
          subst IsTried (sym (begun after key opening h.dest _ false e)) (failed-IsTried _)
      | inr (inr e) ↦
          subst IsTried (sym (begun after key opening h.dest _ true e)) connected-IsTried
    ]

    try_connect-IsInStep : IsInStep config (try_connect config before after key opening bytes h)
    unfolding try_connect IsTried
    try_connect-IsInStep = attempt-IsTried

  pub test_at-IsInStep :
      (p : Phase) (before after key : ℕ) (opening : Opening)
      → h.phase ≡ p
      → IsInStep config (test_at config p before after key opening h)
  unfolding test_at
  test_at-IsInStep (holding bytes) before after key opening e =
      let no_success = ap success_pending e in
      let no_attempt = ap attempt_pending e in
      by_branches (IsInStep config) (is_connected h.dest.remote.client)
        (λ on. kept-IsInStep h.dest (ready bytes) refl refl (sym no_success) (sym no_attempt))
        (λ off.
          by_branches (IsInStep config) (ltb before h.dest.remote.next_connect_time)
            (λ waiting.
              kept-IsInStep h.dest (settled bytes) refl refl (sym no_success) (sym no_attempt))
            (λ late.
              try_connect-IsInStep before after key opening bytes no_success no_attempt off late))
  test_at-IsInStep free before after key opening e = v
  test_at-IsInStep (tried bytes raised) before after key opening e = v
  test_at-IsInStep (judged bytes) before after key opening e = v
  test_at-IsInStep (settled bytes) before after key opening e = v
  test_at-IsInStep (ready bytes) before after key opening e = v

  IsJudged : Bytes → ℕ → Destination SurePath → Type 0
  IsJudged bytes unseen d =
      IsInStep config (record h { dest = d; phase = judged bytes; unseen = unseen })

  judge_raised :
      (bytes : Bytes) (now : ℕ) (error : String)
      → h.phase ≡ tried bytes (some error)
      → IsJudged bytes h.unseen (judge_attempt at_rest now (some error) h.dest)
  unfolding IsJudged
  judge_raised bytes now error e =
      subst (IsJudged bytes h.unseen) (sym (judged_raised at_rest h.dest now error)) (record {
        linked = v.linked;
        within = v.within;
        messages = v.messages;
        bytes = v.bytes;
        attempts = v.attempts;
        successes = omega (arith, v.successes, ap success_pending e);
        failures = omega (arith, v.failures, ap attempt_pending e);
        waits = v.waits;
        punctual = v.punctual;
      })

  judge_returned :
      (bytes : Bytes) (now : ℕ)
      → h.phase ≡ tried bytes none
      → IsJudged bytes (count_unseen none h) (judge_attempt at_rest now none h.dest)
  unfolding IsJudged at_rest surepath_remote
  judge_returned bytes now e = elim (Bool-cases (is_connected h.dest.remote.client)) [
    | inl on ↦
        subst (IsJudged bytes (count_unseen none h)) (sym (judged_connected at_rest h.dest now on))
          (rw on (record {
            linked = v.linked;
            within = v.within;
            messages = v.messages;
            bytes = v.bytes;
            attempts = v.attempts;
            successes = omega (arith, v.successes, ap success_pending e);
            failures = omega (arith, v.failures, ap attempt_pending e);
            waits = v.waits;
            punctual = v.punctual;
          }))
    | inr off ↦
        subst (IsJudged bytes (count_unseen none h)) (sym (judged_lost at_rest h.dest now off)) (
          rw off (record {
            linked = v.linked;
            within = v.within;
            messages = v.messages;
            bytes = v.bytes;
            attempts = v.attempts;
            successes = omega (arith, v.successes, ap success_pending e);
            failures = omega (arith, v.failures, ap attempt_pending e);
            waits = v.waits;
            punctual = v.punctual;
          }))
  ]

  pub judge_at-IsInStep : (p : Phase) (now : ℕ) → h.phase ≡ p → IsInStep config (judge_at p now h)
  unfolding judge_at IsJudged
  judge_at-IsInStep (tried bytes (some error)) now e = judge_raised bytes now error e
  judge_at-IsInStep (tried bytes none) now e = judge_returned bytes now e
  judge_at-IsInStep free now e = v
  judge_at-IsInStep (holding bytes) now e = v
  judge_at-IsInStep (judged bytes) now e = v
  judge_at-IsInStep (settled bytes) now e = v
  judge_at-IsInStep (ready bytes) now e = v

  pub set_time_at-IsInStep :
      (p : Phase) (now : ℕ) → h.phase ≡ p → IsInStep config (set_time_at p now h)
  unfolding set_time_at
  set_time_at-IsInStep (judged bytes) now e =
      elim (Bool-cases (is_connected h.dest.remote.client)) [
        | inl on ↦ rw on (record {
          linked = v.linked;
          within = v.within;
          messages = v.messages;
          bytes = v.bytes;
          attempts = v.attempts;
          successes = omega (arith, v.successes, ap success_pending e);
          failures = omega (arith, v.failures, ap attempt_pending e);
          waits = λ t same. absurd (cc same);
          punctual = v.punctual;
        })
        | inr off ↦ rw off (record {
          linked = v.linked;
          within = v.within;
          messages = v.messages;
          bytes = v.bytes;
          attempts = v.attempts;
          successes = omega (arith, v.successes, ap success_pending e);
          failures = omega (arith, v.failures, ap attempt_pending e);
          waits = λ t same. ground (arith, v.within.at_least, same);
          punctual = v.punctual;
        })
      ]
  set_time_at-IsInStep free now e = v
  set_time_at-IsInStep (holding bytes) now e = v
  set_time_at-IsInStep (tried bytes raised) now e = v
  set_time_at-IsInStep (settled bytes) now e = v
  set_time_at-IsInStep (ready bytes) now e = v

  pub test_again_at-IsInStep : (p : Phase) → h.phase ≡ p → IsInStep config (test_again_at p h)
  unfolding test_again_at
  test_again_at-IsInStep (settled bytes) e =
      by_branches (IsInStep config) (is_connected h.dest.remote.client)
        (λ on.
          kept-IsInStep h.dest (ready bytes) refl refl (sym (ap success_pending e))
            (sym (ap attempt_pending e)))
        (λ off. record {
          linked = v.linked;
          within = v.within;
          messages = v.messages;
          bytes = v.bytes;
          attempts = v.attempts;
          successes = omega (arith, v.successes, ap success_pending e);
          failures = omega (arith, v.failures, ap attempt_pending e);
          waits = v.waits;
          punctual = v.punctual;
        })
  test_again_at-IsInStep free e = v
  test_again_at-IsInStep (holding bytes) e = v
  test_again_at-IsInStep (tried bytes raised) e = v
  test_again_at-IsInStep (judged bytes) e = v
  test_again_at-IsInStep (ready bytes) e = v
