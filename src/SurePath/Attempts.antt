-- ===== src/SurePath/Attempts.antt =====
-- connect() in the attempts of
-- src/sp_rtk_base_relay/core/destinations/surepath_destination.py.
use sp_rtk_base_relay.Prelude.{ℕ, ◌+◌, ◌≡◌, ap, String, Bool, Option, none, some, if◌then◌else◌}
use sp_rtk_base_relay.Client.{RtcmClient, Opening, went, connect}
use sp_rtk_base_relay.Destination.{Destination, begin_attempt}
use sp_rtk_base_relay.Destination.Loop.{begun_with}
use sp_rtk_base_relay.SurePath.{SurePath, connect_client, surepath_remote}

-- The destination when connect() has returned this client.
abbrev pub begun_dest : RtcmClient → Destination SurePath → Destination SurePath
begun_dest client d = record d {
  stats = record d.stats { connection_attempts = d.stats.connection_attempts + 1 };
  remote = record d.remote { client = client };
}

abbrev pub raised_of : Bool → Option String
raised_of success = if success then none else some "RTCMClient.connect() failed"

pub begun :
    (after key : ℕ) (opening : Opening) (d : Destination SurePath) (client : RtcmClient)
    (success : Bool)
    → connect after key opening d.remote.client ≡ (client, success)
    → begin_attempt (surepath_remote after key opening went) d
      ≡ (raised_of success, begun_dest client d)
unfolding surepath_remote connect_client
begun after key opening d client success e =
    begun_with (surepath_remote after key opening went) d (raised_of success)
      (record d.remote { client = client })
      (ap (λ (r : RtcmClient × Bool). (raised_of r.1, record d.remote { client = r.0 })) e)
