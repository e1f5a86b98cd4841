-- ===== src/Factory/Tests.antt =====
-- Two destinations, one of them disabled, from one registered builder.
use sp_rtk_base_relay.Prelude.{ℕ, ◌≡◌, ◌≢◌, ◌↔◌, refl, String, Bool, true, false, List, [], ◌∷◌}
use sp_rtk_base_relay.Prelude.Int.{pos}
use sp_rtk_base_relay.Filter.{pass_all}
use sp_rtk_base_relay.Destination.{Destination, init, default_queue_size}
use sp_rtk_base_relay.Config.Destinations.{DestinationConfig, tcp_server}
use sp_rtk_base_relay.Factory.{
  unregister, get_available_types, done, raises, configuration_error, Builders, register,
  create_all,
}
use sp_rtk_base_relay.Factory.Creation.{wanted, AreBuilt, create_all_iff}

abbrev settings : String → Bool → DestinationConfig
settings name enabled = record {
  name = name;
  dest_type = "tcp_server";
  enabled = enabled;
  filter = record { mode = pass_all; message_ids = [] };
  config = tcp_server (record { host = "0.0.0.0"; port = pos 2101; max_clients = pos 5 });
}

abbrev built : String → Destination ℕ
built name =
    init name "tcp_server" (record { mode = pass_all; message_ids = [] }) default_queue_size 0

abbrev builders : Builders ℕ
builders = ("tcp_server", λ c. done (built c.name)) ∷ []

abbrev two_settings : List DestinationConfig
two_settings = settings "first" false ∷ settings "second" true ∷ []

registered : register "tcp_server" (λ c. done (built c.name)) [] ≡ done builders
unfolding register
registered = refl

registered_then_not :
    (unregister "tcp_server" builders ≡ ([], true))
    × (unregister "ntrip" builders ≡ (builders, false))
    × (get_available_types builders ≡ "tcp_server" ∷ [])
unfolding unregister
registered_then_not = (refl, refl, refl)

one_created : create_all builders true two_settings ≡ done (built "second" ∷ [])
unfolding create_all init
one_created = refl

none_created :
    create_all builders true (settings "first" false ∷ [])
    ≡ raises (configuration_error "No destinations to create (all disabled?)")
unfolding create_all
none_created = refl

create_all_iff_example : (create_all builders true two_settings ≡ done (built "second" ∷ [])) ↔ (
    AreBuilt builders (wanted true two_settings) (built "second" ∷ []) × (built "second" ∷ [] ≢ []))
create_all_iff_example = create_all_iff builders true two_settings (built "second" ∷ [])
