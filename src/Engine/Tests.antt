-- ===== src/Engine/Tests.antt =====
-- An engine of src/sp_rtk_base_relay/engine.py for a serial input and one kind of destination.
use sp_rtk_base_relay.Prelude.{
  ℕ, ◌≡◌, refl, String, true, false, none, some, List, [], ◌∷◌, Bool, Option, ◌∙◌, sym, ap,
  if◌then◌else◌,
}
use sp_rtk_base_relay.Prelude.Text.{same_text}
use sp_rtk_base_relay.Prelude.Int.{pos}
use sp_rtk_base_relay.Filter.{FilterConfig, pass_all}
use sp_rtk_base_relay.Config.Destinations.{DestinationConfig, tcp_server}
use sp_rtk_base_relay.Destination.{Destination, Remote, init, run_loop, default_queue_size}
use sp_rtk_base_relay.Factory.{Builder, Builders, get_builder, done}
use sp_rtk_base_relay.Factory.Creation.{KeepsNames}
use sp_rtk_base_relay.InputFactory.{InputFactory}
use sp_rtk_base_relay.Hub.Input.{InputSource, Attempt, accepted, refused, default_reconnect_policy}
use sp_rtk_base_relay.Hub.Feed.{Reading, data_read}
use sp_rtk_base_relay.Engine.{RelayEngine, new_engine, start}
use sp_rtk_base_relay.Engine.Running.{IsSteady, stay, idle}
use sp_rtk_base_relay.Engine.Runs.{
  Call, starts, stops, adds, removes, starts_one, stops_one, subscribes, closes, round, quiet_round,
  input_turn, run, run-IsSteady,
}
use sp_rtk_base_relay.Engine.Naming.{IsNamed, start-IsNamed}

abbrev serial : Attempt → InputSource ℕ
serial attempt = record {
  source_type = "serial";
  connect = λ n. (attempt, 1);
  disconnect = λ n. 0;
  is_connected = λ n. false;
  last_error = λ n. none;
  last_failure_persistent = λ n. false;
  reconnect_policy = default_reconnect_policy;
}

-- The configuration is the speed.
abbrev inputs : InputFactory ℕ ℕ ℕ
inputs = record {
  source_types = ("serial", λ config. some 0) ∷ [];
  config_builders = ("serial", λ speed. some speed) ∷ [];
}

abbrev remote : Remote ℕ
remote = record {
  connect = λ n. (none, n);
  disconnect = λ n. n;
  send_data = λ bytes n. (none, n);
  is_connected = λ n. true;
}

abbrev settings : String → DestinationConfig
settings name = record {
  name = name;
  dest_type = "tcp_server";
  enabled = true;
  filter = record { mode = pass_all; message_ids = [] };
  config = tcp_server (record { host = "0.0.0.0"; port = pos 2101; max_clients = pos 5 });
}

abbrev everything : FilterConfig
everything = record { mode = pass_all; message_ids = [] }

abbrev build : Builder ℕ
build c = done (init c.name "tcp_server" everything default_queue_size 0)

abbrev builders : Builders ℕ
builders = ("tcp_server", build) ∷ []

is_build :
    (b : Bool) (builder : Builder ℕ)
    → ◌≡◌ {A = Option (Builder ℕ)} (if b then some build else none) (some builder)
    → ◌≡◌ {A = Builder ℕ} build builder
is_build true builder h = cc h
is_build false builder h = absurd (cc h)

builders-KeepsNames : KeepsNames builders
unfolding get_builder init
builders-KeepsNames c builder built found h =
    let same = is_build (same_text "tcp_server" c.dest_type) builder found in
    let is_built : init c.name "tcp_server" everything default_queue_size 0 ≡ built =
      cc (ap (λ (f : Builder ℕ). f c) same ∙ h) in
    sym (ap (λ (d : Destination ℕ). d.name) is_built)

abbrev reading : ℕ → Reading × ℕ
reading n = (data_read (0xD3 ∷ []), n)

abbrev engine : RelayEngine ℕ ℕ ℕ
engine = new_engine "serial" 115200

engine-IsSteady : IsSteady engine
unfolding new_engine
engine-IsSteady = record {
  followed = stay idle;
  has_hub = λ on. cc on;
  has_source = λ on. cc on;
  no_run = λ off. tt;
}

abbrev calls : List Call
calls =
    starts "no answer" 5 (settings "first" ∷ settings "second" ∷ [])
    ∷ subscribes 1 none
    ∷ round 6 (0xD3 ∷ 0x00 ∷ [])
    ∷ adds (settings "third")
    ∷ adds (settings "first")
    ∷ stops_one "second"
    ∷ removes "first"
    ∷ starts_one "second"
    ∷ closes 1
    ∷ quiet_round 50
    ∷ input_turn (record { items = []; maxsize = 10 }) "no answer" (false ∷ [])
    ∷ stops
    ∷ adds (settings "fourth")
    ∷ starts "no answer" 60 []
    ∷ []

run-IsSteady_example :
    IsSteady
      (run (serial accepted) inputs builders remote (run_loop remote (7 ∷ [])) reading engine calls)
run-IsSteady_example =
    run-IsSteady (serial accepted) inputs builders remote (run_loop remote (7 ∷ [])) reading engine
      calls engine-IsSteady

start-IsNamed_example :
    let (e', raised) =
      start (serial refused) "no answer" 5 inputs builders (settings "first" ∷ []) engine in
    IsNamed (settings "first" ∷ []) engine e' raised
unfolding new_engine
start-IsNamed_example =
    start-IsNamed builders builders-KeepsNames (serial refused) "no answer" 5 inputs
      (settings "first" ∷ []) engine refl
