-- ===== src/Api/Lifecycle/Tests.antt =====
-- A server over an empty database, and one without a monitor.
use event_pool.Prelude.{◌≡◌, refl, [], true, false, none, some}
use event_pool.Text.{bytes}
use event_pool.Monitor.{
  Monitor, new_monitor, start_monitor, launch_all, initial_blocks, get_last_block,
}
use event_pool.Api.Lifecycle.{
  GrpcServer, Server, get_monitor_status, monitor_status_route, serves, start_server,
  start_server_monitor, stop_server,
}
use event_pool.Api.Lifecycle.Stopped.{start_server-stop_server}

abbrev grpc : GrpcServer
grpc = record { shutdown = false; serving = false }

abbrev server : Server
server = record { monitor = some new_monitor; grpc_server = some grpc }

abbrev serving : Server
serving = record {
  monitor = some (record {
    running = true;
    monitors = [];
    last_blocks = [];
    backfilling = [];
    ready_for_monitoring = [];
    goroutines = [];
    cancelled = [];
    next_context = 0;
  });
  grpc_server = some (record { shutdown = false; serving = true });
}

begins : start_server (some []) [] false server ≡ (serves, serving)
unfolding start_server start_server_monitor start_monitor launch_all initial_blocks new_monitor
begins = refl

-- The endpoint panics where the monitor is nil.
no_monitor :
    monitor_status_route (bytes "GET") (record { monitor = none; grpc_server = none }) ≡ none
unfolding monitor_status_route get_monitor_status
no_monitor = refl

start_server-stop_server_example :
    (m : Monitor) × (serving.monitor ≡ some m)
    × (m.running ≡ true)
    × (s'' : Server) × (stop_server serving ≡ some s'')
    × (get_monitor_status s''
        ≡ some (record { is_running = false; active_contracts = 0; last_block = get_last_block m }))
    × (stop_server s'' ≡ none)
start_server-stop_server_example =
    start_server-stop_server (some []) [] server serving grpc refl refl begins
