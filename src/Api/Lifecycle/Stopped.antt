-- ===== src/Api/Lifecycle/Stopped.antt =====
-- What a stop of the server leaves.
use event_pool.Prelude.{
  ℕ, ◌≡◌, refl, ap, ◌∙◌, inl, inr, List, [], ◌∷◌, true, false, Option, none, some, arith,
  Option-cases,
}
use event_pool.Ethereum.Log.{Contract}
use event_pool.Monitor.{
  Monitor, launch, launch_all, started, initial_blocks, start_monitor, stop_monitor, is_running,
  get_active_contract_count, get_last_block,
}
use event_pool.Api.Lifecycle.{
  GrpcServer, Server, get_monitor_status, serves, start_server, start_server_monitor, stop_grpc,
  stop_monitor_of, stop_server, serve_grpc,
}

launch_all-running : (cs : List Contract) (m : Monitor) → (launch_all cs m).running ≡ m.running
unfolding launch_all launch
launch_all-running [] m = refl
launch_all-running (c ∷ cs) m = launch_all-running cs (launch c.id m)

start_monitor-running :
    (found : Option (List Contract)) (latest : List (ℕ × Option ℕ)) (m m' : Monitor)
    → start_monitor found latest m ≡ (started, m')
    → m'.running ≡ true
unfolding start_monitor
start_monitor-running none latest m m' e = ground arith
start_monitor-running (some cs) latest m m' e =
    let begun =
      launch_all-running cs
        (record m { running = true; last_blocks = initial_blocks latest m.last_blocks }) in
    ground (arith, begun)

start_server-serves :
    (found : Option (List Contract)) (latest : List (ℕ × Option ℕ)) (s s' : Server)
    → start_server found latest false s ≡ (serves, s')
    → (m : Monitor) × (s'.monitor ≡ some m)
      × (m.running ≡ true)
      × (s'.grpc_server ≡ serve_grpc s.grpc_server)
unfolding start_server start_server_monitor
start_server-serves found latest s s' e = elim (Option-cases s.monitor) [
  | inl missing ↦ ground arith
  | inr (m, there) ↦
      let begun : start_monitor found latest m ≡ (started, (start_monitor found latest m).1) =
        ground arith in
      (
        (start_monitor found latest m).1,
        ground arith,
        start_monitor-running found latest m (start_monitor found latest m).1 begun,
        ground arith,
      )
]

-- A server that has served, on whatever the database and the nodes answered, stops once: the status is
-- then that of no running monitor and no contract, with the last block kept; a second stop panics.
pub start_server-stop_server :
    (found : Option (List Contract)) (latest : List (ℕ × Option ℕ)) (s s' : Server) (g : GrpcServer)
    → s.grpc_server ≡ some g
    → g.shutdown ≡ false
    → start_server found latest false s ≡ (serves, s')
    → (m : Monitor) × (s'.monitor ≡ some m)
      × (m.running ≡ true)
      × (s'' : Server) × (stop_server s' ≡ some s'')
      × (get_monitor_status s''
          ≡ some
              (record { is_running = false; active_contracts = 0; last_block = get_last_block m }))
      × (stop_server s'' ≡ none)
unfolding start_server start_server_monitor stop_server stop_grpc stop_monitor_of stop_monitor
    get_monitor_status is_running get_active_contract_count get_last_block
start_server-stop_server found latest s s' g have open_ e =
    let (m, there, on, grpc) = start_server-serves found latest s s' e in
    let served : s'.grpc_server ≡ some (record g { serving = true }) = grpc ∙ ap serve_grpc have in
    let stopped : Server = record {
      monitor = some (stop_monitor m);
      grpc_server = some (record { shutdown = true; serving = false });
    } in
    (m, there, on, stopped, ground arith, ground arith, refl)
