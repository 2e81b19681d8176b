-- ===== src/Api/Lifecycle.antt =====
-- internal/api/server.go and `Stop` of pkg/grpc/server.go: how the REST server starts and stops the
-- monitor and the gRPC server, and what it shows of the monitor. A nil pointer is none.
pub mod Stopped
mod Tests
use event_pool.Prelude.{
  ℕ, List, Bool, true, false, not, ◌&&◌, Option, none, some, if◌then◌else◌, text_eq, length, Dict,
}
use event_pool.Text.{Text, bytes}
use event_pool.Ethereum.Log.{Contract}
use event_pool.Monitor.{
  Monitor, StartResult, started, start_monitor, stop_monitor, is_running, get_active_contract_count,
  get_last_block,
}

-- What of the gRPC server a start and a stop change: the scheduler's channel `shutdown`, and whether it
-- serves.
pub record GrpcServer : Type 0 where
  pub shutdown : Bool
  pub serving : Bool

pub record Server : Type 0 where
  pub monitor : Option Monitor
  pub grpc_server : Option GrpcServer

pub record MonitorStatus : Type 0 where
  pub is_running : Bool
  pub active_contracts : ℕ
  pub last_block : ℕ

-- `none` is the panic at a monitor that is nil.
unfoldable pub get_monitor_status : Server → Option MonitorStatus
unfolding is_running get_active_contract_count get_last_block
get_monitor_status s = elim s.monitor [
  | none ↦ none
  | some m ↦ some (record {
    is_running = is_running m;
    active_contracts = get_active_contract_count m;
    last_block = get_last_block m;
  })
]

-- `/api/v1/monitor/status`: a wrong method, or the status; none is the panic.
unfoldable pub monitor_status_route : Text → Server → Option (Option MonitorStatus)
unfolding get_monitor_status text_eq
monitor_status_route method s =
    if not (text_eq method (bytes "GET"))
    then some none
    else elim (get_monitor_status s) [ none ↦ none | some status ↦ some (some status) ]

-- How `Start` ends: an error of `StartMonitor`, one of the listener, or it serves.
pub data Started : Type 0 where
  not_initialized : Started
  monitor_failed : StartResult → Started
  listen_failed serves : Started

-- `StartMonitor`, on what the monitor's start reads; none is its nil monitor.
unfoldable pub start_server_monitor :
    Option (List Contract) → List (ℕ × Option ℕ) → Server → Option StartResult × Server
unfolding start_monitor
start_server_monitor found latest s = elim s.monitor [
  | none ↦ (none, s)
  | some m ↦
      let (result, m') = start_monitor found latest m in
      (some result, record s { monitor = some m' })
]

abbrev pub serve_grpc : Option GrpcServer → Option GrpcServer
serve_grpc none = none
serve_grpc (some g) = some (record g { serving = true })

-- `Start` of a server that has a gRPC server, which it starts beside itself before it listens.
unfoldable pub start_server :
    Option (List Contract) → List (ℕ × Option ℕ) → Bool → Server → Started × Server
unfolding start_server_monitor
start_server found latest listen_fails s =
    let (result, s') = start_server_monitor found latest s in
    elim result [
      | none ↦ (not_initialized, s')
      | some started ↦ (
        (if listen_fails then listen_failed else serves),
        record s' { grpc_server = serve_grpc s'.grpc_server },
      )
      | some other ↦ (monitor_failed other, s')
    ]

-- `Stop` of the gRPC server; closing `shutdown` twice panics.
unfoldable pub stop_grpc : GrpcServer → Option GrpcServer
stop_grpc g = if g.shutdown then none else some (record { shutdown = true; serving = false })

unfoldable pub stop_monitor_of : Option Monitor → Option Monitor
unfolding stop_monitor
stop_monitor_of none = none
stop_monitor_of (some m) = some (stop_monitor m)

-- `Stop` of the REST server; `none` is the panic.
unfoldable pub stop_server : Server → Option Server
unfolding stop_grpc stop_monitor_of
stop_server s = elim s.grpc_server [
  | none ↦ some (record s { monitor = stop_monitor_of s.monitor })
  | some g ↦ elim (stop_grpc g) [
    | none ↦ none
    | some g' ↦ some (record { monitor = stop_monitor_of s.monitor; grpc_server = some g' })
  ]
]
