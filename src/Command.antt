-- ===== src/Command.antt =====
-- cmd/serve.go: what the command `serve` opens, starts and hands on, and what it stops at its end.
-- What the configuration, Redis, the file of the secret, the database and the nodes answer is an input.
-- Loggers are left out.
pub mod Secrets
pub mod Answers
mod Tests
use event_pool.Prelude.{
  ℕ, List, [], ◌∷◌, ◌++◌, Bool, true, false, Option, none, some, if◌then◌else◌, Dict, lookup,
  insert, nat_Eq,
}
use event_pool.Text.{Text}
use event_pool.Text.Space.{trim_space}

-- `ChainConfig`
pub record ChainConfig : Type 0 where
  pub rpc_url : Text
  pub block_time : ℕ

-- The fields of `Config` that the command reads.
pub record Config : Type 0 where
  pub secret_key : Text
  pub session_contract : Text
  pub node_contract : Text
  pub chain_id : ℕ
  pub chains : Dict ℕ ChainConfig

-- What `os.ReadFile` answers.
pub data FileRead : Type 0 where
  contents : Text → FileRead
  not_exist unreadable : FileRead

pub record Surroundings : Type 0 where
  pub config : Option Config
  pub ping_fails : Bool
  pub secret_file : FileRead
  pub database_fails : Bool
  pub client_fails : ℕ → ChainConfig → Bool

-- The calls that leave something running or open, or end it.
pub data Effect : Type 0 where
  opens_database closes_database : Effect
  starts_producer stops_producer : Effect
  connects : ℕ → Effect
  starts_scheduler starts_worker starts_server stops_server : Effect

-- The secrets that the REST server's configuration and the gRPC server hold, and the chain whose client
-- the gRPC server has; no client is nil.
pub record Wiring : Type 0 where
  pub rest_secret : Text
  pub grpc_secret : Text
  pub gateway_secret : Text
  pub session_client : Option ChainConfig

-- How the command ends: an error, or nil behind the signal.
pub data Served : Type 0 where
  load_failed ping_failed secret_failed database_failed : Served
  client_failed : ℕ → Served
  served : Wiring → Served

-- An error for a file that is there, and no bytes where it is not.
unfoldable pub read_secret : FileRead → Option Text
read_secret (contents secret) = some secret
read_secret not_exist = some []
read_secret unreadable = none

-- The chain whose client failed, or the map of the clients, with the calls.
pub record Connected : Type 0 where
  pub failed : Option ℕ
  pub eth_clients : Dict ℕ ChainConfig
  pub calls : List Effect

-- The loop over the chains, in the order in which the map gives them.
unfoldable pub connect_clients :
    (ℕ → ChainConfig → Bool) → Dict ℕ ChainConfig → Dict ℕ ChainConfig → Connected
connect_clients fails [] clients = record { failed = none; eth_clients = clients; calls = [] }
connect_clients fails ((chain_id, config) ∷ chains) clients =
    let rest = connect_clients fails chains (insert chain_id config clients) in
    if fails chain_id config
    then (record { failed = some chain_id; eth_clients = clients; calls = [] })
    else (record rest { calls = connects chain_id ∷ rest.calls })

-- The secrets as the two servers get them.
unfoldable pub wire : Config → Text → Dict ℕ ChainConfig → Wiring
unfolding trim_space
wire cfg jwt_secret clients = record {
  rest_secret = jwt_secret;
  grpc_secret = trim_space jwt_secret;
  gateway_secret = cfg.secret_key;
  session_client = lookup cfg.chain_id clients;
}

-- What follows the database's opening, up to its deferred close.
unfoldable pub serve_open : Config → Text → (ℕ → ChainConfig → Bool) → Served × List Effect
unfolding connect_clients wire
serve_open cfg jwt_secret client_fails =
    let connected = connect_clients client_fails cfg.chains [] in
    elim connected.failed [
      | some chain_id ↦ (client_failed chain_id, starts_producer ∷ connected.calls)
      | none ↦ (
        served (wire cfg jwt_secret connected.eth_clients),
        starts_producer
            ∷ (connected.calls
                ++ starts_scheduler ∷ starts_worker ∷ starts_server ∷ stops_producer ∷ stops_server
                  ∷ []),
      )
    ]

-- `RunServe`
unfoldable pub run_serve : Surroundings → Served × List Effect
unfolding read_secret serve_open
run_serve around = elim around.config [
  | none ↦ (load_failed, [])
  | some cfg ↦
      if around.ping_fails then (ping_failed, []) else elim (read_secret around.secret_file) [
        | none ↦ (secret_failed, [])
        | some jwt_secret ↦
            if around.database_fails
            then (database_failed, [])
            else (let (ending, calls) = serve_open cfg jwt_secret around.client_fails in
                (ending, opens_database ∷ (calls ++ closes_database ∷ [])))
      ]
]
