-- ===== src/Api/Routes.antt =====
-- internal/api/server.go: what a request meets on its way to a handler, by the route that the router
-- picks for it: the middlewares that `Start` puts in front, and the choice by the method. The router is
-- gorilla/mux; Redis, the JWT library and the database are parameters.
pub mod Guarded
mod Tests
use event_pool.Prelude.{
  ℕ, [], ◌∷◌, ◌++◌, List, Bool, true, false, not, Option, none, some, if◌then◌else◌, text_eq,
}
use event_pool.Text.{Text, bytes, to_lower}
use event_pool.Text.Decimal.{print_nat}
use event_pool.Grpc.Auth.{Parser}
use event_pool.Api.Access.{Gate, denied, admitted, auth_middleware, secret_middleware, allow_cors}
use event_pool.Api.RateLimit.{CounterStore, Write, Reply, Request, success_based_middleware}

-- The handler that a request reaches, or how it ends before.
pub data Arrival : Type 0 where
  preflight unauthorized method_not_allowed : Arrival
  registers_contract lists_contracts : Arrival

-- `/api/v1/contracts`
unfoldable pub contracts_route : Text → Text → Text → Arrival
unfolding allow_cors secret_middleware text_eq
contracts_route secret auth_header method = elim (allow_cors method) [
  | denied ↦ preflight
  | admitted _ ↦ elim (secret_middleware secret auth_header) [
    | denied ↦ unauthorized
    | admitted _ ↦
        if text_eq method (bytes "POST")
        then registers_contract
        else if text_eq method (bytes "GET")
        then lists_contracts
        else method_not_allowed
  ]
]

-- What the client of `/api/v1/events` meets: the middlewares, or behind them the reply of the limit.
pub data EventsArrival : Type 0 where
  preflight unauthorized : EventsArrival
  limited : Reply → EventsArrival

abbrev pub events_limit : ℕ
events_limit = 100000

abbrev pub hour : ℕ
hour = 3600

-- The clock and the errors of Redis, and what the handler writes.
pub record EventsEnv : Type 0 where
  pub now : ℕ
  pub get_fails : Bool
  pub exec_fails : Option Bool
  pub writes : List Write

-- `/api/v1/events`, which the router picks for GET only. The address of the context is that of the
-- token.
unfoldable pub events_route :
    (redis : CounterStore)
    → Parser
    → Text
    → Text
    → Text
    → EventsEnv
    → redis.State
    → EventsArrival × redis.State
unfolding allow_cors auth_middleware success_based_middleware
events_route redis parse jwt_secret auth_header method env s = elim (allow_cors method) [
  | denied ↦ (preflight, s)
  | admitted _ ↦ elim (auth_middleware parse jwt_secret auth_header) [
    | denied ↦ (unauthorized, s)
    | admitted address ↦
        let (reply, s') =
          success_based_middleware redis events_limit hour env.writes
            (record {
              address = address;
              now = env.now;
              get_fails = env.get_fails;
              exec_fails = env.exec_fails;
            })
            s in
        (limited reply, s')
  ]
]

-- The answer of `/api/v1/subscribe`.
pub data Subscribed : Type 0 where
  bad_method bad_body unknown_contract : Subscribed
  registered : Text → Subscribed

-- `/api/v1/subscribe` on the body's chain, address and event; the topic is only named in the answer.
unfoldable pub subscribe_route :
    (ℕ → Text → Text → Bool) → Text → Option (ℕ × Text × Text) → Subscribed
unfolding text_eq to_lower print_nat
subscribe_route has_contract method body =
    if not (text_eq method (bytes "POST")) then bad_method else elim body [
      | none ↦ bad_body
      | some (chain_id, address, event_sig) ↦
          if has_contract chain_id (to_lower address) event_sig
          then registered (
              bytes "events/"
              ++ (print_nat chain_id ++ (bytes "/" ++ (address ++ (bytes "/" ++ event_sig)))))
          else unknown_contract
    ]
