-- ===== src/Api/Routes/Tests.antt =====
-- Requests for the contracts and the events, with a header each.
use event_pool.Prelude.{
  ℕ, suc, ◌<◌, ◌≡◌, ◌↔◌, ◌≢◌, refl, [], ◌∷◌, Bool, true, false, Option, none, some, text_eq,
  if◌then◌else◌,
}
use event_pool.Text.{Text, bytes, has_prefix, trim_prefix, to_lower}
use event_pool.Text.Decimal.{print_nat, print_loop}
use event_pool.Grpc.Auth.{Claims, Parser, failed, token, validate_jwt}
use event_pool.Api.Access.{allow_cors, auth_middleware}
use event_pool.Api.Access.Admission.{Carries, bare}
use event_pool.Api.RateLimit.{
  CounterStore, or_zero, rate_limit_key, passed_on, Headers, body, success_based_middleware,
  count_request, captured_status, write_body,
}
use event_pool.Api.Routes.{
  registers_contract, lists_contracts, contracts_route, limited, EventsEnv, events_route,
  registered, subscribe_route,
}
use event_pool.Api.Routes.Guarded.{contracts_route-reaches, events_route-guards}

contracts_route-reaches_example :
    ((contracts_route (bytes "k") (bytes "Bearer k") (bytes "GET") ≡ registers_contract) ↔ (
      (bytes "GET" ≡ bytes "POST")
      × (bytes "Bearer k" ≢ [])
      × Carries (bytes "Bearer k") (bytes "k")))
    × ((contracts_route (bytes "k") (bytes "Bearer k") (bytes "GET") ≡ lists_contracts) ↔ (
        (bytes "GET" ≡ bytes "GET")
        × (bytes "Bearer k" ≢ [])
        × Carries (bytes "Bearer k") (bytes "k")))
contracts_route-reaches_example =
    contracts_route-reaches (bytes "k") (bytes "Bearer k") (bytes "GET")

abbrev parse : Parser
parse given secret =
    if text_eq given (bytes "t")
    then token (record { address = bytes "0xA1"; expires_at = 9 }) true
    else failed

-- Counters by their key.
abbrev no_counters : CounterStore
no_counters = record {
  State = Text → ℕ;
  get = λ k s. some (s k);
  increment = λ k window s j. if text_eq k j then suc (s k) else s j;
  get-increment = λ k j window s. counted (text_eq k j) (s k) (s j);
}
  where
    counted :
        (b : Bool) (n m : ℕ)
        → ◌≡◌ {A = Option ℕ} (some (if b then suc n else m)) (if b then some (suc n) else some m)
    counted true n m = refl
    counted false n m = refl

abbrev env : EventsEnv
env = record { now = 5; get_fails = false; exec_fails = some false; writes = body ∷ [] }

abbrev headers : Headers
headers = record { limit = 100000; remaining = 100000; reset = none }

serves :
    events_route no_counters parse (bytes "s") (bytes "Bearer t") (bytes "GET") env (λ k. 0)
    ≡ (limited (passed_on headers), λ k. 0)
unfolding events_route allow_cors auth_middleware validate_jwt has_prefix trim_prefix text_eq
    success_based_middleware count_request captured_status write_body
serves = refl

events_route-guards_example :
    (claims : Claims) × (parse (bare (bytes "Bearer t")) (bytes "s") ≡ token claims true)
    × (or_zero (no_counters.get (rate_limit_key (to_lower claims.address)) (λ k. 0)) < 100000)
events_route-guards_example =
    events_route-guards no_counters parse (bytes "s") (bytes "Bearer t") (bytes "GET") env (λ k. 0)
      (λ k. 0) headers serves

subscribed :
    subscribe_route
      (λ chain address event. true)
      (bytes "POST")
      (some (39, bytes "0xA1", bytes "0xdd"))
    ≡ registered (bytes "events/39/0xA1/0xdd")
unfolding subscribe_route print_nat print_loop
subscribed = refl
