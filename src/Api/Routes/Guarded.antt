-- ===== src/Api/Routes/Guarded.antt =====
-- Which requests reach the handlers of the contracts and the events.
use event_pool.Prelude.{
  ℕ, ◌<◌, ◌≡◌, refl, ap, sym, subst, ◌∙◌, ◌≢◌, ◌↔◌, ◌⊎◌, inl, inr, [], ◌∷◌, true, false, none, some,
  arith, if◌then◌else◌, text_eq, text_eq_iff, leb, Bool-cases, Option-cases, List,
}
use event_pool.Text.{Text, bytes, to_lower}
use event_pool.Grpc.Auth.{Parser, token, Claims}
use event_pool.Api.Access.{Gate, denied, admitted, auth_middleware, secret_middleware, allow_cors}
use event_pool.Api.Access.Admission.{
  Carries, bare, secret_middleware-admits, auth_middleware-admits,
}
use event_pool.Api.RateLimit.{
  CounterStore, or_zero, rate_limit_key, Reply, Request, Write, passed_on, Headers,
  success_based_middleware,
}
use event_pool.Api.Routes.{
  Arrival, preflight, unauthorized, method_not_allowed, registers_contract, lists_contracts,
  contracts_route, EventsArrival, limited, events_limit, hour, EventsEnv, events_route,
}

-- The gate of the secret has two answers.
secret-cases :
    (secret auth_header : Text)
    → (secret_middleware secret auth_header ≡ denied)
      ⊎ (secret_middleware secret auth_header ≡ admitted none)
unfolding secret_middleware
secret-cases secret [] = inl refl
secret-cases secret (c ∷ cs) = elim (Bool-cases (text_eq (bare (c ∷ cs)) secret)) [
  | inl e ↦ inr (rw (e, secret_middleware) refl)
  | inr e ↦ inl (rw (e, secret_middleware) refl)
]

abbrev by_method : Text → Arrival
by_method method =
    if text_eq method (bytes "POST")
    then registers_contract
    else if text_eq method (bytes "GET")
    then lists_contracts
    else method_not_allowed

-- The three ends of the route.
route-cases :
    (secret auth_header method : Text)
    → (contracts_route secret auth_header method ≡ preflight)
      ⊎ ((contracts_route secret auth_header method ≡ unauthorized)
          ⊎ ((contracts_route secret auth_header method ≡ by_method method)
              × (secret_middleware secret auth_header ≡ admitted none)))
unfolding contracts_route allow_cors
route-cases secret auth_header method = elim (Bool-cases (text_eq method (bytes "OPTIONS"))) [
  | inl e ↦ inl (rw (e, contracts_route) refl)
  | inr e ↦ elim (secret-cases secret auth_header) [
    | inl f ↦ inr (inl (rw (e, f, contracts_route) refl))
    | inr f ↦ inr (inr (rw (e, f, contracts_route) refl, f))
  ]
]

posts : (method : Text) → by_method method ≡ registers_contract → method ≡ bytes "POST"
posts method h = elim (Bool-cases (text_eq method (bytes "POST"))) [
  | inl e ↦ (text_eq_iff method (bytes "POST")).0 e
  | inr e ↦ elim (Bool-cases (text_eq method (bytes "GET"))) [
    | inl f ↦ cc (rw (e, f) at h)
    | inr f ↦ cc (rw (e, f) at h)
  ]
]

gets : (method : Text) → by_method method ≡ lists_contracts → method ≡ bytes "GET"
gets method h = elim (Bool-cases (text_eq method (bytes "POST"))) [
  | inl e ↦ cc (rw e at h)
  | inr e ↦ elim (Bool-cases (text_eq method (bytes "GET"))) [
    | inl f ↦ (text_eq_iff method (bytes "GET")).0 f
    | inr f ↦ cc (rw (e, f) at h)
  ]
]

reached :
    (secret auth_header method : Text) (a : Arrival)
    → (a ≡ registers_contract) ⊎ (a ≡ lists_contracts)
    → contracts_route secret auth_header method ≡ a
    → (by_method method ≡ a) × (secret_middleware secret auth_header ≡ admitted none)
reached secret auth_header method a either h = elim (route-cases secret auth_header method) [
  | inl e ↦ elim either [ inl f ↦ cc | inr f ↦ cc ]
  | inr (inl e) ↦ elim either [ inl f ↦ cc | inr f ↦ cc ]
  | inr (inr (e, f)) ↦ (sym e ∙ h, f)
]

-- A request for the contracts reaches their registration exactly where its method is POST, and their
-- list exactly where it is GET, and its header is the secret, with `Bearer ` before it or without.
pub contracts_route-reaches :
    (secret auth_header method : Text)
    → ((contracts_route secret auth_header method ≡ registers_contract)
        ↔ ((method ≡ bytes "POST") × (auth_header ≢ []) × Carries auth_header secret))
      × ((contracts_route secret auth_header method ≡ lists_contracts)
          ↔ ((method ≡ bytes "GET") × (auth_header ≢ []) × Carries auth_header secret))
unfolding contracts_route allow_cors text_eq
contracts_route-reaches secret auth_header method = (
  (
    λ h.
        let (e, f) = reached secret auth_header method registers_contract (inl refl) h in
        let (there, carries) = (secret_middleware-admits secret auth_header).0 f in
        (posts method e, there, carries),
    λ (e, there, carries).
        let f = (secret_middleware-admits secret auth_header).1 (there, carries) in
        subst (λ m. contracts_route secret auth_header m ≡ registers_contract) (sym e)
          (rw (f, contracts_route) refl),
  ),
  (
    λ h.
        let (e, f) = reached secret auth_header method lists_contracts (inr refl) h in
        let (there, carries) = (secret_middleware-admits secret auth_header).0 f in
        (gets method e, there, carries),
    λ (e, there, carries).
        let f = (secret_middleware-admits secret auth_header).1 (there, carries) in
        subst (λ m. contracts_route secret auth_header m ≡ lists_contracts) (sym e)
          (rw (f, contracts_route) refl),
  ),
)

-- What the limit lets through, it has counted below the limit.
let_through :
    (redis : CounterStore) (limit window : ℕ) (writes : List Write) (r : Request)
    (s s' : redis.State) (h : Headers)
    → success_based_middleware redis limit window writes r s ≡ (passed_on h, s')
    → (address : Text) × (r.address ≡ some address)
      × (or_zero (redis.get (rate_limit_key address) s) < limit)
unfolding success_based_middleware
let_through redis limit window writes r s s' h e = elim (Option-cases r.address) [
  | inl f ↦ cc (rw (f, success_based_middleware) at e)
  | inr (address, f) ↦ elim (Bool-cases r.get_fails) [
    | inl g ↦ cc (rw (f, g, success_based_middleware) at e)
    | inr g ↦ elim (Bool-cases (leb limit (or_zero (redis.get (rate_limit_key address) s)))) [
      | inl k ↦ cc (rw (f, g, k, success_based_middleware) at e)
      | inr k ↦ (address, f, ground arith)
    ]
  ]
]

abbrev reply_of : EventsArrival → Reply
reply_of (limited reply) = reply
reply_of _ = Reply.unauthorized

-- A request for the events that is passed on to their handler has a header whose token, behind `Bearer `
-- or bare, the library parses to valid claims, and the requests counted for the address of the claims,
-- in lower case, are fewer than 100000.
pub events_route-guards :
    (redis : CounterStore) (parse : Parser) (jwt_secret auth_header method : Text) (env : EventsEnv)
    (s s' : redis.State) (h : Headers)
    → events_route redis parse jwt_secret auth_header method env s ≡ (limited (passed_on h), s')
    → (claims : Claims) × (parse (bare auth_header) jwt_secret ≡ token claims true)
      × (or_zero (redis.get (rate_limit_key (to_lower claims.address)) s) < 100000)
unfolding events_route allow_cors
events_route-guards redis parse jwt_secret auth_header method env s s' h e =
    elim (Bool-cases (text_eq method (bytes "OPTIONS"))) [
      | inl f ↦ cc (ap (λ r. r.0) (rw (f, events_route) at e))
      | inr f ↦ admits f (auth_middleware parse jwt_secret auth_header) refl
    ]
  where
    admits :
        text_eq method (bytes "OPTIONS") ≡ false
        → (gate : Gate) → auth_middleware parse jwt_secret auth_header ≡ gate
        → (claims : Claims) × (parse (bare auth_header) jwt_secret ≡ token claims true)
          × (or_zero (redis.get (rate_limit_key (to_lower claims.address)) s) < 100000)
    admits f denied g = cc (ap (λ r. r.0) (rw (f, g, events_route) at e))
    admits f (admitted address) g =
        let r : Request = record {
          address = address;
          now = env.now;
          get_fails = env.get_fails;
          exec_fails = env.exec_fails;
        } in
        let passed : success_based_middleware redis events_limit hour env.writes r s
            ≡ (passed_on h, s') =
          ap (λ (x : EventsArrival × redis.State). (reply_of x.0, x.1))
            (rw (f, g, events_route) at e) in
        let (a, q, few) = let_through redis events_limit hour env.writes r s s' h passed in
        let (_, (claims, parsed, lower)) =
          (auth_middleware-admits parse jwt_secret auth_header a).0 (g ∙ ap admitted q) in
        (claims, parsed, rw lower few)
