-- ===== src/Api/RateLimit.antt =====
-- internal/api/rate_limit.go: how many requests of an address are let through.
-- Redis is a parameter, with what `INCR` changes for a later `GET` while nothing expires; its errors,
-- the clock and what the next handler writes are inputs. Counts and the limit are not negative.
pub mod Quota
mod Tests
use event_pool.Prelude.{
  ℕ, suc, ◌+◌, ◌-◌, List, [], ◌∷◌, ◌++◌, Bool, true, false, ◌&&◌, Option, none, some, if◌then◌else◌,
  ltb, leb, nat_eq, text_eq, ◌≡◌,
}
use event_pool.Text.{Text, bytes}

abbrev pub or_zero : Option ℕ → ℕ
or_zero none = 0
or_zero (some n) = n

-- `Get` of a counter, with none for `redis.Nil`, and the pipeline of `Incr` and `Expire`.
pub record CounterStore : Type 1 where
  pub State : Type 0
  pub get : Text → State → Option ℕ
  pub increment : Text → ℕ → State → State
  pub get-increment :
      (k j : Text) (window : ℕ) (s : State)
      → get j (increment k window s)
        ≡ (if text_eq k j then some (suc (or_zero (get k s))) else get j s)

-- The headers `X-RateLimit-Limit`, `-Remaining` and `-Reset`.
pub record Headers : Type 0 where
  pub limit : ℕ
  pub remaining : ℕ
  pub reset : Option ℕ

pub data Reply : Type 0 where
  unauthorized internal_error : Reply
  limit_exceeded : Headers → Reply
  passed_on : Headers → Reply

-- The address that the context holds, the clock, whether `Get` fails, and whether the pipeline fails,
-- with whether it has counted before.
pub record Request : Type 0 where
  pub address : Option Text
  pub now : ℕ
  pub get_fails : Bool
  pub exec_fails : Option Bool

unfoldable pub rate_limit_key : Text → Text
rate_limit_key address = bytes "rate_limit:" ++ address

unfoldable pub query_count_key : Text → Text
query_count_key address = bytes "query_count:" ++ address

-- The code that a `statusResponseWriter` holds, 0 before anything is written.
unfoldable pub write_header : ℕ → ℕ → ℕ
write_header code status = code

unfoldable pub write_body : ℕ → ℕ
write_body status = if nat_eq status 0 then 200 else status

-- What a handler calls.
pub data Write : Type 0 where
  header : ℕ → Write
  body : Write

unfoldable pub captured_status : List Write → ℕ → ℕ
unfolding write_header write_body
captured_status [] status = status
captured_status (header code ∷ writes) status = captured_status writes (write_header code status)
captured_status (body ∷ writes) status = captured_status writes (write_body status)

module _ (redis : CounterStore) where
  open redis use {State, get, increment}

  -- The pipeline; the Boolean says whether it went through.
  unfoldable pub count_request : Text → ℕ → Option Bool → State → Bool × State
  count_request key window none s = (true, increment key window s)
  count_request key window (some true) s = (false, increment key window s)
  count_request key window (some false) s = (false, s)

  -- `rateLimitMiddleware`
  unfoldable pub rate_limit_middleware : ℕ → ℕ → Request → State → Reply × State
  unfolding rate_limit_key count_request
  rate_limit_middleware limit window r s = elim r.address [
    | none ↦ (unauthorized, s)
    | some address ↦
        if r.get_fails
        then (internal_error, s)
        else (let key = rate_limit_key address in
            let count = or_zero (get key s) in
            if leb limit count
            then (
              limit_exceeded
                  (record { limit = limit; remaining = 0; reset = some (r.now + window) }),
              s,
            )
            else (let (ran, s') = count_request key window r.exec_fails s in
                if ran
                then (
                  passed_on (record {
                    limit = limit;
                    remaining = limit - count - 1;
                    reset = some (r.now + window);
                  }),
                  s',
                )
                else (internal_error, s')))
  ]

  -- `queryCounterMiddleware`: the count that the header shows, none without the header.
  unfoldable pub query_counter_middleware : ℕ → Request → State → Option (Option ℕ) × State
  unfolding query_count_key count_request
  query_counter_middleware day r s = elim r.address [
    | none ↦ (none, s)
    | some address ↦
        let key = query_count_key address in
        let (ran, s') = count_request key day r.exec_fails s in
        (some (if ran then get key s' else none), s')
  ]

  -- `successBasedRateLimitMiddleware`, on what the next handler writes. The headers are those before
  -- the handler; the one behind it comes after the response was sent.
  unfoldable pub success_based_middleware : ℕ → ℕ → List Write → Request → State → Reply × State
  unfolding rate_limit_key count_request captured_status
  success_based_middleware limit window writes r s = elim r.address [
    | none ↦ (unauthorized, s)
    | some address ↦
        if r.get_fails
        then (internal_error, s)
        else (let key = rate_limit_key address in
            let count = or_zero (get key s) in
            if leb limit count
            then (
              limit_exceeded
                  (record { limit = limit; remaining = 0; reset = some (r.now + window) }),
              s,
            )
            else (let status = captured_status writes 0 in
                let headers : Headers = record {
                  limit = limit;
                  remaining = limit - count;
                  reset = none;
                } in
                (
                  passed_on headers,
                  if leb 200 status && ltb status 300
                      then (count_request key window r.exec_fails s).1
                      else s,
                )))
  ]
