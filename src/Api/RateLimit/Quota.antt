-- ===== src/Api/RateLimit/Quota.antt =====
-- How many requests of an address succeed in a run of requests within one window.
use event_pool.Prelude.{
  ℕ, suc, ◌+◌, ◌-◌, ◌≡◌, refl, ap, ◌∙◌, inl, inr, List, [], ◌∷◌, Bool, true, false, not, ◌&&◌,
  Option, none, some, arith, if◌then◌else◌, ltb, leb, All, text_eq, text_eq_iff, Bool-cases,
}
use event_pool.Text.{Text}
use event_pool.Api.RateLimit.{
  or_zero, CounterStore, Reply, passed_on, Request, Write, rate_limit_key, captured_status,
  count_request, success_based_middleware,
}

-- Whether the handler's response is a success to the middleware.
abbrev pub succeeds : List Write → Bool
succeeds writes = leb 200 (captured_status writes 0) && ltb (captured_status writes 0) 300

abbrev pub is_passed_on : Reply → Bool
is_passed_on (passed_on h) = true
is_passed_on _ = false

abbrev owned_by : Text → Option Text → Bool
owned_by a none = false
owned_by a (some b) = text_eq b a

-- A request of the address whose handler would succeed.
abbrev pub counts_for : Text → Request × List Write → Bool
counts_for a (r, writes) = owned_by a r.address && succeeds writes

-- How many of the requests are such ones.
abbrev pub wanted : Text → List (Request × List Write) → ℕ
wanted a [] = 0
wanted a (x ∷ xs) = (if counts_for a x then 1 else 0) + wanted a xs

-- The request has an address, and Redis does not fail on it.
abbrev pub IsServed : Request × List Write → Type 0
IsServed (r, writes) =
    (r.get_fails ≡ false) × (r.exec_fails ≡ none) × ((b : Text) × (r.address ≡ some b))

rate_limit_key-eq : (b a : Text) → text_eq (rate_limit_key b) (rate_limit_key a) ≡ text_eq b a
unfolding rate_limit_key text_eq
rate_limit_key-eq b a = refl

-- One request before a run: `below` of it are granted, `before` and `after` count the address.
add_request :
    (counts own ok passed : Bool) (limit other before after want below : ℕ)
    → counts ≡ (own && ok)
    → (own ≡ true → other ≡ before)
    → passed ≡ not (leb limit other)
    → after ≡ (if own && (ok && not (leb limit other)) then suc other else before)
    → below ≡ (if ltb want (limit - after) then want else limit - after)
    → (if counts && passed then 1 else 0) + below ≡ (
        if ltb ((if counts then 1 else 0) + want) (limit - before)
        then (if counts then 1 else 0) + want
        else limit - before)
add_request counts own ok passed limit other before after want below c same p a h = ground arith

module _ (redis : CounterStore) (limit window : ℕ) where
  -- How many of them succeed when each follows the one before.
  abbrev pub granted : Text → List (Request × List Write) → redis.State → ℕ
  granted a [] s = 0
  granted a ((r, writes) ∷ xs) s =
      let (reply, s') = success_based_middleware redis limit window writes r s in
      (if counts_for a (r, writes) && is_passed_on reply then 1 else 0) + granted a xs s'

  abbrev pub used : Text → redis.State → ℕ
  used a s = or_zero (redis.get (rate_limit_key a) s)

  used-increment :
      (a b : Text) (s : redis.State)
      → used a (redis.increment (rate_limit_key b) window s)
        ≡ (if text_eq b a then suc (used b s) else used a s)
  used-increment a b s =
      ap or_zero (redis.get-increment (rate_limit_key b) (rate_limit_key a) window s)
      ∙ (rw (rate_limit_key-eq b a) (by_owner (text_eq b a)))
    where
      by_owner :
          (t : Bool)
          → or_zero (if t then some (suc (used b s)) else redis.get (rate_limit_key a) s)
            ≡ (if t then suc (used b s) else used a s)
      by_owner true = refl
      by_owner false = refl

  -- A request is passed on below the limit, and then counted for its address if it succeeds.
  middleware-used :
      (r : Request) (writes : List Write) (s : redis.State) (b a : Text)
      → r.get_fails ≡ false
      → r.exec_fails ≡ none
      → r.address ≡ some b
      → let (reply, s') = success_based_middleware redis limit window writes r s in
        (is_passed_on reply ≡ not (leb limit (used b s)))
        × (used a s' ≡ (
            if text_eq b a && (succeeds writes && not (leb limit (used b s)))
            then suc (used b s)
            else used a s))
  unfolding success_based_middleware count_request
  middleware-used r writes s b a get_ok exec_ok owner = elim (Bool-cases (leb limit (used b s))) [
    | inl full ↦ (
      rw (owner, get_ok, full, success_based_middleware),
      rw (owner, get_ok, full, success_based_middleware) (ground arith),
    )
    | inr room ↦ elim (Bool-cases (succeeds writes)) [
      | inl ok ↦ (
        rw (owner, get_ok, room, success_based_middleware),
        rw (owner, get_ok, room, ok, exec_ok, success_based_middleware)
            (used-increment a b s ∙ ground arith),
      )
      | inr bad ↦ (
        rw (owner, get_ok, room, success_based_middleware),
        rw (owner, get_ok, room, bad, success_based_middleware) (ground arith),
      )
    ]
  ]

  -- Of requests that follow one another while no counter expires and Redis does not fail, as many
  -- succeed for an address as its limit still leaves open, whatever the other addresses send: all
  -- whose handlers succeed, if they are not more than that. Requests that fail are not counted.
  pub granted-eq :
      (a : Text) (xs : List (Request × List Write)) (s : redis.State)
      → All IsServed xs
      → granted a xs s
        ≡ (if ltb (wanted a xs) (limit - used a s) then wanted a xs else limit - used a s)
  granted-eq a [] s h = ground arith
  granted-eq a ((r, writes) ∷ xs) s ((get_ok, exec_ok, (b, owner)), h) =
      let (passed, counted) = middleware-used r writes s b a get_ok exec_ok owner in
      let rest = granted-eq a xs (success_based_middleware redis limit window writes r s).1 h in
      add_request (counts_for a (r, writes)) (text_eq b a) (succeeds writes) _ limit (used b s)
        (used a s) _ (wanted a xs) _ (ap (λ o. owned_by a o && succeeds writes) owner)
        (λ e. ap (λ t. used t s) ((text_eq_iff b a).0 e)) passed counted rest
