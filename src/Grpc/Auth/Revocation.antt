-- ===== src/Grpc/Auth/Revocation.antt =====
-- Whether a token can be used after its stream was disconnected.
use event_pool.Prelude.{
  ◌≡◌, refl, sym, ap, ◌∙◌, inl, inr, List, ◌∷◌, ◌++◌, Bool, true, false, some, arith, if◌then◌else◌,
  text_eq, text_eq_iff, length, Bool-cases, Option-cases, lookup, text_Eq,
}
use event_pool.Text.{Text, bytes, has_prefix, trim_prefix}
use event_pool.Text.Laws.{trim_prefix-append}
use event_pool.Grpc.Streams.{Server}
use event_pool.Grpc.Auth.{
  Claims, Parsed, failed, token, Parser, Checked, invalid_token, refused, invalid_claims, accepted,
  bearer, validate_jwt, KeyStore, Metadata, header, Reply, replies, fails, blacklist_key, Config,
  server_validate_jwt, Disconnected, disconnect_stream,
}

-- The key of a token is not that of the header that carries it.
keys_differ : (t : Text) → text_eq (blacklist_key t) (blacklist_key (bearer ++ t)) ≡ false
unfolding blacklist_key
keys_differ t = elim (Bool-cases (text_eq (blacklist_key t) (blacklist_key (bearer ++ t)))) [
  | inr n ↦ n
  | inl e ↦
      absurd (
        omega
          (arith, ap length ((text_eq_iff (blacklist_key t) (blacklist_key (bearer ++ t))).0 e)))
]

text_eq_self : (t : Text) → text_eq t t ≡ true
text_eq_self t = (text_eq_iff t t).1 refl

untrimmed : (t : Text) → has_prefix t bearer ≡ false → trim_prefix t bearer ≡ t
unfolding trim_prefix
untrimmed t h = rw h

-- A token that passes with one answer of the handler is refused with an error of it.
refuses :
    (parse : Parser) (t secret : Text) (b : Bool) (claims : Claims)
    → validate_jwt parse t secret (some (λ token. b)) ≡ accepted claims
    → validate_jwt parse t secret (some (λ token. true)) ≡ refused
unfolding validate_jwt
refuses parse t secret b claims h = go _ h
  where
    go :
        (p : Parsed)
        → (elim p [
          | failed ↦ invalid_token
          | token c valid ↦ if valid then (if b then refused else accepted c) else invalid_claims
        ])
          ≡ accepted claims
        → (elim p [
          | failed ↦ invalid_token
          | token c valid ↦ if valid then (if true then refused else accepted c) else invalid_claims
        ])
          ≡ refused
    go failed h = cc
    go (token c true) h = refl
    go (token c false) h = cc

module _ (redis : KeyStore) (cfg : Config) (s : redis.State) where
  -- What a disconnect that succeeds has found and done.
  disconnect-inv :
      (md : Metadata) (t : Text) (ts : List Text) (server : Server) (d : Disconnected redis)
      → header (bytes "authorization") md ≡ t ∷ ts
      → disconnect_stream redis cfg s (some md) server ≡ replies d
      → (claims : Claims) × (server_validate_jwt redis cfg s t ≡ accepted claims)
        × (d.store ≡ redis.put (blacklist_key (trim_prefix t bearer)) s)
  unfolding disconnect_stream
  disconnect-inv md t ts server d h e = from (server_validate_jwt redis cfg s t) refl
    where
      store_of : Reply (Disconnected redis) → redis.State
      store_of (fails c) = s
      store_of (replies r) = r.store

      from :
          (c : Checked)
          → server_validate_jwt redis cfg s t ≡ c
          → (claims : Claims) × (server_validate_jwt redis cfg s t ≡ accepted claims)
            × (d.store ≡ redis.put (blacklist_key (trim_prefix t bearer)) s)
      from (accepted claims) q =
          elim (Option-cases (lookup (trim_prefix t bearer) server.active_conns)) [
            | inl n ↦ cc (rw (h, q, n, disconnect_stream) at e)
            | inr (stream, n) ↦
                (claims, q, sym (ap store_of (rw (h, q, n, disconnect_stream) at e)))
          ]
      from invalid_token q = cc (rw (h, q, disconnect_stream) at e)
      from refused q = cc (rw (h, q, disconnect_stream) at e)
      from invalid_claims q = cc (rw (h, q, disconnect_stream) at e)

  -- A stream that was disconnected by a call with a header `Bearer t` leaves that header accepted: the
  -- revoked key is that of `t`, and the check looks up that of the whole header.
  pub disconnect_stream-keeps_bearer :
      (md : Metadata) (t : Text) (ts : List Text) (server : Server) (d : Disconnected redis)
      → header (bytes "authorization") md ≡ (bearer ++ t) ∷ ts
      → disconnect_stream redis cfg s (some md) server ≡ replies d
      → (claims : Claims) × (server_validate_jwt redis cfg d.store (bearer ++ t) ≡ accepted claims)
  unfolding server_validate_jwt
  disconnect_stream-keeps_bearer md t ts server d h e =
      let (claims, ok, stored) = disconnect-inv md (bearer ++ t) ts server d h e in
      let written : d.store ≡ redis.put (blacklist_key t) s =
        rw (trim_prefix-append bearer t) at stored in
      let key = blacklist_key (bearer ++ t) in
      let same : redis.has key d.store ≡ redis.has key s =
        rw (written, redis.has-put (blacklist_key t) key s, keys_differ t) in
      (
        claims,
        ap (λ b. validate_jwt cfg.parse (bearer ++ t) cfg.jwt_secret (some (λ token. b))) same ∙ ok,
      )

  -- A call with the bare token, in which `Bearer ` is no prefix, revokes it.
  pub disconnect_stream-revokes_bare :
      (md : Metadata) (t : Text) (ts : List Text) (server : Server) (d : Disconnected redis)
      → has_prefix t bearer ≡ false
      → header (bytes "authorization") md ≡ t ∷ ts
      → disconnect_stream redis cfg s (some md) server ≡ replies d
      → server_validate_jwt redis cfg d.store t ≡ refused
  unfolding server_validate_jwt
  disconnect_stream-revokes_bare md t ts server d bare h e =
      let (claims, ok, stored) = disconnect-inv md t ts server d h e in
      let written : d.store ≡ redis.put (blacklist_key t) s = rw (untrimmed t bare) at stored in
      let there : redis.has (blacklist_key t) d.store ≡ true = rw (
        written,
        redis.has-put (blacklist_key t) (blacklist_key t) s,
        text_eq_self (blacklist_key t),
      ) in
      ap (λ b. validate_jwt cfg.parse t cfg.jwt_secret (some (λ token. b))) there
      ∙ refuses cfg.parse t cfg.jwt_secret _ claims ok
