-- ===== src/Command/Secrets.antt =====
-- Which tokens the two servers of one process take from each other.
use event_pool.Prelude.{
  ℕ, ◌+◌, ◌<◌, inl, inr, ◌≡◌, ◌≢◌, ◌↔◌, ap, sym, ◌∙◌, true, false, some, arith, Bool-cases,
}
use event_pool.Text.{Text, has_prefix, to_lower}
use event_pool.Text.Space.{trim_space, is_padded, trim_space-same}
use event_pool.Grpc.Http.{Signer, Issued, generate_jwt, request_token}
use event_pool.Grpc.Auth
use event_pool.Grpc.Auth.{
  Claims, Parsed, failed, token, Parser, Checked, accepted, bearer, KeyStore, validate_jwt,
  blacklist_key, server_validate_jwt,
}
use event_pool.Api.Access.{denied, admitted, is_missing, auth_middleware}
use event_pool.Command.{Surroundings, Wiring, served, read_secret, wire, serve_open, run_serve}

-- What a server that is served holds.
pub run_serve-wiring :
    (around : Surroundings) (w : Wiring)
    → (run_serve around).0 ≡ served w
    → (read_secret around.secret_file ≡ some w.rest_secret)
      × (w.grpc_secret ≡ trim_space w.rest_secret)
unfolding run_serve serve_open wire
run_serve-wiring around w e = ground arith

-- What the JWT library documents of HS256: a token that was signed parses to its claims under the secret
-- it was signed with until it expires, to an error under another one, and is no header with `Bearer `.
pub record Signing (sign : Signer) (parse : Parser) (time : ℕ) : Type 0 where
  pub own :
      (claims : Claims) (now : ℕ) (secret given : Text)
      → sign claims now secret ≡ some given
      → time < claims.expires_at
      → parse given secret ≡ token claims true
  pub foreign :
      (claims : Claims) (now : ℕ) (secret other given : Text)
      → sign claims now secret ≡ some given
      → other ≢ secret
      → parse given other ≡ failed
  pub shape :
      (claims : Claims) (now : ℕ) (secret given : Text)
      → sign claims now secret ≡ some given
      → (has_prefix given bearer ≡ false) × (is_missing given ≡ false)

signed :
    (sign : Signer) (now : ℕ) (address : Text) (duration : ℕ) (secret : Text) (issued : Issued)
    → request_token sign secret now address duration ≡ some issued
    → sign (record { address = address; expires_at = now + duration }) now secret
      ≡ some issued.token
unfolding request_token generate_jwt
signed sign now address duration secret issued e = ground arith

-- The middleware on a token without `Bearer `, by what the library answers.
gate_valid :
    (parse : Parser) (secret given : Text) (claims : Claims)
    → is_missing given ≡ false
    → has_prefix given bearer ≡ false
    → parse given secret ≡ token claims true
    → auth_middleware parse secret given ≡ admitted (some (to_lower claims.address))
unfolding auth_middleware validate_jwt
gate_valid parse secret given claims there bare e = rw (there, bare, e)

gate_failed :
    (parse : Parser) (secret given : Text)
    → is_missing given ≡ false
    → has_prefix given bearer ≡ false
    → parse given secret ≡ failed
    → auth_middleware parse secret given ≡ denied
unfolding auth_middleware validate_jwt
gate_failed parse secret given there bare e = rw (there, bare, e)

server_accepts :
    (redis : KeyStore) (cfg : Auth.Config) (st : redis.State) (given : Text) (claims : Claims)
    → has_prefix given bearer ≡ false
    → cfg.parse given cfg.jwt_secret ≡ token claims true
    → redis.has (blacklist_key given) st ≡ false
    → server_validate_jwt redis cfg st given ≡ accepted claims
unfolding server_validate_jwt validate_jwt
server_accepts redis cfg st given claims bare e unlisted =
    rw (bare, e, unlisted, server_validate_jwt, validate_jwt)

module _ (sign : Signer) (parse : Parser) (time : ℕ) (laws : Signing sign parse time)
    (redis : KeyStore) where
  -- When the command serves, a token that its gRPC server issues, and that is neither expired nor
  -- revoked, is accepted by the gRPC server, and the REST server denies it exactly where the file of
  -- the secret begins or ends with a space or a line's end, since only the gRPC server trims it.
  pub run_serve-secrets :
      (around : Surroundings) (w : Wiring) (now duration : ℕ) (address : Text) (issued : Issued)
      (st : redis.State)
      → (run_serve around).0 ≡ served w
      → request_token sign w.grpc_secret now address duration ≡ some issued
      → time < now + duration
      → redis.has (blacklist_key issued.token) st ≡ false
      → (server_validate_jwt redis
            (record {
              parse = parse;
              jwt_secret = w.grpc_secret;
              gateway_secret = some w.gateway_secret;
            })
            st
            issued.token
          ≡ accepted (record { address = address; expires_at = now + duration }))
        × ((auth_middleware parse w.rest_secret issued.token ≡ denied)
            ↔ (is_padded w.rest_secret ≡ true))
  run_serve-secrets around w now duration address issued st e issue fresh unlisted =
      let claims : Claims = record { address = address; expires_at = now + duration } in
      let s = signed sign now address duration w.grpc_secret issued issue in
      let trims = (run_serve-wiring around w e).1 in
      let (bare, there) = laws.shape claims now w.grpc_secret issued.token s in
      let own = laws.own claims now w.grpc_secret issued.token s fresh in
      (
        server_accepts redis
            (record {
              parse = parse;
              jwt_secret = w.grpc_secret;
              gateway_secret = some w.gateway_secret;
            })
            st issued.token claims bare own unlisted,
        elim (Bool-cases (is_padded w.rest_secret)) [
          | inl padded ↦
              let other : w.rest_secret ≢ w.grpc_secret =
                λ same. cc ((trim_space-same w.rest_secret).0 (sym (same ∙ trims)), padded) in
              (
                λ h. padded,
                λ h.
                    gate_failed parse w.rest_secret issued.token there bare
                      (laws.foreign claims now w.grpc_secret w.rest_secret issued.token s other),
              )
          | inr plain ↦
              let same : w.grpc_secret ≡ w.rest_secret =
                trims ∙ (trim_space-same w.rest_secret).1 plain in
              let through =
                gate_valid parse w.rest_secret issued.token claims there bare
                  (ap (parse issued.token) (sym same) ∙ own) in
              (λ h. cc (h, through), λ h. cc (h, plain))
        ],
      )
