-- ===== src/Grpc/Auth/Guards.antt =====
-- Which calls the interceptors let through.
use event_pool.Prelude.{◌≡◌, refl, ◌↔◌, ◌⊎◌, inl, inr, List, [], ◌∷◌, true, false, some, Bool-cases}
use event_pool.Text.{Text, bytes}
use event_pool.Grpc.Auth.{
  Claims, Checked, invalid_token, refused, invalid_claims, accepted, KeyStore, Metadata, header,
  replies, Config, wrong_secret, is_skipped, server_validate_jwt, jwt_unary_interceptor,
  jwt_stream_interceptor,
}

module _ (redis : KeyStore) (cfg : Config) (s : redis.State) where
  -- A method that is skipped has the gateway's secret first, any other an accepted token first.
  abbrev pub IsAuthorized : Metadata → Text → Type 0
  IsAuthorized md method =
      ((is_skipped method ≡ true)
        × ((secret : Text) × (rest : List Text) × (header (bytes "x-secret") md ≡ secret ∷ rest)
            × (wrong_secret cfg.gateway_secret secret ≡ false)))
      ⊎ ((is_skipped method ≡ false)
          × ((token_str : Text) × (rest : List Text) × (claims : Claims) × (header
                  (bytes "authorization") md
                ≡ token_str ∷ rest)
              × (server_validate_jwt redis cfg s token_str ≡ accepted claims)))

  module _ {ℓ} {A : Type ℓ} (md : Metadata) (method : Text) (handler : A) where
    from_secret :
        (given : List Text)
        → header (bytes "x-secret") md ≡ given
        → is_skipped method ≡ true
        → jwt_unary_interceptor redis cfg s (some md) method handler ≡ replies handler
        → IsAuthorized md method
    unfolding jwt_unary_interceptor
    from_secret [] h q e = cc (rw (q, h, jwt_unary_interceptor) at e)
    from_secret (secret ∷ rest) h q e = elim (Bool-cases (wrong_secret cfg.gateway_secret secret)) [
      | inl w ↦ cc (rw (q, h, w, jwt_unary_interceptor) at e)
      | inr w ↦ inl (q, (secret, rest, h, w))
    ]

    from_check :
        (token_str : Text) (rest : List Text) (answer : Checked)
        → header (bytes "authorization") md ≡ token_str ∷ rest
        → server_validate_jwt redis cfg s token_str ≡ answer
        → is_skipped method ≡ false
        → jwt_unary_interceptor redis cfg s (some md) method handler ≡ replies handler
        → IsAuthorized md method
    unfolding jwt_unary_interceptor
    from_check token_str rest (accepted claims) h v q e = inr (q, (token_str, rest, claims, h, v))
    from_check token_str rest invalid_token h v q e = cc (rw (q, h, v, jwt_unary_interceptor) at e)
    from_check token_str rest refused h v q e = cc (rw (q, h, v, jwt_unary_interceptor) at e)
    from_check token_str rest invalid_claims h v q e = cc (rw (q, h, v, jwt_unary_interceptor) at e)

    from_token :
        (given : List Text)
        → header (bytes "authorization") md ≡ given
        → is_skipped method ≡ false
        → jwt_unary_interceptor redis cfg s (some md) method handler ≡ replies handler
        → IsAuthorized md method
    unfolding jwt_unary_interceptor
    from_token [] h q e = cc (rw (q, h, jwt_unary_interceptor) at e)
    from_token (token_str ∷ rest) h q e = from_check token_str rest _ h refl q e

    -- A call reaches its handler exactly where its method is the skipped one and its first secret is
    -- the gateway's, if the server has one, or where its method is any other and its first token is
    -- accepted. The interceptor of streams decides in the same way.
    pub jwt_unary_interceptor-guards :
        ((jwt_unary_interceptor redis cfg s (some md) method handler ≡ replies handler)
          ↔ IsAuthorized md method)
        × (jwt_stream_interceptor redis cfg s (some md) method handler
            ≡ jwt_unary_interceptor redis cfg s (some md) method handler)
    unfolding jwt_unary_interceptor jwt_stream_interceptor
    jwt_unary_interceptor-guards = ((forth, back), refl)
      where
        forth :
            jwt_unary_interceptor redis cfg s (some md) method handler ≡ replies handler
            → IsAuthorized md method
        forth e = elim (Bool-cases (is_skipped method)) [
          | inl q ↦ from_secret _ refl q e
          | inr q ↦ from_token _ refl q e
        ]

        back :
            IsAuthorized md method
            → jwt_unary_interceptor redis cfg s (some md) method handler ≡ replies handler
        back (inl (q, (secret, rest, h, w))) = rw (q, h, w, jwt_unary_interceptor)
        back (inr (q, (token_str, rest, claims, h, v))) = rw (q, h, v, jwt_unary_interceptor)
