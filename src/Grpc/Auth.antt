-- ===== src/Grpc/Auth.antt =====
-- internal/jwt/jwt.go and, of pkg/grpc/server.go, the interceptors, `ValidateJWT` and
-- `DisconnectStream`. The JWT library and Redis are parameters; log lines are left out.
pub mod Revocation
pub mod Guards
mod Tests
use event_pool.Prelude.{
  ℕ, ◌≡◌, List, [], ◌∷◌, ◌++◌, Bool, true, false, not, ◌||◌, Option, none, some, if◌then◌else◌,
  text_eq, Dict, lookup, insert, delete, nat_Eq, text_Eq,
}
use event_pool.Text.{Text, bytes, has_prefix, trim_prefix}
use event_pool.Grpc.Streams.{Server}

-- `JwtClaims`
pub record Claims : Type 0 where
  pub address : Text
  pub expires_at : ℕ

-- What `jwt.ParseWithClaims` answers: an error, or a token with its claims and `Valid`.
pub data Parsed : Type 0 where
  failed : Parsed
  token : Claims → Bool → Parsed

-- The library, by the token and the secret.
abbrev pub Parser : Type 0
Parser = Text → Text → Parsed

pub data Checked : Type 0 where
  invalid_token refused invalid_claims : Checked
  accepted : Claims → Checked

abbrev pub bearer : Text
bearer = bytes "Bearer "

-- `jwt.ValidateJWT`; a `handleValidToken` answers true for an error, and none is nil.
unfoldable pub validate_jwt : Parser → Text → Text → Option (Text → Bool) → Checked
unfolding has_prefix trim_prefix
validate_jwt parse token_str secret handle_valid_token =
    let bare = if has_prefix token_str bearer then trim_prefix token_str bearer else token_str in
    elim (parse bare secret) [
      | failed ↦ invalid_token
      | token claims valid ↦
          if valid
          then elim handle_valid_token [
            | none ↦ accepted claims
            | some handle ↦ if handle bare then refused else accepted claims
          ]
          else invalid_claims
    ]

-- Redis for the keys of revoked tokens: whether `Get` answers, and `Set`. That a key is there from
-- its `Set` on holds until its expiry, which is the token's own.
pub record KeyStore : Type 1 where
  pub State : Type 0
  pub has : Text → State → Bool
  pub put : Text → State → State
  pub has-put : (k j : Text) (s : State) → has j (put k s) ≡ (text_eq k j || has j s)

abbrev pub Metadata : Type 0
Metadata = Dict Text (List Text)

abbrev pub or_nil : Option (List Text) → List Text
or_nil none = []
or_nil (some values) = values

-- `md[key]` and `md.Get(key)`
abbrev pub header : Text → Metadata → List Text
header key md = or_nil (lookup key md)

pub data Code : Type 0 where
  unauthenticated not_found : Code

pub data Reply {ℓ} (A : Type ℓ) : Type ℓ where
  fails : Code → Reply A
  replies : A → Reply A

unfoldable pub blacklist_key : Text → Text
blacklist_key token_str = bytes "blacklist_token" ++ (bytes "_" ++ token_str)

-- The map `skippedMethods`.
unfoldable pub is_skipped : Text → Bool
unfolding text_eq
is_skipped method = text_eq method (bytes "/eventpool.EventService/RequestToken")

-- `s.gatewaySecret != nil && secret[0] != string(s.gatewaySecret)`
abbrev pub wrong_secret : Option Text → Text → Bool
wrong_secret none given = false
wrong_secret (some expected) given = not (text_eq given expected)

-- The fields of the server that the checks read.
pub record Config : Type 0 where
  pub parse : Parser
  pub jwt_secret : Text
  pub gateway_secret : Option Text

module _ (redis : KeyStore) where
  open redis use {State, has, put}

  -- `Server.ValidateJWT`. The closure looks up the header as it came, not the token it is given.
  unfoldable pub server_validate_jwt : Config → State → Text → Checked
  unfolding validate_jwt blacklist_key
  server_validate_jwt cfg s token_str =
      validate_jwt cfg.parse token_str cfg.jwt_secret
        (some (λ token. has (blacklist_key token_str) s))

  -- `jwtUnaryInterceptor`, which calls the handler or fails.
  unfoldable pub jwt_unary_interceptor {ℓ} :
      {A : Type ℓ} → Config → State → Option Metadata → Text → A → Reply A
  unfolding server_validate_jwt is_skipped
  jwt_unary_interceptor cfg s metadata method handler = elim metadata [
    | none ↦ fails unauthenticated
    | some md ↦
        if is_skipped method
        then elim (header (bytes "x-secret") md) [
          | [] ↦ fails unauthenticated
          | secret ∷ _ ↦
              if wrong_secret cfg.gateway_secret secret
              then fails unauthenticated
              else replies handler
        ]
        else elim (header (bytes "authorization") md) [
          | [] ↦ fails unauthenticated
          | token_str ∷ _ ↦ elim (server_validate_jwt cfg s token_str) [
            | accepted claims ↦ replies handler
            | _ ↦ fails unauthenticated
          ]
        ]
  ]

  -- `jwtStreamInterceptor`, with its own copy of the checks.
  unfoldable pub jwt_stream_interceptor {ℓ} :
      {A : Type ℓ} → Config → State → Option Metadata → Text → A → Reply A
  unfolding server_validate_jwt is_skipped
  jwt_stream_interceptor cfg s metadata method handler = elim metadata [
    | none ↦ fails unauthenticated
    | some md ↦
        if is_skipped method
        then elim (header (bytes "x-secret") md) [
          | [] ↦ fails unauthenticated
          | secret ∷ _ ↦
              if wrong_secret cfg.gateway_secret secret
              then fails unauthenticated
              else replies handler
        ]
        else elim (header (bytes "authorization") md) [
          | [] ↦ fails unauthenticated
          | token_str ∷ _ ↦ elim (server_validate_jwt cfg s token_str) [
            | accepted claims ↦ replies handler
            | _ ↦ fails unauthenticated
          ]
        ]
  ]

  -- What a disconnect leaves: the server, Redis, and the token whose receipt was cancelled.
  pub record Disconnected : Type 0 where
    pub server : Server
    pub store : State
    pub cancelled_receipt : Text

  -- `DisconnectStream`: the scheduled receipt and the context are cancelled, the connection is
  -- deleted, and the token is revoked.
  unfoldable pub disconnect_stream : Config → State → Option Metadata → Server → Reply Disconnected
  unfolding server_validate_jwt trim_prefix blacklist_key
  disconnect_stream cfg s metadata server = elim metadata [
    | none ↦ fails unauthenticated
    | some md ↦ elim (header (bytes "authorization") md) [
      | [] ↦ fails unauthenticated
      | token_str ∷ _ ↦ elim (server_validate_jwt cfg s token_str) [
        | accepted claims ↦
            let token = trim_prefix token_str bearer in
            elim (lookup token server.active_conns) [
              | none ↦ fails not_found
              | some stream ↦ replies (record {
                server = record server {
                  active_conns = delete token server.active_conns;
                  cancelled = stream ∷ server.cancelled;
                };
                store = put (blacklist_key token) s;
                cancelled_receipt = token;
              })
            ]
        | _ ↦ fails unauthenticated
      ]
    ]
  ]
