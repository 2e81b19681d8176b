-- ===== src/Api/Access/Tests.antt =====
-- Headers before the REST handlers.
use event_pool.Prelude.{◌≡◌, refl, none, some, true, text_eq, if◌then◌else◌}
use event_pool.Text.{bytes, has_prefix, trim_prefix}
use event_pool.Grpc.Auth.{Parser, failed, token}
use event_pool.Api.Access.{denied, admitted, auth_middleware, secret_middleware, allow_cors}

abbrev parse : Parser
parse given secret =
    if text_eq given (bytes "t")
    then token (record { address = bytes "0xA1"; expires_at = 9 }) true
    else failed

preflight : allow_cors (bytes "OPTIONS") ≡ denied
unfolding allow_cors
preflight = refl

lowered : auth_middleware parse (bytes "s") (bytes "Bearer t") ≡ admitted (some (bytes "0xa1"))
unfolding auth_middleware has_prefix trim_prefix text_eq
lowered = refl

secret_behind_bearer : secret_middleware (bytes "k") (bytes "Bearer k") ≡ admitted none
unfolding secret_middleware has_prefix trim_prefix text_eq
secret_behind_bearer = refl
