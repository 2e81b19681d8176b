-- ===== src/Api/Access.antt =====
-- internal/api/server.go: the middlewares in front of the REST handlers.
-- The header `Authorization` reads as the empty text where it is missing.
pub mod Admission
mod Tests
use event_pool.Prelude.{
  List, [], ◌∷◌, Bool, true, false, not, none, some, Option, if◌then◌else◌, text_eq,
}
use event_pool.Text.{Text, bytes, has_prefix, trim_prefix, to_lower}
use event_pool.Grpc.Auth.{Parser, Checked, accepted, bearer, validate_jwt}

-- What reaches the next handler: the address of the context, if one is set there.
pub data Gate : Type 0 where
  denied : Gate
  admitted : Option Text → Gate

abbrev pub is_missing : Text → Bool
is_missing [] = true
is_missing (c ∷ cs) = false

unfoldable pub auth_middleware : Parser → Text → Text → Gate
unfolding validate_jwt to_lower
auth_middleware parse jwt_secret auth_header =
    if is_missing auth_header
    then denied
    else elim (validate_jwt parse auth_header jwt_secret none) [
      | accepted claims ↦ admitted (some (to_lower claims.address))
      | _ ↦ denied
    ]

unfoldable pub secret_middleware : Text → Text → Gate
unfolding has_prefix trim_prefix text_eq
secret_middleware secret auth_header =
    if is_missing auth_header
    then denied
    else (let given =
          if has_prefix auth_header bearer then trim_prefix auth_header bearer else auth_header in
        if not (text_eq given secret) then denied else admitted none)

-- A request that `OPTIONS` asks for ends with the headers.
unfoldable pub allow_cors : Text → Gate
unfolding text_eq
allow_cors method = if text_eq method (bytes "OPTIONS") then denied else admitted none
