-- ===== src/Grpc/Auth/Tests.antt =====
-- A server whose library knows two tokens, with Redis as the list of its keys.
use event_pool.Prelude.{
  ℕ, ◌≡◌, refl, ◌↔◌, List, [], ◌∷◌, ◌++◌, Bool, true, false, ◌||◌, some, text_eq, if◌then◌else◌,
  lookup, delete, text_Eq,
}
use event_pool.Text.{Text, bytes, has_prefix}
use event_pool.Grpc.Streams.{Server}
use event_pool.Grpc.Auth.{
  Claims, failed, token, accepted, bearer, KeyStore, Metadata, replies, Config, server_validate_jwt,
  jwt_unary_interceptor, jwt_stream_interceptor, disconnect_stream, Disconnected,
}
use event_pool.Grpc.Auth.Guards.{IsAuthorized, jwt_unary_interceptor-guards}
use event_pool.Grpc.Auth.Revocation.{disconnect_stream-keeps_bearer}

abbrev listed : Text → List Text → Bool
listed k [] = false
listed k (j ∷ js) = text_eq j k || listed k js

abbrev keys : KeyStore
keys = record { State = List Text; has = listed; put = λ k s. k ∷ s; has-put = λ k j s. refl }

abbrev ann : Claims
ann = record { address = bytes "0xA1"; expires_at = 100 }

abbrev cfg : Config
cfg = record {
  parse = λ given secret. if text_eq given (bytes "t1") then token ann true else failed;
  jwt_secret = bytes "s";
  gateway_secret = some (bytes "gate");
}

abbrev server : Server
server = record {
  subscribers = [];
  active_conns = (bytes "t1", 1) ∷ [];
  channels = [];
  cancelled = [];
}

abbrev with_bearer : Metadata
with_bearer = (bytes "authorization", bytes "Bearer t1" ∷ []) ∷ []

abbrev with_bare : Metadata
with_bare = (bytes "authorization", bytes "t1" ∷ []) ∷ []

abbrev after : Text → Disconnected keys
after given = record {
  server = record { subscribers = []; active_conns = []; channels = []; cancelled = 1 ∷ [] };
  store = bytes "blacklist_token_t1" ∷ [];
  cancelled_receipt = bytes "t1";
}

by_bearer :
    disconnect_stream keys cfg [] (some with_bearer) server ≡ replies (after (bytes "Bearer t1"))
unfolding disconnect_stream lookup text_eq delete
by_bearer = refl

by_bare : disconnect_stream keys cfg [] (some with_bare) server ≡ replies (after (bytes "t1"))
unfolding disconnect_stream lookup text_eq delete
by_bare = refl

no_prefix : has_prefix (bytes "t1") bearer ≡ false
unfolding has_prefix
no_prefix = refl

disconnect_stream-keeps_bearer_example :
    (claims : Claims) × (server_validate_jwt keys cfg
        (bytes "blacklist_token_t1" ∷ [])
        (bearer ++ bytes "t1")
      ≡ accepted claims)
unfolding lookup text_eq
disconnect_stream-keeps_bearer_example =
    disconnect_stream-keeps_bearer keys cfg [] with_bearer (bytes "t1") [] server
      (after (bytes "Bearer t1")) refl by_bearer

abbrev stream_method : Text
stream_method = bytes "/eventpool.EventService/StreamEvents"

abbrev answer : ℕ
answer = 7

jwt_unary_interceptor-guards_example :
    ((jwt_unary_interceptor keys cfg [] (some with_bearer) stream_method answer ≡ replies 7)
      ↔ IsAuthorized keys cfg [] with_bearer stream_method)
    × (jwt_stream_interceptor keys cfg [] (some with_bearer) stream_method answer
        ≡ jwt_unary_interceptor keys cfg [] (some with_bearer) stream_method answer)
jwt_unary_interceptor-guards_example =
    jwt_unary_interceptor-guards keys cfg [] with_bearer stream_method answer
