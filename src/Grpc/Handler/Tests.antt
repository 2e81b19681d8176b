-- ===== src/Grpc/Handler/Tests.antt =====
-- A stream whose context is cancelled while another one of its key runs, and a signature of one byte.
use event_pool.Prelude.{
  ℕ, ◌+◌, ◌≤◌, ◌≡◌, ◌↔◌, refl, List, [], ◌∷◌, Bool, true, ◌||◌, none, some, text_eq, if◌then◌else◌,
  length, nat_Eq, text_Eq,
}
use event_pool.Text.{Text, bytes}
use event_pool.Grpc.Auth
use event_pool.Grpc.Auth.{KeyStore, Metadata, Claims, token, failed}
use event_pool.Grpc.Streams.{subscription_key, register_stream}
use event_pool.Grpc.Streams.Sessions.{new_server}
use event_pool.Grpc.Scheduler.{new_session_scheduler}
use event_pool.Grpc.Forward.{UsageStore}
use event_pool.Grpc.Handler.{
  StreamRequest, Shared, close_connection, cancels, writes_close, closes_socket, sends_header,
  Signatures, verify_signature, recovery_id_offset,
}
use event_pool.Grpc.Handler.Panics.{verify_signature_panics}

abbrev keys : KeyStore
keys = record {
  State = Text → Bool;
  has = λ k s. s k;
  put = λ k s. λ j. text_eq k j || s j;
  has-put = λ k j s. refl;
}

abbrev usage : UsageStore
usage = record {
  State = Text → ℕ;
  total = λ k s. s k;
  incr_by = λ k n s. λ j. if text_eq k j then s k + n else s j;
  expire_at = λ k t s. s;
  total-incr_by = λ k j n s. refl;
  total-expire_at = λ k j t s. refl;
}

abbrev ann : Claims
ann = record { address = bytes "0xA1"; expires_at = 100 }

abbrev cfg : Auth.Config
cfg = record {
  parse = λ given secret. if text_eq given (bytes "t1") then token ann true else failed;
  jwt_secret = bytes "s";
  gateway_secret = none;
}

abbrev req : StreamRequest
req = record { chain_id = 39; contract_address = bytes "0xA1"; event_signature = bytes "T" }

-- Stream 8 registers while stream 7 runs.
abbrev other_joins : Shared → Shared
other_joins (server, scheduler) = (
  register_stream (subscription_key 39 (bytes "0xA1") (bytes "T")) (bytes "t2") 8 server,
  scheduler,
)

abbrev start : Shared
start = (new_server, new_session_scheduler)

abbrev metadata : Metadata
metadata = (bytes "authorization", bytes "t1" ∷ []) ∷ []

closes_both :
    close_connection (record {
      has_cancel = true;
      has_conn = true;
      has_stream = true;
      write_error = none;
      close_error = some (bytes "c");
      header_error = some (bytes "h");
    })
    ≡ (some (bytes "c"), cancels ∷ writes_close ∷ closes_socket ∷ sends_header ∷ [])
unfolding close_connection
closes_both = refl

abbrev plain : Signatures
plain = record {
  Address = Text;
  decode = λ t. some t;
  text_hash = λ t. t;
  hex_to_address = λ t. t;
  same_address = text_eq;
  sig_to_address = λ hash signature. some hash;
}

verify_signature_panics_example :
    (verify_signature plain (bytes "a") (bytes "m") (bytes "0") ≡ none) ↔ (
      (signature : List ℕ) × (plain.decode (bytes "0") ≡ some signature)
      × (length signature ≤ recovery_id_offset))
verify_signature_panics_example = verify_signature_panics plain (bytes "a") (bytes "m") (bytes "0")
