-- ===== src/Grpc/Handler.antt =====
-- pkg/grpc/server.go: the whole handler `StreamEvents`, `Close` of an active connection, and
-- `VerifySignature`. The handler touches what is shared where it registers and where it cleans up: what
-- the other handlers do in between is a function of its own. Claims of the program's tokens have a time
-- of expiry.
pub mod Gone
pub mod Panics
mod Tests
use event_pool.Prelude.{
  ℕ, ◌-◌, List, [], ◌∷◌, Bool, true, false, Option, none, some, if◌then◌else◌, lookup, text_Eq,
  text_eq, length, ltb, ◌+◌, get_elem?, take, drop, ◌++◌, ◌%◌,
}
use event_pool.Text.{Text, bytes, trim_prefix}
use event_pool.Grpc.Auth
use event_pool.Grpc.Auth.{KeyStore, Metadata, Claims, accepted, bearer, header, server_validate_jwt}
use event_pool.Grpc.Streams.{Event, Server, subscription_key, register_stream}
use event_pool.Grpc.Scheduler.{SessionScheduler}
use event_pool.Grpc.Forward.{
  UsageStore, Turn, Ending, waiting, clean, unclean, Forwarded, forward_loop, end_stream,
}

-- `pb.StreamEventsRequest`
pub record StreamRequest : Type 0 where
  pub chain_id : ℕ
  pub contract_address : Text
  pub event_signature : Text

-- A status Unauthenticated, the error of `SendHeader`, or an end of the loop.
pub data StreamReply : Type 0 where
  refused header_failed : StreamReply
  looped : Ending → StreamReply

-- What the handlers share.
abbrev pub Shared : Type 0
Shared = Server × SessionScheduler

module _ (keys : KeyStore) (usage : UsageStore) where
  pub record Streamed : Type 0 where
    pub reply : StreamReply
    pub shared : Shared
    pub counters : usage.State
    pub sent : List Event

  -- The lines behind the check of the token. A handler that waits has not cleaned up.
  unfoldable pub serve_stream :
      StreamRequest
      → Text
      → Claims
      → ℕ
      → (Shared → Shared)
      → Bool
      → List Turn
      → ℕ
      → Shared
      → usage.State
      → Streamed
  unfolding register_stream forward_loop end_stream subscription_key
  serve_stream req token claims stream meanwhile header_fails turns now (server, scheduler)
        counters =
      let key = subscription_key req.chain_id req.contract_address req.event_signature in
      let shared = meanwhile (register_stream key token stream server, scheduler) in
      let (ending, forwarded) =
        forward_loop usage token claims turns (record { usage = counters; sent = [] }) in
      let ended = end_stream key token stream claims now ending shared in
      if header_fails
      then (record {
        reply = header_failed;
        shared = end_stream key token stream claims now unclean shared;
        counters = counters;
        sent = [];
      })
      else (record {
        reply = looped ending;
        shared = elim ending [ waiting ↦ shared | _ ↦ ended ];
        counters = forwarded.usage;
        sent = forwarded.sent;
      })

  -- `StreamEvents`
  unfoldable pub stream_events :
      Auth.Config
      → keys.State
      → Option Metadata
      → StreamRequest
      → ℕ
      → (Shared → Shared)
      → Bool
      → List Turn
      → ℕ
      → Shared
      → usage.State
      → Streamed
  unfolding server_validate_jwt trim_prefix serve_stream
  stream_events cfg revoked metadata req stream meanwhile header_fails turns now shared counters =
      let unauthenticated : Streamed = record {
        reply = refused;
        shared = shared;
        counters = counters;
        sent = [];
      } in
      elim metadata [
        | none ↦ unauthenticated
        | some md ↦ elim (header (bytes "authorization") md) [
          | [] ↦ unauthenticated
          | token_str ∷ _ ↦ elim (server_validate_jwt keys cfg revoked token_str) [
            | accepted claims ↦
                serve_stream req (trim_prefix token_str bearer) claims stream meanwhile header_fails
                  turns now shared counters
            | _ ↦ unauthenticated
          ]
        ]
      ]

-- What `Close` calls, in order.
pub data Closing : Type 0 where
  cancels writes_close closes_socket sends_header : Closing

-- A connection by what it has, and what the calls on it answer; an error is a text.
pub record ActiveConnection : Type 0 where
  pub has_cancel : Bool
  pub has_conn : Bool
  pub has_stream : Bool
  pub write_error : Option Text
  pub close_error : Option Text
  pub header_error : Option Text

abbrev first_error : Option Text → Option Text → Option Text
first_error none other = other
first_error (some e) other = some e

-- The error is that of the WebSocket before that of the stream; every call is made whatever failed.
unfoldable pub close_connection : ActiveConnection → Option Text × List Closing
close_connection a =
    let ws_err = if a.has_conn then first_error a.write_error a.close_error else none in
    let grpc_err = if a.has_stream then a.header_error else none in
    (
      first_error ws_err grpc_err,
      (if a.has_cancel then cancels ∷ [] else [])
          ++ ((if a.has_conn then writes_close ∷ closes_socket ∷ [] else [])
              ++ (if a.has_stream then sends_header ∷ [] else [])),
    )

-- The libraries of `VerifySignature`, by bytes: hexadecimal, the hash of a message, the address of a
-- text, and the address whose key made a signature.
pub record Signatures : Type 1 where
  pub Address : Type 0
  pub decode : Text → Option (List ℕ)
  pub text_hash : Text → List ℕ
  pub hex_to_address : Text → Address
  pub same_address : Address → Address → Bool
  pub sig_to_address : List ℕ → List ℕ → Option Address

-- `none` is the panic at an index out of range.
abbrev pub recovery_id_offset : ℕ
recovery_id_offset = 64

-- `signature[64] -= 27`, modulo 256.
abbrev pub lower_recovery_id : List ℕ → Option (List ℕ)
lower_recovery_id signature = elim (get_elem? signature recovery_id_offset) [
  | none ↦ none
  | some v ↦ some (
      take recovery_id_offset signature
      ++ (v + 229) % 256 ∷ drop (recovery_id_offset + 1) signature)
]

unfoldable pub verify_signature : Signatures → Text → Text → Text → Option Bool
verify_signature lib from_address message signature_hex = elim (lib.decode signature_hex) [
  | none ↦ some false
  | some signature ↦ elim (lower_recovery_id signature) [
    | none ↦ none
    | some lowered ↦ elim (lib.sig_to_address (lib.text_hash message) lowered) [
      | none ↦ some false
      | some signer ↦ some (lib.same_address (lib.hex_to_address from_address) signer)
    ]
  ]
]
