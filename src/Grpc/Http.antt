-- ===== src/Grpc/Http.antt =====
-- pkg/grpc/http_server.go: the endpoints that issue a token and show how far a backfill is, with
-- `GenerateJWT` of internal/jwt/jwt.go and `RequestToken` of pkg/grpc/server.go, which issue it.
-- The JWT library's signature, the database and the monitor's last block are parameters; a token's
-- duration is not negative, and the printed responses are records.
pub mod Status
pub mod Digits
mod Tests
use event_pool.Prelude.{
  ℕ, zero, suc, ◌+◌, ◌-◌, ◌*◌, ◌^◌, List, [], ◌∷◌, ◌++◌, Bool, true, false, not, ◌&&◌, ◌||◌, Option,
  none, some, if◌then◌else◌, ltb, leb, nat_eq, text_eq, Dict, lookup, text_Eq,
}
use event_pool.Text.{Text, bytes, contains, to_lower}
use event_pool.Ethereum.Log.{Contract}
use event_pool.Ethereum.Signature.{open_paren, extract_event_name}
use event_pool.Grpc.Auth.{Claims, wrong_secret}

-- The library's signature of the claims with their time of issue, by the secret.
abbrev pub Signer : Type 0
Signer = Claims → ℕ → Text → Option Text

unfoldable pub generate_jwt : Signer → ℕ → Text → ℕ → Text → Option Text
generate_jwt sign now address expiry secret =
    sign (record { address = address; expires_at = now + expiry }) now secret

pub record Issued : Type 0 where
  pub token : Text
  pub expires_at : ℕ

-- `RequestToken`; `none` is its internal error.
unfoldable pub request_token : Signer → Text → ℕ → Text → ℕ → Option Issued
unfolding generate_jwt
request_token sign jwt_secret now address duration =
    elim (generate_jwt sign now address duration jwt_secret) [
      | none ↦ none
      | some token ↦ some (record { token = token; expires_at = now + duration })
    ]

-- The responses of the two endpoints, by their status.
pub data Response (A : Type 0) : Type 0 where
  bad_request unauthorized not_found not_allowed internal_error : Response A
  answered : A → Response A

-- `RequestTokenHandler` on the method, the header `X-Secret`, and the body's address and duration.
unfoldable pub request_token_handler :
    Signer → Text → Option Text → ℕ → Text → Text → Option (Text × ℕ) → Response Issued
unfolding generate_jwt text_eq
request_token_handler sign jwt_secret gateway_secret now method secret body =
    if not (text_eq method (bytes "POST"))
    then not_allowed
    else if wrong_secret gateway_secret secret
    then unauthorized
    else elim body [
      | none ↦ bad_request
      | some (address, duration) ↦ elim (generate_jwt sign now address duration jwt_secret) [
        | none ↦ internal_error
        | some token ↦ answered (record { token = token; expires_at = now + duration })
      ]
    ]

-- An int64 by its sign; 0 has none.
pub record Integer : Type 0 where
  pub negative : Bool
  pub magnitude : ℕ

unfoldable pub read_digits : Text → ℕ → Option ℕ
read_digits [] n = some n
read_digits (c ∷ cs) n =
    let rest = read_digits cs (10 * n + (c - 48)) in if leb 48 c && leb c 57 then rest else none

abbrev pub in_range : Bool → Option ℕ → Option Integer
in_range negative none = none
in_range negative (some m) =
    if ltb m (2 ^ 63) || (negative && nat_eq m (2 ^ 63))
    then some (record { negative = negative && not (nat_eq m 0); magnitude = m })
    else none

-- The digits behind a sign: one at least.
abbrev pub read_magnitude : Text → Option ℕ
read_magnitude [] = none
read_magnitude (c ∷ cs) = read_digits (c ∷ cs) 0

-- `strconv.ParseInt(s, 10, 64)`
unfoldable pub parse_int : Text → Option Integer
unfolding read_digits
parse_int [] = none
parse_int (c ∷ cs) =
    if nat_eq c b'-'
    then in_range true (read_magnitude cs)
    else if nat_eq c b'+'
    then in_range false (read_magnitude cs)
    else in_range false (read_magnitude (c ∷ cs))

-- The query for a contract by its chain, its address in lower case and its event's name.
pub data Found : Type 0 where
  missing query_failed : Found
  found : Contract → Found

pub record ContractStatus : Type 0 where
  pub chain_id : Text
  pub contract_address : Text
  pub event_name : Text
  pub current_block_number : ℕ
  pub last_block_number : ℕ

abbrev pub is_missing : Text → Bool
is_missing [] = true
is_missing (c ∷ cs) = false

-- The name of the event, which may come as a signature.
unfoldable pub event_name_of : Text → Option Text
unfolding contains extract_event_name
event_name_of event = if contains event open_paren then extract_event_name event else some event

-- The key of the entry that a backfill writes, from the request's text of the chain.
unfoldable pub indexed_key : Text → Text → Text → Text
unfolding to_lower
indexed_key chain_id address event_signature = to_lower (
    bytes "backfill_status:"
    ++ (chain_id ++ (bytes "/" ++ (address ++ (bytes "/" ++ event_signature)))))

abbrev current_of : ℕ → Option ℕ → ℕ
current_of last none = last
current_of last (some current) = current

-- `GetContractStatus` on the variables of the route. The cache holds big numbers below 2^64 only, as
-- the listener stores no others.
unfoldable pub get_contract_status :
    (Integer → Text → Text → Found)
    → (Integer → Option ℕ)
    → Dict Text ℕ
    → Text
    → Text
    → Text
    → Response ContractStatus
unfolding parse_int event_name_of indexed_key
get_contract_status find_contract last_block cache chain_id address event =
    if is_missing chain_id || (is_missing address || is_missing event)
    then bad_request
    else elim (parse_int chain_id) [
      | none ↦ bad_request
      | some chain ↦ elim (event_name_of event) [
        | none ↦ bad_request
        | some event_name ↦ elim (find_contract chain (to_lower address) event_name) [
          | missing ↦ not_found
          | query_failed ↦ internal_error
          | found contract ↦ elim (last_block chain) [
            | none ↦ bad_request
            | some last ↦ answered (record {
              chain_id = chain_id;
              contract_address = address;
              event_name = event_name;
              current_block_number =
                  current_of last
                    (lookup (indexed_key chain_id address contract.event_signature) cache);
              last_block_number = last;
            })
          ]
        ]
      ]
    ]
