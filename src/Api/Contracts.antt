-- ===== src/Api/Contracts.antt =====
-- internal/api/contract.go: the endpoints that register a contract's events and list the contracts.
-- A request's chain and start block are natural numbers; its JSON, go-ethereum's check of an address,
-- the database and the task queue are inputs, and a response is a record or a status.
pub mod Registering
pub mod Served
pub mod Listing
mod Tests
use event_pool.Prelude.{
  ℕ, suc, ◌+◌, List, [], ◌∷◌, ◌++◌, Bool, true, false, not, Option, none, some, if◌then◌else◌, Dict,
  lookup, insert, nat_Eq,
}
use event_pool.Text.{Text, bytes, has_prefix, to_lower}
use event_pool.Ethereum.Log.{Contract}
use event_pool.Ethereum.Signature.{parse_event_signature, extract_event_name}
use event_pool.Ethereum.Decoder.{AbiLibrary, Decoder, registered, register_event}
use event_pool.Grpc.Http.{
  Response, bad_request, internal_error, answered, is_missing, Integer, parse_int,
}
use event_pool.Worker.{BackfillPayload}

-- `IsValidAddress` of pkg/ethereum/utils.go over `common.IsHexAddress`.
unfoldable pub is_valid_address : (Text → Bool) → Text → Bool
unfolding has_prefix
is_valid_address is_hex_address address =
    is_hex_address (if has_prefix address (bytes "0x") then address else bytes "0x" ++ address)

pub record RegisterRequest : Type 0 where
  pub chain_id : ℕ
  pub contract_addr : Text
  pub event_signatures : List Text
  pub event_abi : Text
  pub start_block : ℕ

-- The hash of an event and its name.
pub record ParsedEvent : Type 0 where
  pub event_sig : Text
  pub event_name : Text

-- The loop that converts the signatures.
unfoldable pub parse_signatures : (Text → Text) → List Text → Option (List ParsedEvent)
unfolding parse_event_signature extract_event_name
parse_signatures keccak_hex [] = some []
parse_signatures keccak_hex (sig ∷ sigs) = elim (parse_event_signature keccak_hex sig) [
  | none ↦ none
  | some event_sig ↦ elim (extract_event_name sig) [
    | none ↦ none
    | some event_name ↦ elim (parse_signatures keccak_hex sigs) [
      | none ↦ none
      | some rest ↦ some (record { event_sig = event_sig; event_name = event_name } ∷ rest)
    ]
  ]
]

-- The table Contract, the queue of tasks, and the clients' decoders by their chain.
pub record Store : Type 0 where
  pub contracts : List Contract
  pub tasks : List BackfillPayload
  pub decoders : Dict ℕ Decoder

-- What the database and the queue answer for one event: the new row's id, and a failed enqueue.
pub record RegisterEnv : Type 0 where
  pub created : Option Text
  pub enqueue_fails : Bool

abbrev pub contract_of : RegisterRequest → ParsedEvent → Text → Contract
contract_of req event id = record {
  id = id;
  chain_id = req.chain_id;
  event_name = event.event_name;
  address = to_lower req.contract_addr;
  event_signature = event.event_sig;
  start_block = req.start_block;
  event_abi = req.event_abi;
}

abbrev pub task_of : RegisterRequest → ParsedEvent → BackfillPayload
task_of req event = record {
  chain_id = req.chain_id;
  contract_addr = req.contract_addr;
  event_sig = event.event_sig;
  start_block = req.start_block;
}

-- The ABI goes to the decoder of the chain's client; one that the decoder refuses is passed over, and
-- `none` is a chain without a client.
unfoldable pub register_abi :
    AbiLibrary → RegisterRequest → ParsedEvent → Dict ℕ Decoder → Option (Dict ℕ Decoder)
unfolding register_event
register_abi lib req event decoders =
    if is_missing req.event_abi then some decoders else elim (lookup req.chain_id decoders) [
      | none ↦ none
      | some decoder ↦ elim (register_event lib event.event_sig req.event_abi decoder) [
        | registered decoder' ↦ some (insert req.chain_id decoder' decoders)
        | _ ↦ some decoders
      ]
    ]

-- The body of the loop that creates rows and tasks: the row's id, or the error that ends the request.
unfoldable pub register_one :
    AbiLibrary → RegisterRequest → RegisterEnv → ParsedEvent → Store → Option Text × Store
unfolding to_lower register_abi
register_one lib req env event s = elim env.created [
  | none ↦ (none, s)
  | some id ↦
      let s' = record s { contracts = s.contracts ++ contract_of req event id ∷ [] } in
      elim (register_abi lib req event s.decoders) [
        | none ↦ (none, s')
        | some decoders ↦ if env.enqueue_fails then (none, record s' { decoders = decoders }) else (
          some id,
          record s' { tasks = s.tasks ++ task_of req event ∷ []; decoders = decoders },
        )
      ]
]

-- An error ends the request; else the loop goes on with the id behind the others.
abbrev pub after_one :
    Option Text × Store
    → List Text
    → (List Text → Store → Response (List Text) × Store)
    → Response (List Text) × Store
after_one (none, s) ids rest = (internal_error, s)
after_one (some id, s) ids rest = rest (ids ++ id ∷ []) s

-- The loop from the i-th event on, behind the rows with these ids.
unfoldable pub register_all :
    AbiLibrary
    → RegisterRequest
    → (ℕ → RegisterEnv)
    → ℕ
    → List ParsedEvent
    → List Text
    → Store
    → Response (List Text) × Store
unfolding register_one
register_all lib req env i [] ids s = (answered ids, s)
register_all lib req env i (event ∷ events) ids s =
    after_one (register_one lib req (env i) event s) ids
      λ ids' s'. register_all lib req env (suc i) events ids' s'

-- `RegisterContract` over the request's body and the configured chains.
unfoldable pub register_contract :
    AbiLibrary
    → (Text → Text)
    → (Text → Bool)
    → (ℕ → Bool)
    → (ℕ → RegisterEnv)
    → Option RegisterRequest
    → Store
    → Response (List Text) × Store
unfolding is_valid_address parse_signatures register_all
register_contract lib keccak_hex is_hex_address has_chain env body s = elim body [
  | none ↦ (bad_request, s)
  | some req ↦
      if not (has_chain req.chain_id)
      then (bad_request, s)
      else if not (is_valid_address is_hex_address req.contract_addr)
      then (bad_request, s)
      else elim (parse_signatures keccak_hex req.event_signatures) [
        | none ↦ (bad_request, s)
        | some events ↦ register_all lib req env 0 events [] s
      ]
]

-- A condition on the rows of `GetContracts`.
pub data Filter : Type 0 where
  chain_is : Integer → Filter
  address_is : Text → Filter
  signature_is : Text → Filter

abbrev pub unless_missing : Text → Filter → List Filter
unless_missing value filter = if is_missing value then [] else filter ∷ []

-- `GetContracts` on the parameters of the query; `find_many` asks the database.
unfoldable pub get_contracts :
    (List Filter → Option (List Contract)) → Text → Text → Text → Response (List Contract)
unfolding parse_int
get_contracts find_many chain_id address event_sig =
    let rest =
      unless_missing address (address_is address)
      ++ unless_missing event_sig (signature_is event_sig) in
    let answer : List Filter → Response (List Contract) = λ filters. elim (find_many filters) [
      | none ↦ internal_error
      | some contracts ↦ answered contracts
    ] in
    if is_missing chain_id then answer rest else elim (parse_int chain_id) [
      | none ↦ bad_request
      | some chain ↦ answer (chain_is chain ∷ rest)
    ]
