-- ===== src/Api/Contracts/Tests.antt =====
-- The theorems on contracts for one request of two events.
use event_pool.Prelude.{
  ℕ, zero, suc, ◌≡◌, refl, ◌≢◌, ◌⊎◌, List, [], ◌∷◌, true, false, Option, none, some, All, nat_eq,
  text_eq, text_eq_iff,
}
use event_pool.Text.{Text, bytes, to_lower}
use event_pool.Ethereum.Log.{Contract}
use event_pool.Ethereum.Decoder.Samples.{sample_library}
use event_pool.Grpc.Http.{Response, bad_request, answered}
use event_pool.Api.Contracts.{
  RegisterRequest, ParsedEvent, Store, RegisterEnv, Filter, register_contract, register_all,
  register_one, register_abi, parse_signatures, is_valid_address, get_contracts,
}
use event_pool.Api.Contracts.Registering.{Accepts, Served, register_contract-Served}
use event_pool.Api.Contracts.Served.{IsFound, HasContract, register_contract-begins}
use event_pool.Api.Contracts.Listing.{Answers}

abbrev two_events : RegisterRequest
two_events = record {
  chain_id = 39;
  contract_addr = bytes "0xAB";
  event_signatures = bytes "A(uint256)" ∷ bytes "B()" ∷ [];
  event_abi = [];
  start_block = 7;
}

-- The second row fails.
abbrev second_fails : ℕ → RegisterEnv
second_fails zero = record { created = some (bytes "c0"); enqueue_fails = false }
second_fails (suc i) = record { created = none; enqueue_fails = false }

abbrev empty_store : Store
empty_store = record { contracts = []; tasks = []; decoders = [] }

abbrev register_two : Response (List Text) × Store
register_two =
    register_contract sample_library (λ sig. sig) (λ address. true) (nat_eq 39) second_fails
      (some two_events) empty_store

register_contract-Served_example :
    (register_two ≡ (bad_request, empty_store))
    ⊎ ((req : RegisterRequest) × (events : List ParsedEvent) × (some two_events ≡ some req)
        × Accepts (λ sig. sig) (λ address. true) (nat_eq 39) req events
        × Served req events [] empty_store register_two)
register_contract-Served_example =
    register_contract-Served sample_library (λ sig. sig) (λ address. true) (nat_eq 39) second_fails
      (some two_events) empty_store

abbrev the_row : Contract
the_row = record {
  id = bytes "c0";
  chain_id = 39;
  event_name = bytes "A";
  address = bytes "0xab";
  event_signature = bytes "A(uint256)";
  start_block = 7;
  event_abi = [];
}

abbrev find_the_row : ℕ → Text → Text → Option Contract
find_the_row chain_id address event_sig = some the_row

the_row-IsFound : (c : Contract) → IsFound (nat_eq 39) find_the_row true 0 c
the_row-IsFound c e = cc e

register_contract-begins_example :
    All (HasContract (nat_eq 39) find_the_row true 0) register_two.1.tasks
unfolding register_contract register_all register_one register_abi parse_signatures is_valid_address
register_contract-begins_example =
    register_contract-begins (nat_eq 39) find_the_row true 0 sample_library (λ sig. sig)
      (λ address. true) (nat_eq 39) second_fails (some two_events) empty_store
      (the_row-IsFound the_row, tt) tt

-- A database of the one row.
abbrev one_row : List Filter → Option (List Contract)
one_row [] = some (the_row ∷ [])
one_row _ = some []

one_row-Answers : (filters : List Filter) → Answers filters (one_row filters)
unfolding to_lower
one_row-Answers [] = ((refl, tt), tt)
one_row-Answers (f ∷ fs) = tt

upper≢lower : bytes "0xAB" ≢ to_lower (bytes "0xAB")
unfolding to_lower text_eq
upper≢lower e =
    let differ : false ≡ true = (text_eq_iff (bytes "0xAB") (to_lower (bytes "0xAB"))).1 e in
    cc differ

run_empty : get_contracts one_row [] (bytes "0xAB") [] ≡ answered []
unfolding get_contracts
run_empty = refl
