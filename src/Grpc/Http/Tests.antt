-- ===== src/Grpc/Http/Tests.antt =====
-- A backfill at block 120 of 500, asked for in another case of its address.
use event_pool.Prelude.{◌≡◌, arith, refl, [], true, false, none, some}
use event_pool.Text.{bytes, to_lower}
use event_pool.Text.Decimal.{print_nat}
use event_pool.Ethereum.Log.{Contract}
use event_pool.Listener.{EventListener, Run, update_backfill_status}
use event_pool.Grpc.Http.{
  Integer, parse_int, found, answered, unauthorized, request_token_handler, event_name_of,
  get_contract_status,
}
use event_pool.Grpc.Http.Status.{get_contract_status-follows}

abbrev transfers : EventListener
transfers = record {
  chain_id = 39;
  contract = bytes "0xA1";
  event_sig = bytes "0xdd";
  start_block = 10;
}

abbrev fresh : Run
fresh = record { cache = []; sent = []; closed = false; ranges = [] }

abbrev row : Contract
row = record {
  id = bytes "a";
  chain_id = 39;
  event_name = bytes "Burn";
  address = bytes "0xa1";
  event_signature = bytes "0xdd";
  start_block = 10;
  event_abi = [];
}

abbrev chain : Integer
chain = record { negative = false; magnitude = 39 }

negative :
    parse_int (bytes "-9223372036854775808")
    ≡ some (record { negative = true; magnitude = 9223372036854775808 })
unfolding parse_int
negative = refl

too_large : parse_int (bytes "9223372036854775808") ≡ none
unfolding parse_int
too_large = refl

named : event_name_of (bytes "Burn(uint256)") ≡ some (bytes "Burn")
unfolding event_name_of
named = refl

same_address : to_lower (bytes "0xa1") ≡ to_lower (bytes "0xA1")
unfolding to_lower
same_address = refl

wrong_gateway :
    request_token_handler
      (λ claims now secret. some [])
      (bytes "s")
      (some (bytes "gate"))
      0
      (bytes "POST")
      (bytes "x")
      none
    ≡ unauthorized
unfolding request_token_handler
wrong_gateway = refl

get_contract_status-follows_example :
    get_contract_status
      (λ c address name. found row)
      (λ c. some 500)
      (update_backfill_status transfers 120 fresh).cache
      (print_nat 39)
      (bytes "0xa1")
      (bytes "Burn(uint256)")
    ≡ answered (record {
      chain_id = print_nat 39;
      contract_address = bytes "0xa1";
      event_name = bytes "Burn";
      current_block_number = 120;
      last_block_number = 500;
    })
get_contract_status-follows_example =
    get_contract_status-follows (λ c address name. found row) (λ c. some 500) transfers fresh 120
      500 (bytes "0xa1") (bytes "Burn(uint256)") (bytes "Burn") row refl refl (omega arith) named
      refl refl same_address refl
