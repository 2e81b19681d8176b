-- ===== src/Api/Events/Tests.antt =====
-- Two events of one contract, asked for from both servers.
use event_pool.Prelude.{ℕ, ◌≡◌, refl, [], ◌∷◌, true, if◌then◌else◌, none, some, arith}
use event_pool.Text.{bytes}
use event_pool.Ethereum.Log.{Contract}
use event_pool.Grpc.Http.{bad_request, found, parse_int, read_digits}
use event_pool.Api.Events.{
  Database, EventLog, is_positive, get_events, get_events_rpc, event_data, to_int32,
}
use event_pool.Api.Events.Agreement.{query_text, as_reply, rpc_request, get_events_rpc-get_events}
use event_pool.Api.Events.Bounds.{SameOnPages, get_events-IsPage}

abbrev the_contract : Contract
the_contract = record {
  id = bytes "c0";
  chain_id = 39;
  event_name = bytes "A";
  address = bytes "0xab";
  event_signature = bytes "0xdd";
  start_block = 7;
  event_abi = [];
}

abbrev an_event : ℕ → EventLog
an_event index = record {
  id = bytes "e";
  contract = the_contract;
  block_number = 9;
  tx_hash = bytes "0xcc";
  log_index = index;
  content = bytes "{}";
  created_at = bytes "2025-01-01T00:00:00Z";
}

abbrev two_events : Database
two_events = record {
  find_contract = λ chain address. found the_contract;
  find_events = λ q. some (an_event 0 ∷ an_event 1 ∷ []);
}

get_events_rpc-get_events_example :
    get_events_rpc two_events (rpc_request (bytes "0xAB") (bytes "0xCC") 39 5 0)
    ≡ as_reply (
        get_events two_events
          (bytes "0xAB")
          (query_text 39)
          (bytes "0xCC")
          (query_text 5)
          (query_text 0))
get_events_rpc-get_events_example =
    get_events_rpc-get_events two_events (bytes "0xAB") (bytes "0xCC") 39 5 0 (omega arith)
      (omega arith) (omega arith)

-- A take of 0 is refused by the one server.
zero_take : get_events two_events (bytes "0xAB") [] [] (bytes "0") [] ≡ bad_request
unfolding get_events parse_int read_digits
zero_take = refl

-- Another database, which answers nothing to other pages.
abbrev pages_only : Database
pages_only = record {
  find_contract = λ chain address. found the_contract;
  find_events = λ q. if is_positive q.take then some (an_event 0 ∷ an_event 1 ∷ []) else none;
}

same_on_pages : SameOnPages two_events pages_only
same_on_pages = (λ chain address. refl, λ q h. rw h.0 refl)

get_events-IsPage_example :
    (get_events two_events (bytes "0xAB") [] [] (bytes "5") []
      ≡ get_events pages_only (bytes "0xAB") [] [] (bytes "5") [])
    × (get_events_rpc two_events (rpc_request (bytes "0xAB") [] 39 0 0)
        ≡ get_events_rpc pages_only (rpc_request (bytes "0xAB") [] 39 0 0))
get_events-IsPage_example =
    get_events-IsPage two_events pages_only (bytes "0xAB") [] [] (bytes "5") []
      (rpc_request (bytes "0xAB") [] 39 0 0) same_on_pages

-- An index from 2^31 on comes out negative.
wrapped_index : (event_data (an_event 3000000000)).log_index.negative ≡ true
unfolding event_data to_int32
wrapped_index = refl
