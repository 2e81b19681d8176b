-- ===== src/Api/Events.antt =====
-- internal/api/contract.go: `GetEvents` of the REST server, and pkg/grpc/server.go: `GetEvents` of the
-- gRPC server. The two read a request into the same two queries, for a contract and for a page of its
-- events; both queries are parameters. A query's error is `query_failed` also where it means that no
-- row was found. A timestamp is its printed form.
pub mod Agreement
pub mod Bounds
mod Tests
use event_pool.Prelude.{
  ℕ, ◌+◌, ◌-◌, ◌*◌, ◌%◌, ◌^◌, List, [], ◌∷◌, ◌++◌, map, Bool, true, false, not, ◌&&◌, ◌||◌, Option,
  none, some, if◌then◌else◌, ltb, nat_eq,
}
use event_pool.Text.{Text, to_lower}
use event_pool.Ethereum.Log.{Contract}
use event_pool.Grpc.Http.{
  Response, bad_request, not_found, internal_error, answered, is_missing, Integer, parse_int, Found,
  missing, query_failed, found,
}

-- A row of the table EventLog with its contract.
pub record EventLog : Type 0 where
  pub id : Text
  pub contract : Contract
  pub block_number : ℕ
  pub tx_hash : Text
  pub log_index : ℕ
  pub content : Text
  pub created_at : Text

-- The query for events: of a contract, of a transaction where one is asked for, the latest blocks
-- first, so many skipped and so many taken.
pub record PageQuery : Type 0 where
  pub contract_id : Text
  pub tx_hash : Option Text
  pub skip : Integer
  pub take : Integer

-- The database: the first contract of a chain at an address, and the pages.
pub record Database : Type 0 where
  pub find_contract : Integer → Text → Found
  pub find_events : PageQuery → Option (List EventLog)

pub record Page : Type 0 where
  pub rows : List EventLog
  pub skip : Integer
  pub take : Integer

abbrev pub natural : ℕ → Integer
natural n = record { negative = false; magnitude = n }

abbrev pub is_positive : Integer → Bool
is_positive n = not n.negative && not (nat_eq n.magnitude 0)

-- A parameter of the query, with its default where it is missing, and the test that it has to pass.
abbrev pub read_param : Integer → (Integer → Bool) → Text → Option Integer
read_param default allowed value =
    if is_missing value
    then some default
    else elim (parse_int value) [ none ↦ none | some n ↦ if allowed n then some n else none ]

-- A query answered on a page.
abbrev pub paged : Option (List EventLog) → Integer → Integer → Response Page
paged none skip take = internal_error
paged (some rows) skip take = answered (record { rows = rows; skip = skip; take = take })

-- The queries of the REST server, once its parameters are read.
unfoldable pub page_of : Database → Integer → Text → Text → Integer → Integer → Response Page
unfolding to_lower
page_of db chain contract_address tx_hash skip take =
    elim (db.find_contract chain (to_lower contract_address)) [
      | query_failed ↦ internal_error
      | missing ↦ not_found
      | found contract ↦
          paged
            (db.find_events (record {
              contract_id = contract.id;
              tx_hash = if is_missing tx_hash then none else some (to_lower tx_hash);
              skip = skip;
              take = take;
            }))
            skip take
    ]

-- `GetEvents` of the REST server on the parameters of its query.
unfoldable pub get_events : Database → Text → Text → Text → Text → Text → Response Page
unfolding parse_int page_of
get_events db contract_address chain_id tx_hash take_param skip_param =
    if is_missing contract_address
    then bad_request
    else elim (read_param (natural 39) (λ n. true) chain_id) [
      | none ↦ bad_request
      | some chain ↦ elim (read_param (natural 10) is_positive take_param) [
        | none ↦ bad_request
        | some take ↦ elim (read_param (natural 0) (λ n. not n.negative) skip_param) [
          | none ↦ bad_request
          | some skip ↦ page_of db chain contract_address tx_hash skip take
        ]
      ]
    ]

-- The request of the gRPC server; its numbers are int32.
pub record GetEventsRequest : Type 0 where
  pub contract_address : Text
  pub chain_id : Integer
  pub tx_hash : Text
  pub take : Integer
  pub skip : Integer

pub record EventData : Type 0 where
  pub id : Text
  pub contract_address : Text
  pub block_number : ℕ
  pub tx_hash : Text
  pub log_index : Integer
  pub content : Text
  pub created_at : Text

pub record GetEventsResponse : Type 0 where
  pub rows : List EventData
  pub skip : Integer
  pub take : Integer

-- The conversion of a number to an int32, which wraps around.
unfoldable pub to_int32 : ℕ → Integer
to_int32 n =
    let low = n % 2 ^ 32 in
    if ltb low (2 ^ 31) then natural low else record { negative = true; magnitude = 2 ^ 32 - low }

unfoldable pub event_data : EventLog → EventData
unfolding to_int32
event_data e = record {
  id = e.id;
  contract_address = e.contract.address;
  block_number = e.block_number;
  tx_hash = e.tx_hash;
  log_index = to_int32 e.log_index;
  content = e.content;
  created_at = e.created_at;
}

-- How the call of the gRPC server ends.
pub data Reply : Type 0 where
  address_required no_contract failed : Reply
  replied : GetEventsResponse → Reply

unfoldable pub replied_page : Option (List EventLog) → Integer → Integer → Reply
unfolding event_data
replied_page none skip take = failed
replied_page (some rows) skip take =
    replied (record { rows = map event_data rows; skip = skip; take = take })

-- The queries of the gRPC server.
unfoldable pub reply_of : Database → Integer → Text → Text → Integer → Integer → Reply
unfolding to_lower replied_page
reply_of db chain contract_address tx_hash skip take =
    elim (db.find_contract chain (to_lower contract_address)) [
      | query_failed ↦ failed
      | missing ↦ no_contract
      | found contract ↦
          replied_page
            (db.find_events (record {
              contract_id = contract.id;
              tx_hash = if is_missing tx_hash then none else some (to_lower tx_hash);
              skip = skip;
              take = take;
            }))
            skip take
    ]

-- `GetEvents` of the gRPC server; the skip and the take of its answer come of an int32 and fit one.
unfoldable pub get_events_rpc : Database → GetEventsRequest → Reply
unfolding reply_of
get_events_rpc db req =
    if is_missing req.contract_address
    then address_required
    else reply_of db (if nat_eq req.chain_id.magnitude 0 then natural 39 else req.chain_id)
        req.contract_address req.tx_hash (if is_positive req.skip then req.skip else natural 0)
        (if is_positive req.take then req.take else natural 10)
