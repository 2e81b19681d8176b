-- ===== src/Ethereum/Client/Tests.antt =====
-- A node's answer that is fetched twice, over a table that is the list of its rows.
use event_pool.Prelude.{ℕ, ◌≡◌, refl, List, [], ◌∷◌, true, false, Option, some, All}
use event_pool.Text.{Text, bytes}
use event_pool.Ethereum.Log.{Contract}
use event_pool.Ethereum.Decoder.{Decoder}
use event_pool.Ethereum.Decoder.Samples.{sample_library, transfer_event}
use event_pool.Ethereum.Client.Samples.{sample_table}
use event_pool.Ethereum.Client.{RowKey, LogEnv, Query, RawLog, Progress, raw_logs, filter_logs}
use event_pool.Ethereum.Client.Replay.{IsStored, filter_logs_again}

abbrev contract : Contract
contract = record {
  id = bytes "a";
  chain_id = 39;
  event_name = bytes "Transfer";
  address = bytes "0xa1";
  event_signature = bytes "0xdd";
  start_block = 10;
  event_abi = [];
}

abbrev find_contract : ℕ → Text → Text → Option Contract
find_contract chain_id address signature = some contract

abbrev query : Query
query = record { chain_id = 39; contract_address = bytes "0xA1"; event_signature = bytes "0xdd" }

abbrev log : RawLog sample_library sample_table
log = record {
  block_number = 12;
  tx_hash = bytes "0xF";
  block_hash = bytes "0xB";
  index = 0;
  topics = 1 ∷ 2 ∷ [];
  payload = bytes "ff";
}

abbrev served : LogEnv
served = record { find_fails = false; block_time = some 1000; create_fails = false }

abbrev empty : Progress sample_library sample_table
empty = record { rows = []; published = []; timestamps = [] }

abbrev logs : List (RawLog sample_library sample_table × LogEnv)
logs = (log, served) ∷ []

abbrev decoder : Decoder
decoder = (bytes "0xdd", transfer_event) ∷ []

filter_logs_again_example :
    (st' : Progress sample_library sample_table) × (filter_logs sample_library sample_table decoder
        find_contract query
        (some logs)
        empty
      ≡ some (some (raw_logs sample_library sample_table logs), st'))
    × All (IsStored sample_library sample_table decoder find_contract query contract refl st') logs
    × ((k : RowKey) → sample_table.has k [] ≡ true → sample_table.has k st'.rows ≡ true)
    × (filter_logs sample_library sample_table decoder find_contract query (some logs) st'
        ≡ some (some (raw_logs sample_library sample_table logs), record st' { timestamps = [] }))
filter_logs_again_example =
    filter_logs_again sample_library sample_table decoder find_contract query contract refl logs
      empty ((refl, refl, (1000, refl), (1, 2 ∷ [], refl)), tt)
