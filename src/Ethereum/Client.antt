-- ===== src/Ethereum/Client.antt =====
-- pkg/ethereum/client.go: `FilterLogs`, which asks the node for a contract's logs, publishes each new
-- one to the producer and stores it. The table of event logs is a parameter, with what a row that was
-- created changes for a later search; the node's and the database's failures are inputs. Block
-- numbers and log indices are below 2^63, so that `int` keeps them.
pub mod Samples
pub mod Replay
mod Tests
use event_pool.Prelude.{
  ℕ, List, [], ◌∷◌, ◌++◌, Bool, true, false, not, ◌&&◌, ◌||◌, Option, none, some, if◌then◌else◌,
  nat_eq, text_eq, Dict, lookup, insert, nat_Eq, text_Eq, ◌≡◌,
}
use event_pool.Text.{Text, bytes, to_lower}
use event_pool.Ethereum.Log.{Contract}
use event_pool.Ethereum.Decoder.{
  AbiEvent, AbiLibrary, Decoder, Fields, raw, decode_event, decode_event_to_map,
}

-- By what a row is searched: contract, block, transaction and index.
pub record RowKey : Type 0 where
  pub contract_id : Text
  pub block_number : ℕ
  pub tx_hash : Text
  pub log_index : ℕ

abbrev pub same_key : RowKey → RowKey → Bool
same_key a b =
    text_eq a.contract_id b.contract_id
    && (nat_eq a.block_number b.block_number
        && (text_eq a.tx_hash b.tx_hash && nat_eq a.log_index b.log_index))

-- By what a row is searched whatever its contract.
pub record LogKey : Type 0 where
  pub block_number : ℕ
  pub tx_hash : Text
  pub log_index : ℕ

abbrev pub log_key : RowKey → LogKey
log_key k = record { block_number = k.block_number; tx_hash = k.tx_hash; log_index = k.log_index }

abbrev pub same_log : LogKey → LogKey → Bool
same_log a b =
    nat_eq a.block_number b.block_number
    && (text_eq a.tx_hash b.tx_hash && nat_eq a.log_index b.log_index)

-- `FindFirst` by a key, with the contract or without, and `CreateOne` with a row's key and text.
pub record EventTable : Type 1 where
  pub Rows : Type 0
  pub has : RowKey → Rows → Bool
  pub has_log : LogKey → Rows → Bool
  pub create : RowKey → Text → Rows → Rows
  pub has-create :
      (k j : RowKey) (content : Text) (rows : Rows)
      → has j (create k content rows) ≡ (same_key k j || has j rows)
  pub has_log-create :
      (k : RowKey) (j : LogKey) (content : Text) (rows : Rows)
      → has_log j (create k content rows) ≡ (same_log (log_key k) j || has_log j rows)
  pub has-has_log : (k : RowKey) (rows : Rows) → has k rows ≡ true → has_log (log_key k) rows ≡ true

-- What a log's processing meets: an error of the search, the block's time, an error of the insert.
pub record LogEnv : Type 0 where
  pub find_fails : Bool
  pub block_time : Option ℕ
  pub create_fails : Bool

pub data Logged : Type 0 where
  no_contract existing no_block store_failed stored : Logged

-- The arguments of `FilterLogs` that the logs' processing reads.
pub record Query : Type 0 where
  pub chain_id : ℕ
  pub contract_address : Text
  pub event_signature : Text

-- The time of a block, with the cache behind it; `none` is an error of the node.
unfoldable pub block_timestamp : LogEnv → ℕ → Dict ℕ ℕ → Option (ℕ × Dict ℕ ℕ)
block_timestamp env block cache = elim (lookup block cache) [
  | some ts ↦ some (ts, cache)
  | none ↦ elim env.block_time [ none ↦ none | some ts ↦ some (ts, insert block ts cache) ]
]

module _ (lib : AbiLibrary) (table : EventTable) where
  open table use {Rows, has, create}

  -- `types.Log`, with the text of its hashes.
  pub record RawLog : Type 0 where
    pub block_number : ℕ
    pub tx_hash : Text
    pub block_hash : Text
    pub index : ℕ
    pub topics : List lib.Hash
    pub payload : Text

  -- `EventRunnerPayload`
  pub record Payload : Type 0 where
    pub params : Fields lib
    pub transaction_hash : Text
    pub timestamp : ℕ
    pub block_number : ℕ
    pub block_hash : Text
    pub contract_address : Text
    pub event_name : Text
    pub event_signature : Text
    pub event_data : Text
    pub event_log_index : ℕ
    pub chain_id : ℕ

  -- The table, what was published, and the cache of the blocks' times.
  pub record Progress : Type 0 where
    pub rows : Rows
    pub published : List Payload
    pub timestamps : Dict ℕ ℕ

  unfoldable pub key_of : Contract → RawLog → RowKey
  unfolding to_lower
  key_of contract log = record {
    contract_id = contract.id;
    block_number = log.block_number;
    tx_hash = to_lower log.tx_hash;
    log_index = log.index;
  }

  abbrev name_of : Option AbiEvent → Text
  name_of none = []
  name_of (some event) = event.name

  abbrev pub text_or : Text → Option Text → Text
  text_or other none = other
  text_or other (some json) = json

  -- What is handed to the producer.
  abbrev pub payload_of : Decoder → Query → RawLog → Fields lib → ℕ → lib.Hash → Payload
  payload_of decoder q log fields ts topic = record {
    params = fields;
    transaction_hash = log.tx_hash;
    timestamp = ts;
    block_number = log.block_number;
    block_hash = log.block_hash;
    contract_address = q.contract_address;
    event_name = name_of (lookup q.event_signature decoder);
    event_signature = lib.hash_hex topic;
    event_data = log.payload;
    event_log_index = log.index;
    chain_id = q.chain_id;
  }

  unfoldable pub store_log : LogEnv → RowKey → Text → Progress → Logged × Progress
  store_log env key content st =
      if env.create_fails
      then (store_failed, st)
      else (stored, record st { rows = create key content st.rows })

  -- `processEventLog`; `none` is the panic at a log without topics. An error of the search counts as a
  -- row that is not there, and a log is published before it is stored.
  unfoldable pub process_event_log :
      Decoder
      → (ℕ → Text → Text → Option Contract)
      → Query
      → LogEnv
      → RawLog
      → Progress
      → Option (Logged × Progress)
  unfolding key_of block_timestamp store_log decode_event decode_event_to_map
  process_event_log decoder find_contract q env log st =
      elim (find_contract q.chain_id (to_lower q.contract_address) q.event_signature) [
        | none ↦ some (no_contract, st)
        | some contract ↦
            let key = key_of contract log in
            let content =
              text_or (raw lib log.payload)
                (decode_event lib decoder q.event_signature log.payload log.topics) in
            if not env.find_fails && has key st.rows
            then some (existing, st)
            else elim (decode_event_to_map lib decoder q.event_signature log.payload log.topics) [
              | none ↦ some (store_log env key content st)
              | some fields ↦ elim (block_timestamp env log.block_number st.timestamps) [
                | none ↦ some (no_block, st)
                | some (ts, cache) ↦ elim log.topics [
                  | [] ↦ none
                  | topic ∷ _ ↦
                      let payload = payload_of decoder q log fields ts topic in
                      some (
                        store_log env key content (record st {
                          published = st.published ++ payload ∷ [];
                          timestamps = cache;
                        }))
                ]
              ]
            ]
      ]

  -- The loop over the node's logs, which goes on behind an error.
  unfoldable pub process_logs :
      Decoder
      → (ℕ → Text → Text → Option Contract)
      → Query
      → List (RawLog × LogEnv)
      → Progress
      → Option Progress
  unfolding process_event_log
  process_logs decoder find_contract q [] st = some st
  process_logs decoder find_contract q ((log, env) ∷ logs) st =
      elim (process_event_log decoder find_contract q env log st) [
        | none ↦ none
        | some (logged, st') ↦ process_logs decoder find_contract q logs st'
      ]

  abbrev pub raw_logs : List (RawLog × LogEnv) → List RawLog
  raw_logs [] = []
  raw_logs ((log, env) ∷ logs) = log ∷ raw_logs logs

  -- `FilterLogs` on the node's answer: its result, none for an error, and what it leaves.
  unfoldable pub filter_logs :
      Decoder
      → (ℕ → Text → Text → Option Contract)
      → Query
      → Option (List (RawLog × LogEnv))
      → Progress
      → Option (Option (List RawLog) × Progress)
  unfolding process_logs
  filter_logs decoder find_contract q answer st = elim answer [
    | none ↦ some (none, st)
    | some logs ↦ elim (process_logs decoder find_contract q logs (record st { timestamps = [] })) [
      | none ↦ none
      | some st' ↦ some (some (raw_logs logs), st')
    ]
  ]
