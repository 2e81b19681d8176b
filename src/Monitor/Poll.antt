-- ===== src/Monitor/Poll.antt =====
-- `monitorContract` of internal/monitor/monitor.go, from its start to a tick of its ticker, with
-- `ProcessLogsEvent` and `processEvent`. What the node, the decoder and the database answer is an
-- input; uint64 sums wrap. Chain ids are below 2^31, so that `int32(chainID)` keeps them.
use event_pool.Prelude.{
  ℕ, zero, suc, ◌+◌, ◌-◌, ◌%◌, ◌^◌, List, [], ◌∷◌, ◌++◌, Bool, true, false, Option, none, some,
  if◌then◌else◌, ltb, leb, Dict, lookup, insert, nat_Eq,
}
use event_pool.Text.{Text, bytes, to_lower}
use event_pool.Ethereum.Log.{Log, Contract}
use event_pool.Monitor.{Monitor}

-- A call of `BroadcastEvent`.
pub record Broadcast : Type 0 where
  pub chain_id : ℕ
  pub address : Text
  pub event_name : Text
  pub block_number : ℕ
  pub tx_hash : Text
  pub content : Text

-- What surrounds the monitor of a contract: the client's `FilterLogs` by range, `DecodeEvent` with
-- none for its error, `common.Bytes2Hex`, the query for a contract by chain, address and signature,
-- and whether there is a gRPC server.
pub record Env : Type 0 where
  pub filter_logs : ℕ → ℕ → Option (List Log)
  pub decode_event : Text → Log → Option Text
  pub bytes_to_hex : Text → Text
  pub find_contract : ℕ → Text → Text → Option Contract
  pub has_server : Bool

abbrev pub u64 : ℕ
u64 = 2 ^ 64

abbrev pub batch_size : ℕ
batch_size = 5

-- `Start` of the goroutine up to its ticker: no client or no latest block ends it; a chain that has
-- no block yet begins at the latest one.
unfoldable pub begin_monitor : Contract → Bool → Option ℕ → Monitor → Bool × Monitor
begin_monitor c has_client latest m =
    if has_client
    then elim latest [
      | none ↦ (false, m)
      | some block ↦ elim (lookup c.chain_id m.last_blocks) [
        | some last ↦ (true, m)
        | none ↦ (true, record m { last_blocks = insert c.chain_id block m.last_blocks })
      ]
    ]
    else (false, m)

-- The `none` is the error of a contract that the database does not find.
unfoldable pub process_event : Env → ℕ → Text → Text → Log → Text → Option (List Broadcast)
unfolding to_lower
process_event env chain_id address event_signature log decoded =
    elim (env.find_contract chain_id (to_lower address) event_signature) [
      | none ↦ none
      | some contract ↦
          if env.has_server
          then some (
              record {
                chain_id = chain_id;
                address = address;
                event_name = contract.event_name;
                block_number = log.block_number;
                tx_hash = log.tx_hash;
                content = decoded;
              }
              ∷ [])
          else some []
    ]

unfoldable pub decoded_or_raw : Env → Text → Log → Text
decoded_or_raw env event_signature log = elim (env.decode_event event_signature log) [
  | some decoded ↦ decoded
  | none ↦ bytes "{\"raw\": \"" ++ (env.bytes_to_hex log.payload ++ bytes "\"}")
]

-- The broadcasts of a batch; a log that fails is passed over.
unfoldable pub process_logs_event : Env → ℕ → Text → Text → List Log → List Broadcast
unfolding process_event decoded_or_raw
process_logs_event env chain_id address event_signature [] = []
process_logs_event env chain_id address event_signature (log ∷ logs) =
    let rest = process_logs_event env chain_id address event_signature logs in
    elim (process_event env chain_id address event_signature log
      (decoded_or_raw env event_signature log)) [ none ↦ rest | some sent ↦ sent ++ rest ]

-- What a tick leaves: the map of last blocks, the broadcasts, and the ranges that were fetched.
pub record Tick : Type 0 where
  pub blocks : Dict ℕ ℕ
  pub events : List Broadcast
  pub ranges : List (ℕ × ℕ)

abbrev pub batch_end : ℕ → ℕ → ℕ
batch_end from current =
    let to = (from + batch_size + u64 - 1) % u64 in if ltb current to then current else to

-- One round of the loop over the batches; an error goes on to the next batch.
unfoldable pub poll_batch : Env → Contract → ℕ → ℕ → Tick → Tick
unfolding process_logs_event
poll_batch env c from to t = elim (env.filter_logs from to) [
  | none ↦ t
  | some logs ↦ record {
    blocks = insert c.chain_id to t.blocks;
    events = t.events ++ process_logs_event env c.chain_id c.address c.event_signature logs;
    ranges = t.ranges ++ (from, to) ∷ [];
  }
]

-- `none` is fuel that ran out.
unfoldable pub poll_loop : Env → Contract → ℕ → ℕ → ℕ → Tick → Option Tick
unfolding poll_batch
poll_loop env c zero from current t = none
poll_loop env c (suc fuel) from current t = elim (leb from current) [
  | false ↦ some t
  | true ↦
      poll_loop env c fuel ((from + batch_size) % u64) current
        (poll_batch env c from (batch_end from current) t)
]

abbrev pub or_zero : Option ℕ → ℕ
or_zero none = 0
or_zero (some n) = n

-- A tick whose client answers with the block `current`. A chain without an entry reads as 0. The
-- fuel counts the blocks from the last one processed.
unfoldable pub poll : Env → Contract → ℕ → Dict ℕ ℕ → Option Tick
unfolding poll_loop
poll env c current blocks =
    let last = or_zero (lookup c.chain_id blocks) in
    let t : Tick = record { blocks = blocks; events = []; ranges = [] } in
    if ltb last current
    then poll_loop env c (current + 1 - last) ((last + 1) % u64) current t
    else some t

-- A tick on the monitor; an error of `GetLatestBlock` skips it.
unfoldable pub tick : Env → Contract → Option ℕ → Monitor → Option (Monitor × List Broadcast)
unfolding poll
tick env c latest m = elim latest [
  | none ↦ some (m, [])
  | some current ↦ elim (poll env c current m.last_blocks) [
    | none ↦ none
    | some t ↦ some (record m { last_blocks = t.blocks }, t.events)
  ]
]
