-- ===== src/Worker/Stored.antt =====
-- The loop behind the client: `FilterLogs` has stored what the listener hands over.
use event_pool.Prelude.{ℕ, ◌≡◌, refl, List, [], ◌∷◌, Option, some, All}
use event_pool.Text.{Text, to_lower}
use event_pool.Ethereum.Log.{Contract}
use event_pool.Ethereum.Decoder.{AbiLibrary, Decoder}
use event_pool.Ethereum.Client.{
  EventTable, LogEnv, Query, RawLog, Progress, key_of, raw_logs, filter_logs,
}
use event_pool.Ethereum.Client.Replay.{IsServed, IsStored, filter_logs_again}
use event_pool.Worker.{store_event}

-- The rows after some events, one after the other.
abbrev store_all : {A S : Type 0} → (A → S → S) → List A → S → S
store_all store [] rows = rows
store_all store (e ∷ es) rows = store_all store es (store e rows)

module _ (lib : AbiLibrary) (table : EventTable) (decoder : Decoder)
    (find_contract : ℕ → Text → Text → Option Contract) (q : Query) (contract : Contract)
    (known : find_contract q.chain_id (to_lower q.contract_address) q.event_signature
      ≡ some contract) where
  store_all-stored :
      (logs : List (RawLog lib table × LogEnv)) (st : Progress lib table)
      → All (IsServed lib table decoder find_contract q contract known) logs
      → All (IsStored lib table decoder find_contract q contract known st) logs
      → store_all (store_event lib table decoder q.event_signature contract) logs st.rows ≡ st.rows
  unfolding store_event
  store_all-stored [] st served there = refl
  store_all-stored ((log, env) ∷ logs) st ((finds, _, _, _), served) (here, there) =
      let found = table.has-has_log (key_of lib table contract log) st.rows here in
      rw (finds, found, store_event) (store_all-stored logs st served there)

  -- The logs that a `FilterLogs` without failures handed to the listener are in the table already: the
  -- worker that receives them all leaves the rows as `FilterLogs` left them.
  pub store_event_again :
      (logs : List (RawLog lib table × LogEnv)) (st : Progress lib table)
      → All (IsServed lib table decoder find_contract q contract known) logs
      → (st' : Progress lib table) × (filter_logs lib table decoder find_contract q (some logs) st
          ≡ some (some (raw_logs lib table logs), st'))
        × (store_all (store_event lib table decoder q.event_signature contract) logs st'.rows
            ≡ st'.rows)
  store_event_again logs st served =
      let (st', e, there, _, _) =
        filter_logs_again lib table decoder find_contract q contract known logs st served in
      (st', e, store_all-stored logs st' served there)
