-- ===== src/Ethereum/Client/Replay.antt =====
-- What `FilterLogs` leaves when nothing fails, and what it does the second time.
use event_pool.Prelude.{
  ℕ, ◌≡◌, refl, ap, ◌∙◌, inl, inr, List, [], ◌∷◌, ◌++◌, true, false, Option, none, some, arith,
  if◌then◌else◌, All, text_eq_iff, Bool-cases, Option-cases, Dict, lookup, insert, nat_Eq,
}
use event_pool.Text.{Text, to_lower}
use event_pool.Ethereum.Log.{Contract}
use event_pool.Ethereum.Decoder.{
  AbiLibrary, Decoder, Fields, raw, decode_event, decode_event_to_map,
}
use event_pool.Ethereum.Decoder.Total.{decode_event-answers}
use event_pool.Ethereum.Client.{
  RowKey, same_key, EventTable, LogEnv, Logged, Query, RawLog, Progress, key_of, block_timestamp,
  store_log, text_or, payload_of, existing, store_failed, stored, process_event_log, process_logs,
  raw_logs, filter_logs,
}

same_key_self : (k : RowKey) → same_key k k ≡ true
same_key_self k =
    ground (arith, text_eq_iff k.contract_id k.contract_id, text_eq_iff k.tx_hash k.tx_hash)

block_timestamp-some :
    (env : LogEnv) (block ts : ℕ) (cache : Dict ℕ ℕ)
    → env.block_time ≡ some ts
    → (now : ℕ) × (cache' : Dict ℕ ℕ) × (block_timestamp env block cache ≡ some (now, cache'))
unfolding block_timestamp
block_timestamp-some env block ts cache h = elim (Option-cases (lookup block cache)) [
  | inl e ↦ (ts, insert block ts cache, rw (e, h, block_timestamp))
  | inr (old, e) ↦ (old, cache, rw (e, block_timestamp))
]

first_topic :
    {H B : Type 0} (topics : List H) (f : H → B) (topic : H) (rest : List H)
    → topics ≡ topic ∷ rest
    → ◌≡◌ {A = Option B} (elim topics [ [] ↦ none | t ∷ _ ↦ some (f t) ]) (some (f topic))
first_topic topics f topic rest h = rw h

module _ (lib : AbiLibrary) (table : EventTable) (decoder : Decoder)
    (find_contract : ℕ → Text → Text → Option Contract) (q : Query) (contract : Contract)
    (known : find_contract q.chain_id (to_lower q.contract_address) q.event_signature
      ≡ some contract) where
  -- The log has its topic, and neither the node nor the database fails on it.
  abbrev pub IsServed : RawLog lib table × LogEnv → Type 0
  IsServed (log, env) =
      (env.find_fails ≡ false)
      × (env.create_fails ≡ false)
      × ((ts : ℕ) × (env.block_time ≡ some ts))
      × ((topic : lib.Hash) × (rest : List lib.Hash) × (log.topics ≡ topic ∷ rest))

  abbrev pub IsStored : Progress lib table → RawLog lib table × LogEnv → Type 0
  IsStored st (log, env) = table.has (key_of lib table contract log) st.rows ≡ true

  abbrev Keeps : Progress lib table → Progress lib table → Type 0
  Keeps st st' = (k : RowKey) → table.has k st.rows ≡ true → table.has k st'.rows ≡ true

  abbrev content_of : RawLog lib table → Text
  content_of log =
      text_or lib table (raw lib log.payload)
        (decode_event lib decoder q.event_signature log.payload log.topics)

  -- The state behind a log that was not there.
  abbrev added :
      RawLog lib table
      → Progress lib table
      → Fields lib
      → ℕ
      → Dict ℕ ℕ
      → lib.Hash
      → Progress lib table
  added log st fields now cache topic = record {
    rows = table.create (key_of lib table contract log) (content_of log) st.rows;
    published = st.published ++ payload_of lib table decoder q log fields now topic ∷ [];
    timestamps = cache;
  }

  store_log-stored :
      (env : LogEnv) (key : RowKey) (content : Text) (st : Progress lib table)
      → env.create_fails ≡ false
      → store_log lib table env key content st
        ≡ (stored, record st { rows = table.create key content st.rows })
  unfolding store_log
  store_log-stored env key content st h =
      ap
        (λ b.
          if b
          then (store_failed, st)
          else (stored, record st { rows = table.create key content st.rows }))
        h

  process_event_log-new :
      (log : RawLog lib table) (env : LogEnv) (st : Progress lib table) (fields : Fields lib)
      (now : ℕ) (cache : Dict ℕ ℕ) (topic : lib.Hash) (rest : List lib.Hash)
      → env.find_fails ≡ false
      → env.create_fails ≡ false
      → table.has (key_of lib table contract log) st.rows ≡ false
      → decode_event_to_map lib decoder q.event_signature log.payload log.topics ≡ some fields
      → block_timestamp env log.block_number st.timestamps ≡ some (now, cache)
      → log.topics ≡ topic ∷ rest
      → process_event_log lib table decoder find_contract q env log st
        ≡ some (stored, added log st fields now cache topic)
  unfolding process_event_log
  process_event_log-new log env st fields now cache topic rest finds creates missing mapped time
        has_topic =
      rw (known, finds, missing, mapped, time, process_event_log)
        (first_topic log.topics
            (λ t. store_log lib table env (key_of lib table contract log) (content_of log) (record {
              rows = st.rows;
              published = st.published ++ payload_of lib table decoder q log fields now t ∷ [];
              timestamps = cache;
            }))
            topic rest has_topic
          ∙ ap some (store_log-stored env (key_of lib table contract log) _ _ creates))

  process_event_log-served :
      (log : RawLog lib table) (env : LogEnv) (st : Progress lib table)
      → IsServed (log, env)
      → (logged : Logged) × (st' : Progress lib table) × (process_event_log lib table decoder
            find_contract q env log st
          ≡ some (logged, st'))
        × IsStored st' (log, env)
        × Keeps st st'
  unfolding process_event_log
  process_event_log-served log env st (finds, creates, (ts, timed), (topic, rest, has_topic)) =
      let key = key_of lib table contract log in
      elim (Bool-cases (table.has key st.rows)) [
        | inl there ↦ (existing, st, rw (known, finds, there, process_event_log), there, λ k h. h)
        | inr missing ↦
            let (_, (fields, mapped)) =
              decode_event-answers lib decoder q.event_signature log.payload log.topics in
            let (now, cache, time) =
              block_timestamp-some env log.block_number ts st.timestamps timed in
            (
              stored,
              added log st fields now cache topic,
              process_event_log-new log env st fields now cache topic rest finds creates missing
                  mapped time has_topic,
              rw (table.has-create key key (content_of log) st.rows, same_key_self key),
              λ k h. ground (arith, table.has-create key k (content_of log) st.rows),
            )
      ]

  process_logs-served :
      (logs : List (RawLog lib table × LogEnv)) (st : Progress lib table)
      → All IsServed logs
      → (st' : Progress lib table) × (process_logs lib table decoder find_contract q logs st
          ≡ some st')
        × All (IsStored st') logs
        × Keeps st st'
  unfolding process_logs
  process_logs-served [] st served = (st, refl, tt, λ k h. h)
  process_logs-served ((log, env) ∷ logs) st (here, served) =
      let (logged, st1, e1, stored_now, keeps1) = process_event_log-served log env st here in
      let (st2, e2, all_stored, keeps2) = process_logs-served logs st1 served in
      (
        st2,
        rw (e1, process_logs) e2,
        (keeps2 (key_of lib table contract log) stored_now, all_stored),
        λ k h. keeps2 k (keeps1 k h),
      )

  -- Logs that are stored change nothing.
  process_logs-stored :
      (logs : List (RawLog lib table × LogEnv)) (st : Progress lib table)
      → All IsServed logs
      → All (IsStored st) logs
      → process_logs lib table decoder find_contract q logs st ≡ some st
  unfolding process_logs process_event_log
  process_logs-stored [] st served there = refl
  process_logs-stored ((log, env) ∷ logs) st ((finds, _, _, _), served) (here, there) =
      rw (known, finds, here, process_logs) (process_logs-stored logs st served there)

  -- An answer of the node on whose logs nothing fails is passed on whole, and leaves each of its logs in
  -- the table beside the rows that were there. The same answer again is passed on again, but
  -- publishes nothing and stores nothing.
  pub filter_logs_again :
      (logs : List (RawLog lib table × LogEnv)) (st : Progress lib table)
      → All IsServed logs
      → (st' : Progress lib table) × (filter_logs lib table decoder find_contract q (some logs) st
          ≡ some (some (raw_logs lib table logs), st'))
        × All (IsStored st') logs
        × Keeps st st'
        × (filter_logs lib table decoder find_contract q (some logs) st'
            ≡ some (some (raw_logs lib table logs), record st' { timestamps = [] }))
  unfolding filter_logs
  filter_logs_again logs st served =
      let (st', e, there, keeps) =
        process_logs-served logs (record st { timestamps = [] }) served in
      (
        st',
        rw (e, filter_logs),
        there,
        keeps,
        rw (process_logs-stored logs (record st' { timestamps = [] }) served there, filter_logs),
      )
