-- ===== src/Worker/Loop.antt =====
-- What the loop has received and what the table holds, whatever the order of the steps.
use mathlib.Core.List.{append_assoc, append-nil}
use event_pool.Prelude.{
  ℕ, ◌≡◌, refl, subst, sym, ap, ◌∙◌, List, [], ◌∷◌, ◌++◌, Bool, true, false, not, ◌&&◌, ◌||◌,
  Option, none, some, All, All-append, arith, Option-cases, Bool-cases, inl, inr, if_elim, ==_refl,
  nat_Eq, text_Eq,
}
use event_pool.Text.{Text, to_lower}
use event_pool.Ethereum.Log.{Contract}
use event_pool.Ethereum.Decoder.{AbiLibrary, Decoder, Fields}
use event_pool.Ethereum.Client.{
  EventTable, LogEnv, LogKey, RowKey, same_log, log_key, Logged, Query, RawLog, Progress, key_of,
  payload_of, block_timestamp, store_log, process_event_log, process_logs, raw_logs, filter_logs,
}
use event_pool.Worker.{
  store_event, Backfill, take_log, Step, fetches, sends, closes, returns, receives, sees_closed,
  sees_done, sees_cancelled, Reach, here, next, new_backfill, saw_closed,
}

same_log_refl : (k : LogKey) → same_log k k ≡ true
same_log_refl k = rw (==_refl k.block_number, ==_refl k.tx_hash, ==_refl k.log_index) refl

module _ (lib : AbiLibrary) (table : EventTable) where
  -- No row is lost.
  abbrev Grows : table.Rows → table.Rows → Type 0
  Grows rows rows' = (k : LogKey) → table.has_log k rows ≡ true → table.has_log k rows' ≡ true

  abbrev pub HasLog : Contract → RawLog lib table → table.Rows → Type 0
  HasLog contract log rows = table.has_log (log_key (key_of lib table contract log)) rows ≡ true

  create-Grows :
      (key : RowKey) (content : Text) (rows : table.Rows)
      → Grows rows (table.create key content rows)
  create-Grows key content rows k h = ground (arith, table.has_log-create key k content rows, h)

  store_log-Grows :
      (env : LogEnv) (key : RowKey) (content : Text) (st : Progress lib table)
      → Grows st.rows (store_log lib table env key content st).1.rows
  unfolding store_log
  store_log-Grows env key content st =
      if_elim (λ (r : Logged × Progress lib table). Grows st.rows r.1.rows) env.create_fails
        (λ fails k h. h) (λ works. create-Grows key content st.rows)

  -- Where it does not panic.
  abbrev Grown : table.Rows → Option (Logged × Progress lib table) → Type 0
  Grown rows none = Unit
  Grown rows (some (logged, st)) = Grows rows st.rows

  module _ (decoder : Decoder) (find_contract : ℕ → Text → Text → Option Contract) (q : Query) where
    process_event_log-Grows :
        (env : LogEnv) (log : RawLog lib table) (st : Progress lib table)
        → Grown st.rows (process_event_log lib table decoder find_contract q env log st)
    unfolding process_event_log
    process_event_log-Grows env log st =
        elim (Option-cases
          (find_contract q.chain_id (to_lower q.contract_address) q.event_signature)) [
            | inl e ↦ rw (e, process_event_log) (λ k h. h)
            | inr (contract, e) ↦
                let key = key_of lib table contract log in
                elim (Bool-cases (not env.find_fails && table.has key st.rows)) [
                  | inl f ↦ rw (e, f, process_event_log) (λ k h. h)
                  | inr f ↦ rw (e, f, process_event_log) (decoded key _ _)
                ]
          ]
      where
        timed :
            (key : RowKey) (content : Text) (fields : Fields lib) (ts : ℕ) (topics : List lib.Hash)
            (cache : _)
            → Grown st.rows (elim topics [
              | [] ↦ none
              | topic ∷ _ ↦ some (
                  store_log lib table env key content (record st {
                    published =
                        st.published ++ payload_of lib table decoder q log fields ts topic ∷ [];
                    timestamps = cache;
                  }))
            ])
        timed key content fields ts [] cache = tt
        timed key content fields ts (topic ∷ rest) cache = store_log-Grows env key content _

        decoded :
            (key : RowKey) (content : Text) (r : Option (Fields lib))
            → Grown st.rows (elim r [
              | none ↦ some (store_log lib table env key content st)
              | some fields ↦ elim (block_timestamp env log.block_number st.timestamps) [
                | none ↦ some (Logged.no_block, st)
                | some (ts, cache) ↦ elim log.topics [
                  | [] ↦ none
                  | topic ∷ _ ↦
                      let payload = payload_of lib table decoder q log fields ts topic in
                      some (
                        store_log lib table env key content (record st {
                          published = st.published ++ payload ∷ [];
                          timestamps = cache;
                        }))
                ]
              ]
            ])
        decoded key content none = store_log-Grows env key content st
        decoded key content (some fields) =
            elim (Option-cases (block_timestamp env log.block_number st.timestamps)) [
              | inl e ↦ rw e (λ k h. h)
              | inr ((ts, cache), e) ↦ rw e (timed key content fields ts log.topics cache)
            ]

    process_logs-Grows :
        (logs : List (RawLog lib table × LogEnv)) (st st' : Progress lib table)
        → process_logs lib table decoder find_contract q logs st ≡ some st'
        → Grows st.rows st'.rows
    unfolding process_logs
    process_logs-Grows [] st st' e = λ k h. cc
    process_logs-Grows ((log, env) ∷ logs) st st' e =
        let one = process_event_log-Grows env log st in
        elim (Option-cases (process_event_log lib table decoder find_contract q env log st)) [
          | inl f ↦ absurd (ground arith)
          | inr ((logged, st1), f) ↦
              let first : Grows st.rows st1.rows = subst (Grown st.rows) f one in
              let rest = process_logs-Grows logs st1 st' (
                sym (
                  ap
                    (λ r. elim r [
                      | none ↦ none
                      | some (logged, u) ↦ process_logs lib table decoder find_contract q logs u
                    ])
                    f)
                ∙ e) in
              λ k h. rest k (first k h)
        ]

    filter_logs-Grows :
        (chunk : List (RawLog lib table × LogEnv)) (st p : Progress lib table)
        (sent : List (RawLog lib table))
        → filter_logs lib table decoder find_contract q (some chunk) st ≡ some (some sent, p)
        → Grows st.rows p.rows × (sent ≡ raw_logs lib table chunk)
    unfolding filter_logs
    filter_logs-Grows chunk st p sent e =
        let st0 : Progress lib table = record st { timestamps = [] } in
        elim (Option-cases (process_logs lib table decoder find_contract q chunk st0)) [
          | inl f ↦ absurd (ground arith)
          | inr (st', f) ↦
              let same : p ≡ st' = ground arith in
              let grown = process_logs-Grows chunk st0 st' f in
              (λ k h. rw same (grown k h), ground arith)
        ]

    module _ (contract : Contract) where
      -- What the worker's insert does not fail for is in the table behind it.
      store_event-stores :
          (log : RawLog lib table) (env : LogEnv) (rows : table.Rows)
          → Grows rows (store_event lib table decoder q.event_signature contract (log, env) rows)
            × (env.create_fails ≡ false
                → HasLog contract log
                    (store_event lib table decoder q.event_signature contract (log, env) rows))
      unfolding store_event
      store_event-stores log env rows =
          let key = log_key (key_of lib table contract log) in
          elim (Bool-cases (not env.find_fails && table.has_log key rows)) [
            | inl there ↦ rw (there, store_event) (λ k h. h, λ works. ground arith)
            | inr missing ↦ elim (Bool-cases env.create_fails) [
              | inl fails ↦ rw (missing, fails, store_event) (λ k h. h, λ works. cc)
              | inr works ↦
                  rw (missing, works, store_event)
                    (
                      create-Grows (key_of lib table contract log) _ rows,
                      λ w.
                          table.has_log-create (key_of lib table contract log) key _ rows
                          ∙ ap (λ b. b || table.has_log key rows) (same_log_refl key),
                    )
            ]
          ]

      -- The logs that the listener sends for the node's answers.
      abbrev pub sent_for : List (List (RawLog lib table × LogEnv)) → List (RawLog lib table)
      sent_for [] = []
      sent_for (chunk ∷ chunks) = raw_logs lib table chunk ++ sent_for chunks

      abbrev pub IsKept : Progress lib table → RawLog lib table × LogEnv → Type 0
      IsKept progress (log, env) = env.create_fails ≡ false → HasLog contract log progress.rows

      abbrev TaskLoop : Type 0
      TaskLoop = Backfill lib table decoder find_contract q contract

      -- The logs are those received, those in the channel, and those to come, in order.
      record IsSound (succeeds : Bool) (chunks : List (List (RawLog lib table × LogEnv)))
          (s : TaskLoop) : Type 0 where
        whole :
            raw_logs lib table s.taken ++ (s.buffer ++ (s.pending ++ sent_for s.chunks))
            ≡ sent_for chunks
        kept : All (IsKept s.progress) s.taken
        drained : s.closed ≡ true → (s.pending ≡ []) × (s.chunks ≡ [])
        complete : s.ending ≡ some saw_closed → (s.buffer ≡ []) × (s.pending ≡ []) × (s.chunks ≡ [])

      IsKept-Grows :
          (p p' : Progress lib table) (taken : List (RawLog lib table × LogEnv))
          → Grows p.rows p'.rows
          → All (IsKept p) taken
          → All (IsKept p') taken
      IsKept-Grows p p' [] g h = tt
      IsKept-Grows p p' ((log, env) ∷ taken) g (one, rest) =
          (λ w. g _ (one w), IsKept-Grows p p' taken g rest)

      raw_logs-snoc :
          (taken : List (RawLog lib table × LogEnv)) (e : RawLog lib table) (env : LogEnv)
          → raw_logs lib table (taken ++ (e, env) ∷ []) ≡ raw_logs lib table taken ++ e ∷ []
      raw_logs-snoc [] e env = refl
      raw_logs-snoc (x ∷ taken) e env = ap (λ l. x.0 ∷ l) (raw_logs-snoc taken e env)

      module _ (succeeds : Bool) (chunks : List (List (RawLog lib table × LogEnv))) where
        Step-IsSound :
            {s t : TaskLoop}
            → Step lib table decoder find_contract q contract succeeds s t
            → IsSound succeeds chunks s
            → IsSound succeeds chunks t
        unfolding take_log
        Step-IsSound {s} (fetches chunk rest sent p empty e d f) v =
            let (grown, same) = filter_logs-Grows chunk s.progress p sent f in
            record {
              whole =
                  ap (λ l. raw_logs lib table s.taken ++ (s.buffer ++ l))
                    (ap (λ l. l ++ sent_for rest) same
                      ∙ sym (ap sent_for e)
                      ∙ sym (ap (λ l. l ++ sent_for s.chunks) empty))
                  ∙ v.whole;
              kept = IsKept-Grows s.progress p s.taken grown v.kept;
              drained = λ c. absurd (cc ((v.drained c).1, e));
              complete = λ c. absurd (cc ((v.complete c).2, e));
            }
        Step-IsSound {s} (sends e rest p d r) v = record {
          whole =
              ap (λ l. raw_logs lib table s.taken ++ l)
                (append_assoc s.buffer (e ∷ []) (rest ++ sent_for s.chunks)
                  ∙ ap (λ l. s.buffer ++ (l ++ sent_for s.chunks)) (sym p))
              ∙ v.whole;
          kept = v.kept;
          drained = λ c. absurd (cc ((v.drained c).0, p));
          complete = λ c. absurd (cc ((v.complete c).1, p));
        }
        Step-IsSound (closes p c ok off) v = record {
          whole = v.whole;
          kept = v.kept;
          drained = λ q. (p, c);
          complete = v.complete;
        }
        Step-IsSound (returns c d) v = record {
          whole = v.whole;
          kept = v.kept;
          drained = v.drained;
          complete = v.complete;
        }
        Step-IsSound {s} (receives e env rest b n) v =
            let (grown, stored) = store_event-stores e env s.progress.rows in
            let after = take_log lib table decoder find_contract q contract (e, env) rest s in
            record {
              whole =
                  ap (λ l. l ++ (rest ++ (s.pending ++ sent_for s.chunks)))
                    (raw_logs-snoc s.taken e env)
                  ∙ append_assoc (raw_logs lib table s.taken) (e ∷ [])
                      (rest ++ (s.pending ++ sent_for s.chunks))
                  ∙ ap (λ l. raw_logs lib table s.taken ++ (l ++ (s.pending ++ sent_for s.chunks)))
                      (sym b)
                  ∙ v.whole;
              kept =
                  All-append (IsKept after.progress) s.taken ((e, env) ∷ [])
                    (IsKept-Grows s.progress after.progress s.taken grown v.kept) (stored, tt);
              drained = v.drained;
              complete = λ q. absurd (cc (n, q));
            }
        Step-IsSound {s} (sees_closed b c n) v = record {
          whole = v.whole;
          kept = v.kept;
          drained = v.drained;
          complete = λ q. let (p, gone) = v.drained c in (b, p, gone);
        }
        Step-IsSound (sees_done d n) v = record {
          whole = v.whole;
          kept = v.kept;
          drained = v.drained;
          complete = λ q. cc;
        }
        Step-IsSound (sees_cancelled n) v = record {
          whole = v.whole;
          kept = v.kept;
          drained = v.drained;
          complete = λ q. cc;
        }

        new-IsSound :
            (progress : Progress lib table)
            → IsSound succeeds chunks
                (new_backfill lib table decoder find_contract q contract chunks progress)
        unfolding new_backfill
        new-IsSound progress = record {
          whole = refl;
          kept = tt;
          drained = λ q. cc;
          complete = λ q. cc;
        }

        Reach-IsSound :
            (progress : Progress lib table) {t : TaskLoop}
            → Reach lib table decoder find_contract q contract succeeds
                (new_backfill lib table decoder find_contract q contract chunks progress)
                t
            → IsSound succeeds chunks t
        Reach-IsSound progress here = new-IsSound progress
        Reach-IsSound progress (next r st) = Step-IsSound st (Reach-IsSound progress r)

        -- Whatever the order of the listener's queries, its sends, the receives and the closes: the logs
        -- that were received stand at the front of those that the node answered, each one that the
        -- worker's insert did not fail for is in the table, which the listener writes too, and
        -- a loop that ends by the closed channel has received every log.
        pub Reach-stores :
            (progress : Progress lib table) {t : TaskLoop}
            → Reach lib table decoder find_contract q contract succeeds
                (new_backfill lib table decoder find_contract q contract chunks progress)
                t
            → (rest : List (RawLog lib table)) × (raw_logs lib table t.taken ++ rest
                ≡ sent_for chunks)
              × All (IsKept t.progress) t.taken
              × (t.ending ≡ some saw_closed → raw_logs lib table t.taken ≡ sent_for chunks)
        Reach-stores progress {t} r =
            let v = Reach-IsSound progress r in
            (
              t.buffer ++ (t.pending ++ sent_for t.chunks),
              v.whole,
              v.kept,
              λ q.
                  let (b, p, c) = v.complete q in
                  let nothing : t.buffer ++ (t.pending ++ sent_for t.chunks) ≡ [] =
                    ap (λ l. l ++ (t.pending ++ sent_for t.chunks)) b
                    ∙ ap (λ l. l ++ sent_for t.chunks) p
                    ∙ ap sent_for c in
                  sym (append-nil (raw_logs lib table t.taken))
                  ∙ ap (λ l. raw_logs lib table t.taken ++ l) (sym nothing)
                  ∙ v.whole,
            )
