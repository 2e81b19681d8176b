-- ===== src/Listener/Coverage.antt =====
-- Which blocks a backfill scans, and what its status tells when it stops early.
use event_pool.Prelude.{
  ℕ, zero, suc, ◌+◌, ◌≤◌, ◌<◌, ◌≡◌, refl, ◌⊎◌, inl, inr, [], ◌∷◌, ◌++◌, none, some, arith, ltb,
  lookup, lookup-insert_self, lookup-delete_self, Bool-cases, text_Eq,
}
use event_pool.Ranges.{Consecutive, Consecutive-snoc}
use event_pool.Listener.{
  EventListener, ChunkEnv, Outcome, done, no_latest, filter_failed, cancelled, out_of_fuel, Run,
  status_key, update_backfill_status, clear_backfill_status, Round, stop, next, backfill_chunk,
  chunk_end, after, backfill_loop, backfill,
}

-- How a backfill from `lo` to the latest block `end_block` stops: the ranges reach up to some `hi`.
abbrev pub Stops : EventListener → ℕ → ℕ → Outcome → Run → Type 0
Stops l lo end_block done r =
    (hi : ℕ) × (lookup (status_key l) r.cache ≡ none)
    × Consecutive 2000 lo r.ranges hi
    × (end_block ≤ hi)
    × ((hi ≤ end_block + 1) ⊎ (hi ≡ lo))
Stops l lo end_block filter_failed r =
    (hi : ℕ) × (lookup (status_key l) r.cache ≡ some hi)
    × Consecutive 2000 lo r.ranges hi
    × (hi < end_block)
Stops l lo end_block cancelled r =
    (hi : ℕ) × (lookup (status_key l) r.cache ≡ some hi)
    × Consecutive 2000 lo r.ranges hi
    × (hi < end_block)
Stops l lo end_block no_latest r = ⊥
Stops l lo end_block out_of_fuel r = ⊥

-- One round either stops with the status at its first block, or moves on behind its last one.
abbrev RoundFrom : EventListener → ℕ → ℕ → ℕ → Run → Round → Type 0
RoundFrom l lo current to_block r (stop o r') =
    ((o ≡ filter_failed) ⊎ (o ≡ cancelled)) × (r'.cache ≡ r.cache) × (r'.ranges ≡ r.ranges)
RoundFrom l lo current to_block r (next n r') =
    (n ≡ to_block + 1)
    × (lookup (status_key l) r'.cache ≡ some n)
    × (r'.ranges ≡ r.ranges ++ (current, to_block) ∷ [])

backfill_chunk-RoundFrom :
    (l : EventListener) (env : ChunkEnv) (lo current to_block : ℕ) (r : Run)
    → RoundFrom l lo current to_block r (backfill_chunk l env current to_block r)
unfolding backfill_chunk update_backfill_status
backfill_chunk-RoundFrom l env lo current to_block r =
    ground (arith, lookup-insert_self (status_key l) (to_block + 1) r.cache)

module _ (l : EventListener) (env : ℕ → ChunkEnv) (lo end_block : ℕ) where
  -- The rest of the loop behind a round.
  backfill_round-Stops :
      (rest : ℕ → Run → Outcome × Run) (current : ℕ) (r : Run) (rd : Round)
      → current < end_block
      → Consecutive 2000 lo r.ranges current
      → lookup (status_key l) r.cache ≡ some current
      → RoundFrom l lo current (chunk_end current end_block) r rd
      → ((n : ℕ) (r' : Run)
          → current + 1 < n
          → n ≤ end_block + 1
          → Consecutive 2000 lo r'.ranges n
          → lookup (status_key l) r'.cache ≡ some n
          → Stops l lo end_block (rest n r').0 (rest n r').1)
      → Stops l lo end_block (after rd rest).0 (after rd rest).1
  backfill_round-Stops rest current r (stop o r') lt c k (inl e, same, kept) go =
      rw e (current, rw same k, rw kept c, lt)
  backfill_round-Stops rest current r (stop o r') lt c k (inr e, same, kept) go =
      rw e (current, rw same k, rw kept c, lt)
  backfill_round-Stops rest current r (next n r') lt c k (e, k', grown) go =
      let to_block = chunk_end current end_block in
      let low : current < to_block = ground arith in
      let high : to_block ≤ end_block = ground arith in
      let width : to_block ≤ current + 2000 = ground arith in
      go n r' (omega arith) (omega arith)
        (rw (e, grown) (Consecutive-snoc 2000 lo current to_block r.ranges c (omega arith) width))
        k'

  backfill_loop-Stops :
      (fuel current : ℕ) (r : Run)
      → 0 < fuel
      → end_block < fuel + current
      → Consecutive 2000 lo r.ranges current
      → (current ≤ end_block + 1) ⊎ (current ≡ lo)
      → lookup (status_key l) r.cache ≡ some current
      → let (o, r') = backfill_loop l env fuel current end_block r in Stops l lo end_block o r'
  unfolding backfill_loop clear_backfill_status
  backfill_loop-Stops zero current r p f c b k = absurd (omega arith)
  backfill_loop-Stops (suc fuel) current r p f c b k = elim (Bool-cases (ltb current end_block)) [
    | inl lt ↦
        rw (lt, backfill_loop)
          (backfill_round-Stops (λ n r'. backfill_loop l env fuel n end_block r') current r _
            (ground arith) c k
            (backfill_chunk-RoundFrom l (env current) lo current (chunk_end current end_block) r)
            λ n r' low high c' k'.
              backfill_loop-Stops fuel n r' (ground arith) (ground arith) c' (inl high) k')
    | inr ge ↦
        rw (ge, backfill_loop)
          (current, lookup-delete_self (status_key l) r.cache, c, ground arith, b)
  ]

-- Whatever the node answers and wherever the context is cancelled, a backfill whose start it knows
-- the latest block for ends. If it runs to its end its status is cleared and it has scanned the blocks
-- from the start in order, in ranges of 2001 blocks at most, up to the latest block or one short of
-- it. If it stops early the status is the first block whose range was not finished, and exactly the
-- blocks before that one were scanned.
pub backfill-Stops :
    (l : EventListener) (env : ℕ → ChunkEnv) (end_block : ℕ) (r : Run)
    → r.ranges ≡ []
    → let (o, r') = backfill l (some end_block) env r in Stops l l.start_block end_block o r'
unfolding backfill update_backfill_status
backfill-Stops l env end_block r fresh =
    backfill_loop-Stops l env l.start_block end_block (end_block + 1) l.start_block _ (omega arith)
      (omega arith) (rw fresh refl) (inr refl)
      (lookup-insert_self (status_key l) l.start_block r.cache)
