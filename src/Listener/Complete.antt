-- ===== src/Listener/Complete.antt =====
-- A backfill that meets no failure: what it scans and what it sends.
use mathlib.Core.List.{append_assoc, append-nil}
use event_pool.Prelude.{
  ℕ, zero, suc, ◌+◌, ◌-◌, ◌%◌, ◌≤◌, ◌<◌, ◌≡◌, refl, sym, inl, inr, List, [], ◌∷◌, ◌++◌, true, false,
  ◌&&◌, Option, none, some, arith, ltb, leb, nat_eq, if◌then◌else◌, Bool-cases,
}
use event_pool.Ethereum.Log.{Log}
use event_pool.Listener.{
  EventListener, ChunkEnv, Outcome, done, Run, update_backfill_status, clear_backfill_status, next,
  backfill_chunk, chunk_end, backfill_loop, backfill, close_on_done, start,
}
use event_pool.Ranges.{Consecutive, Consecutive-snoc, covered, Consecutive-covered}

-- Every query is answered, and the context is never done.
abbrev pub IsClean : (ℕ → ChunkEnv) → Type 0
IsClean env =
    (n : ℕ)
    → ((env n).cancelled ≡ false)
      × ((logs : List Log) × ((env n).logs ≡ some logs))
      × ((env n).stopped_after ≡ none)

abbrev or_nil : Option (List Log) → List Log
or_nil none = []
or_nil (some logs) = logs

-- The node's answers for the ranges, in order.
abbrev pub logs_in : (ℕ → ChunkEnv) → List (ℕ × ℕ) → List Log
logs_in env [] = []
logs_in env ((a, b) ∷ rs) = or_nil (env a).logs ++ logs_in env rs

logs_in-snoc :
    (env : ℕ → ChunkEnv) (rs : List (ℕ × ℕ)) (a b : ℕ)
    → logs_in env (rs ++ (a, b) ∷ []) ≡ logs_in env rs ++ or_nil (env a).logs
logs_in-snoc env [] a b = append-nil (or_nil (env a).logs)
logs_in-snoc env ((c, d) ∷ rs) a b =
    rw (logs_in-snoc env rs a b) (sym (append_assoc (or_nil (env c).logs) (logs_in env rs) _))

-- The first block that is not scanned.
abbrev pub scanned_to : ℕ → ℕ → ℕ
scanned_to lo end_block = if nat_eq ((end_block - lo) % 2001) 0 then end_block else end_block + 1

abbrev reaches : ℕ → ℕ → ℕ
reaches current end_block = if ltb end_block current then current else scanned_to current end_block

reaches-step :
    (current end_block : ℕ)
    → current < end_block
    → reaches (chunk_end current end_block + 1) end_block ≡ reaches current end_block
reaches-step current end_block h = ground arith

abbrev Complete : (ℕ → ChunkEnv) → ℕ → ℕ → List Log → Outcome → Run → Type 0
Complete env lo hi before o r =
    (o ≡ done) × Consecutive 2000 lo r.ranges hi × (r.sent ≡ before ++ logs_in env r.ranges)

module _ (l : EventListener) (env : ℕ → ChunkEnv) (clean : IsClean env) where
  backfill_chunk-clean :
      (current to_block : ℕ) (r : Run)
      → backfill_chunk l (env current) current to_block r
        ≡ next (to_block + 1) (
            update_backfill_status l (to_block + 1) (record r {
              sent = r.sent ++ or_nil (env current).logs;
              ranges = r.ranges ++ (current, to_block) ∷ [];
            }))
  unfolding backfill_chunk update_backfill_status
  backfill_chunk-clean current to_block r = let (a, (logs, b), c) = clean current in ground arith

  backfill_loop-Complete :
      (fuel lo current end_block : ℕ) (before : List Log) (r : Run)
      → 0 < fuel
      → end_block < fuel + current
      → Consecutive 2000 lo r.ranges current
      → r.sent ≡ before ++ logs_in env r.ranges
      → let (o, r') = backfill_loop l env fuel current end_block r in
        Complete env lo (reaches current end_block) before o r'
  unfolding backfill_loop clear_backfill_status update_backfill_status
  backfill_loop-Complete zero lo current end_block before r p f c s = absurd (omega arith)
  backfill_loop-Complete (suc fuel) lo current end_block before r p f c s =
      elim (Bool-cases (ltb current end_block)) [
        | inl lt ↦
            let to_block = chunk_end current end_block in
            let low : current < to_block = ground arith in
            let width : to_block ≤ current + 2000 = ground arith in
            let longer = logs_in-snoc env r.ranges current to_block in
            rw (lt, backfill_chunk-clean current to_block r, backfill_loop)
              (rw (← reaches-step current end_block (ground arith)) (
                backfill_loop-Complete fuel lo (to_block + 1) end_block before _ (ground arith)
                  (ground arith)
                  (Consecutive-snoc 2000 lo current to_block r.ranges c (omega arith) width)
                  (rw (s, longer) (append_assoc before (logs_in env r.ranges) _))))
        | inr ge ↦
            let stays : reaches current end_block ≡ current = ground arith in
            rw (ge, backfill_loop) (refl, rw stays c, s)
      ]

finish :
    (env : ℕ → ChunkEnv) (lo end_block : ℕ) (before : List Log) (o : Outcome) (r : Run)
    → o ≡ done
    → Consecutive 2000 lo r.ranges (scanned_to lo end_block)
    → r.sent ≡ before ++ logs_in env r.ranges
    → let r' = close_on_done o r in
      (o ≡ done)
      × (r'.closed ≡ true)
      × (r'.sent ≡ before ++ logs_in env r'.ranges)
      × ((n : ℕ) → covered n r'.ranges ≡ (leb lo n && ltb n (scanned_to lo end_block)))
finish env lo end_block before o r e c s =
    rw e
      (refl, refl, s, λ n. (Consecutive-covered 2000 n lo (scanned_to lo end_block) r.ranges c).1)

-- A backfill from no later than the latest block, which meets no failure, ends, closes the channel,
-- has sent exactly the node's answers for its ranges in order, and has scanned exactly the blocks
-- from the start to the latest one; but where the distance between these two is a multiple of 2001
-- (they are equal, say) the latest block is not scanned.
pub start_complete :
    (l : EventListener) (env : ℕ → ChunkEnv) (end_block : ℕ) (r : Run)
    → IsClean env
    → l.start_block ≤ end_block
    → r.ranges ≡ []
    → let (o, r') = start l (some end_block) env r in
      (o ≡ done)
      × (r'.closed ≡ true)
      × (r'.sent ≡ r.sent ++ logs_in env r'.ranges)
      × ((n : ℕ)
          → covered n r'.ranges ≡ (
              leb l.start_block n
              && ltb n (
                  if nat_eq ((end_block - l.start_block) % 2001) 0
                  then end_block
                  else end_block + 1)))
unfolding start backfill update_backfill_status
start_complete l env end_block r clean h fresh =
    let (e, c, s) =
      backfill_loop-Complete l env clean (end_block + 1) l.start_block l.start_block end_block
        r.sent (update_backfill_status l l.start_block r) (omega arith) (omega arith)
        (rw fresh refl) (rw fresh (sym (append-nil r.sent))) in
    let whole : reaches l.start_block end_block ≡ scanned_to l.start_block end_block =
      ground arith in
    finish env l.start_block end_block r.sent _ _ e (rw whole at c) s
