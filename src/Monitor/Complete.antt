-- ===== src/Monitor/Complete.antt =====
-- What a tick of a contract's monitor fetches when the node answers every query.
use mathlib.Core.List.{append_assoc, append-nil}
use event_pool.Prelude.{
  ℕ, zero, suc, ◌+◌, ◌-◌, ◌^◌, ◌≤◌, ◌<◌, ◌≡◌, refl, sym, ◌∙◌, inl, inr, List, [], ◌∷◌, ◌++◌, true,
  false, Option, none, some, arith, ltb, leb, if◌then◌else◌, Bool-cases, lookup, lookup-insert_self,
  nat_Eq, Dict,
}
use event_pool.Ethereum.Log.{Log, Contract}
use event_pool.Ranges.{Consecutive, Consecutive-snoc}
use event_pool.Monitor.Poll.{
  Env, Broadcast, Tick, batch_end, poll_batch, poll_loop, poll, process_logs_event,
}
use event_pool.Monitor.Progress.{batch_end_bounds, poll_loop-step, poll-loop}

abbrev or_nil : Option (List Log) → List Log
or_nil none = []
or_nil (some logs) = logs

-- The broadcasts for the node's answers on the ranges, in order.
abbrev pub events_in : Env → Contract → List (ℕ × ℕ) → List Broadcast
events_in env c [] = []
events_in env c ((a, b) ∷ rs) =
    process_logs_event env c.chain_id c.address c.event_signature (or_nil (env.filter_logs a b))
    ++ events_in env c rs

events_in-snoc :
    (env : Env) (c : Contract) (rs : List (ℕ × ℕ)) (a b : ℕ)
    → events_in env c (rs ++ (a, b) ∷ [])
      ≡ events_in env c rs
        ++ process_logs_event env c.chain_id c.address c.event_signature
            (or_nil (env.filter_logs a b))
events_in-snoc env c [] a b = append-nil _
events_in-snoc env c ((p, q) ∷ rs) a b =
    rw (events_in-snoc env c rs a b) (sym (append_assoc _ (events_in env c rs) _))

-- Every query is answered.
abbrev pub IsClean : Env → Type 0
IsClean env = (a b : ℕ) → (logs : List Log) × (env.filter_logs a b ≡ some logs)

-- What a loop from `from` has done: the ranges up to the block behind, their events, the last block.
abbrev Done : Env → Contract → ℕ → ℕ → ℕ → Tick → Type 0
Done env c lo from current t =
    Consecutive 4 lo t.ranges (if leb from current then from else current + 1)
    × (t.events ≡ events_in env c t.ranges)
    × (current < from → lookup c.chain_id t.blocks ≡ some current)

module _ (env : Env) (c : Contract) (clean : IsClean env) (current : ℕ)
    (small : current + 5 < 2 ^ 64) where
  poll_batch-Done :
      (lo from : ℕ) (t : Tick)
      → from ≤ current
      → Done env c lo from current t
      → Done env c lo (from + 5) current (poll_batch env c from (batch_end from current) t)
  unfolding poll_batch
  poll_batch-Done lo from t h (ranges, events, reached) =
      let (logs, e) = clean from (batch_end from current) in
      let to = batch_end from current in
      let (low, width, high, last, short) = batch_end_bounds from current h small in
      let here : (if leb from current then from else current + 1) ≡ from = ground arith in
      let there : (if leb (from + 5) current then from + 5 else current + 1) ≡ to + 1 =
        ground arith in
      rw (e, poll_batch)
        (
          rw there (Consecutive-snoc 4 lo from to t.ranges (rw here at ranges) low width),
          rw (events_in-snoc env c t.ranges from to, events, e) refl,
          λ q.
              let ends : to ≡ current = omega arith in
              rw ends (lookup-insert_self c.chain_id current t.blocks),
        )

  finished :
      (lo from : ℕ) (t : Tick)
      → leb from current ≡ false
      → Done env c lo from current t
      → Done env c lo (current + 1) current t
  finished lo from t past (ranges, events, reached) =
      let behind : leb (current + 1) current ≡ false = ground arith in
      (rw behind (rw past at ranges), events, λ q. reached (ground arith))

  poll_loop-Done :
      (fuel lo from : ℕ) (t : Tick)
      → 0 < fuel
      → current + 1 < fuel + from
      → Done env c lo from current t
      → (t' : Tick) × (poll_loop env c fuel from current t ≡ some t')
        × Done env c lo (current + 1) current t'
  unfolding poll_loop
  poll_loop-Done zero lo from t p f d = absurd (omega arith)
  poll_loop-Done (suc fuel) lo from t p f d = elim (Bool-cases (leb from current)) [
    | inr past ↦ (t, rw (past, poll_loop), finished lo from t past d)
    | inl more ↦
        let t1 = poll_batch env c from (batch_end from current) t in
        let h : from ≤ current = ground arith in
        let (t', e, d') =
          poll_loop-Done fuel lo (from + 5) t1 (omega arith) (omega arith)
            (poll_batch-Done lo from t h d) in
        (t', poll_loop-step env c current small fuel from t h ∙ e, d')
  ]

  -- A tick that meets no failure, at a node some blocks ahead of the chain's last block, ends; it
  -- fetches the blocks behind the last one in order up to the node's block, five at a time at most,
  -- broadcasts the events of its answers in that order, and leaves the node's block as the last one.
  pub poll_complete :
      (blocks : Dict ℕ ℕ) (last : ℕ)
      → lookup c.chain_id blocks ≡ some last
      → last < current
      → (t : Tick) × (poll env c current blocks ≡ some t)
        × Consecutive 4 (last + 1) t.ranges (current + 1)
        × (t.events ≡ events_in env c t.ranges)
        × (lookup c.chain_id t.blocks ≡ some current)
  poll_complete blocks last e h =
      let t0 : Tick = record { blocks = blocks; events = []; ranges = [] } in
      let begins : leb (last + 1) current ≡ true = ground arith in
      let (t, ends, (ranges, events, reached)) =
        poll_loop-Done (current + 1 - last) (last + 1) (last + 1) t0 (omega arith) (omega arith)
          (rw begins refl, refl, λ q. absurd (omega arith)) in
      let behind : leb (current + 1) current ≡ false = ground arith in
      (
        t,
        poll-loop env c current small blocks last e h ∙ ends,
        rw behind at ranges,
        events,
        reached (omega arith),
      )

-- A chain's last block is shared by its contracts: once the tick of one of them has moved it to the
-- node's block, the tick of any other, at a node that is not ahead of that block, fetches nothing and
-- broadcasts nothing.
pub poll_shared :
    (env other : Env) (c d : Contract) (clean : IsClean env) (current later last : ℕ)
    (blocks : Dict ℕ ℕ)
    → current + 5 < 2 ^ 64
    → lookup c.chain_id blocks ≡ some last
    → last < current
    → d.chain_id ≡ c.chain_id
    → later ≤ current
    → (t : Tick) × (poll env c current blocks ≡ some t)
      × (poll other d later t.blocks
          ≡ some (record { blocks = t.blocks; events = []; ranges = [] }))
unfolding poll
poll_shared env other c d clean current later last blocks small e h same l =
    let (t, run, _, _, reached) = poll_complete env c clean current small blocks last e h in
    let stays : ltb current later ≡ false = ground arith in
    (t, run, rw (same, reached, stays, poll) refl)
