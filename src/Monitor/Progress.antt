-- ===== src/Monitor/Progress.antt =====
-- What a tick of a contract's monitor does when the node fails to answer a query.

use event_pool.Prelude.{
  ℕ, zero, suc, ◌+◌, ◌-◌, ◌%◌, ◌^◌, ◌≤◌, ◌<◌, ◌≡◌, refl, ◌∙◌, ◌⊎◌, inl, inr, List, [], true, false,
  none, some, arith, ltb, leb, Bool-cases, Option-cases, lookup, lookup-insert_self, nat_Eq, Dict,
}
use event_pool.Ethereum.Log.{Log, Contract}
use event_pool.Ranges.{covered, covered-snoc}
use event_pool.Monitor.Poll.{Env, Tick, batch_end, poll_batch, poll_loop, poll, u64}

pub batch_end_bounds :
    (from current : ℕ)
    → from ≤ current
    → current + 5 < 2 ^ 64
    → (from ≤ batch_end from current)
      × (batch_end from current ≤ from + 4)
      × (batch_end from current ≤ current)
      × ((from + 4 < current) ⊎ (batch_end from current ≡ current))
      × ((from + 4 < current → batch_end from current ≡ from + 4))
batch_end_bounds from current h k =
    (ground arith, ground arith, ground arith, ground arith, ground arith)

-- What a loop over the batches leaves of the blocks below its first one, whatever the node answers.
abbrev Passed : Contract → ℕ → ℕ → Tick → Tick → Type 0
Passed c from current t t' =
    ((n : ℕ) → n < from → covered n t'.ranges ≡ covered n t.ranges)
    × (((t'.blocks ≡ t.blocks) × (t'.ranges ≡ t.ranges))
        ⊎ ((h : ℕ) × (lookup c.chain_id t'.blocks ≡ some h) × (from ≤ h) × (h ≤ current)))

module _ (env : Env) (c : Contract) (current : ℕ) (small : current + 5 < 2 ^ 64) where
  poll_batch-Passed :
      (from : ℕ) (t : Tick)
      → from ≤ current
      → Passed c from current t (poll_batch env c from (batch_end from current) t)
  unfolding poll_batch
  poll_batch-Passed from t h = elim (Option-cases (env.filter_logs from (batch_end from current))) [
    | inl e ↦ rw (e, poll_batch) ((λ n p. refl), inl (refl, refl))
    | inr (logs, e) ↦
        let to = batch_end from current in
        let bounds = batch_end_bounds from current h small in
        rw (e, poll_batch)
          (
            (λ n p. ground (arith, covered-snoc n from to t.ranges)),
            inr (to, lookup-insert_self c.chain_id to t.blocks, bounds.0, bounds.2),
          )
  ]

  Passed-trans :
      (from : ℕ) (t t' t'' : Tick)
      → Passed c from current t t'
      → Passed c (from + 5) current t' t''
      → Passed c from current t t''
  Passed-trans from t t' t'' (same, last) (same', inl (e, f)) =
      (λ n h. same' n (omega arith) ∙ same n h, rw (e, f) last)
  Passed-trans from t t' t'' (same, last) (same', inr (h, e, low, high)) =
      (λ n p. same' n (omega arith) ∙ same n p, inr (h, e, omega arith, high))

  poll_loop-Passed :
      (fuel from : ℕ) (t : Tick)
      → 0 < fuel
      → current + 1 < fuel + from
      → (t' : Tick) × (poll_loop env c fuel from current t ≡ some t') × Passed c from current t t'
  unfolding poll_loop
  poll_loop-Passed zero from t p f = absurd (omega arith)
  poll_loop-Passed (suc fuel) from t p f = elim (Bool-cases (leb from current)) [
    | inr past ↦ (t, rw (past, poll_loop), (λ n h. refl, inl (refl, refl)))
    | inl more ↦
        let next : (from + 5) % u64 ≡ from + 5 = ground arith in
        let t1 = poll_batch env c from (batch_end from current) t in
        let (t', e, passed) = poll_loop-Passed fuel (from + 5) t1 (ground arith) (ground arith) in
        (
          t',
          rw (more, next, poll_loop) e,
          Passed-trans from t t1 t' (poll_batch-Passed from t (ground arith)) passed,
        )
  ]

  pub poll_loop-step :
      (fuel from : ℕ) (t : Tick)
      → from ≤ current
      → poll_loop env c (suc fuel) from current t
        ≡ poll_loop env c fuel (from + 5) current (poll_batch env c from (batch_end from current) t)
  unfolding poll_loop
  poll_loop-step fuel from t h =
      let more : leb from current ≡ true = ground arith in
      let next : (from + 5) % u64 ≡ from + 5 = ground arith in rw (more, next, poll_loop)

  pub poll-loop :
      (blocks : Dict ℕ ℕ) (last : ℕ)
      → lookup c.chain_id blocks ≡ some last
      → last < current
      → poll env c current blocks
        ≡ poll_loop env c
            (current + 1 - last)
            (last + 1)
            current
            (record { blocks = blocks; events = []; ranges = [] })
  unfolding poll
  poll-loop blocks last e h =
      let more : ltb last current ≡ true = ground arith in
      let next : (last + 1) % u64 ≡ last + 1 = ground arith in rw (e, more, next, poll)

  -- A tick that is six blocks behind or more, whose first query fails and whose second one succeeds, moves
  -- the chain's last block past the failed batch, and has fetched no block of that batch.
  pub poll_loses :
      (blocks : Dict ℕ ℕ) (last : ℕ) (logs : List Log)
      → lookup c.chain_id blocks ≡ some last
      → last + 6 ≤ current
      → env.filter_logs (last + 1) (last + 5) ≡ none
      → env.filter_logs (last + 6) (batch_end (last + 6) current) ≡ some logs
      → (t : Tick) × (hi : ℕ) × (poll env c current blocks ≡ some t)
        × (lookup c.chain_id t.blocks ≡ some hi)
        × (last + 6 ≤ hi)
        × ((n : ℕ) → n ≤ last + 5 → covered n t.ranges ≡ false)
  unfolding poll_batch
  poll_loses blocks last logs e h failed found =
      let t0 : Tick = record { blocks = blocks; events = []; ranges = [] } in
      let to = batch_end (last + 6) current in
      let k = current - 1 - last in
      let fuel : current + 1 - last ≡ suc (suc k) = omega arith in
      let six : last + 1 + 5 ≡ last + 6 = omega arith in
      let first : batch_end (last + 1) current ≡ last + 5 = ground arith in
      let bounds = batch_end_bounds (last + 6) current h small in
      let t2 = poll_batch env c (last + 6) to t0 in
      let run : poll env c current blocks ≡ poll_loop env c k (last + 6 + 5) current t2 = rw (
        poll-loop blocks last e (omega arith),
        fuel,
        poll_loop-step (suc k) (last + 1) t0 (omega arith),
        first,
        six,
        skip t0,
        poll_loop-step k (last + 6) t0 h,
      ) in
      let (t, ends, (same, moved)) =
        poll_loop-Passed k (last + 6 + 5) t2 (omega arith) (omega arith) in
      let unseen : (n : ℕ) → n ≤ last + 5 → covered n t.ranges ≡ false =
        λ n q. same n (omega arith) ∙ fresh n to q in
      elim moved [
        | inl (eb, er) ↦ (t, to, run ∙ ends, rw eb (reached to found), bounds.0, unseen)
        | inr (hi, eh, low, high) ↦ (t, hi, run ∙ ends, eh, omega arith, unseen)
      ]
    where
      skip : (t : Tick) → poll_batch env c (last + 1) (last + 5) t ≡ t
      skip t = rw (failed, poll_batch)

      t1 : Tick
      t1 = record { blocks = blocks; events = []; ranges = [] }

      reached :
          (to : ℕ)
          → env.filter_logs (last + 6) to ≡ some logs
          → lookup c.chain_id (poll_batch env c (last + 6) to t1).blocks ≡ some to
      reached to f = rw (f, poll_batch) (lookup-insert_self c.chain_id to blocks)

      fresh :
          (n to : ℕ) → n ≤ last + 5 → covered n (poll_batch env c (last + 6) to t1).ranges ≡ false
      fresh n to q = ground arith
