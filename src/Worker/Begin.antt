-- ===== src/Worker/Begin.antt =====
-- When a task of the queue goes on to its backfill, beside the other tasks.
use event_pool.Prelude.{
  ℕ, ◌≡◌, refl, ap, ◌∙◌, List, [], ◌∷◌, Bool, true, false, Option, none, some, arith, if◌then◌else◌,
  if_elim, All, nat_Eq, ==_refl, text_eq, lookup, lookup-insert, lookup-insert_self, text_Eq,
}
use event_pool.Text.{Text}
use event_pool.Ethereum.Log.{Contract}
use event_pool.Monitor.{
  Monitor, is_contract_backfilling, is_contract_ready_for_monitoring, mark_contract_backfilling,
  mark_contract_backfill_complete,
}
use event_pool.Monitor.Poll.{Env, Tick, poll, tick}
use event_pool.Monitor.Threads.{
  Shared, Registering, at_running, at_ready, at_monitors, Thread, start_called, start_reads,
  start_loop, check_called, check_loop, registers, task_checks, task_readies, task_marks,
  task_begun, task_skipped, ended, set_ready, set_monitor, register_contract, start_section,
  advance, World, is_idle, update, Act, advances, calls, stops, completes, ticks, after_tick, act,
  run,
}

-- What ends the mark of a contract.
abbrev pub is_end : Text → Act → Bool
is_end id stops = true
is_end id (completes j) = text_eq j id
is_end id _ = false

module _ (id : Text) where
  abbrev Filled : Monitor → Type 0
  Filled m = lookup id m.backfilling ≡ some true

  register_contract-Filled :
      (ctx : ℕ) (c : Contract) (r : Registering) (after : Thread) (s : Shared)
      → Filled s.monitor
      → Filled (register_contract ctx c r after s).1.monitor
  unfolding register_contract set_ready set_monitor
  register_contract-Filled ctx c at_running after s v =
      if_elim (λ (p : Thread × Shared). Filled p.1.monitor) s.monitor.running (λ on. v) (λ off. v)
  register_contract-Filled ctx c at_ready after s v = v
  register_contract-Filled ctx c at_monitors after s v = v

  advance-Filled : (t : Thread) (s : Shared) → Filled s.monitor → Filled (advance t s).1.monitor
  unfolding advance start_section set_ready mark_contract_backfilling
  advance-Filled (start_called ctx found latest) s v =
      if_elim (λ (p : Thread × Shared). Filled p.1.monitor) s.monitor.running (λ on. v) (λ off. v)
  advance-Filled (start_reads ctx none latest) s v = v
  advance-Filled (start_reads ctx (some cs) latest) s v = v
  advance-Filled (start_loop ctx []) s v = v
  advance-Filled (start_loop ctx (c ∷ cs)) s v = v
  advance-Filled (check_called ctx none) s v =
      if_elim (λ (p : Thread × Shared). Filled p.1.monitor) s.monitor.running (λ on. v) (λ off. v)
  advance-Filled (check_called ctx (some cs)) s v =
      if_elim (λ (p : Thread × Shared). Filled p.1.monitor) s.monitor.running (λ on. v) (λ off. v)
  advance-Filled (check_loop ctx cs) s v = v
  advance-Filled (registers ctx c r after) s v = register_contract-Filled ctx c r after s v
  advance-Filled (task_checks ctx c) s v =
      if_elim (λ (p : Thread × Shared). Filled p.1.monitor) _ (λ on. v) (λ off. v)
  advance-Filled (task_readies ctx c) s v =
      if_elim (λ (p : Thread × Shared). Filled p.1.monitor) _ (λ on. v) (λ off. v)
  advance-Filled (task_marks c) s v =
      ground (arith, lookup-insert c.id id true s.monitor.backfilling)
  advance-Filled (task_begun c) s v = v
  advance-Filled (task_skipped c) s v = v
  advance-Filled ended s v = v

  tick-Filled :
      (env : Env) (c : Contract) (latest : Option ℕ) (m : Monitor)
      → Filled m
      → Filled (after_tick (tick env c latest m) m)
  unfolding tick
  tick-Filled env c none m v = v
  tick-Filled env c (some n) m v = polled (poll env c n m.last_blocks)
    where
      polled :
          (r : Option Tick)
          → Filled (
              after_tick
                (elim r [
                  | none ↦ none
                  | some t ↦ some (record m { last_blocks = t.blocks }, t.events)
                ])
                m)
      polled none = v
      polled (some t) = v

  act-Filled :
      (a : Act) (w : World)
      → is_end id a ≡ false
      → Filled w.shared.monitor
      → Filled (act a w).shared.monitor
  unfolding act mark_contract_backfill_complete
  act-Filled (advances i) w d v = advance-Filled (w.threads i) w.shared v
  act-Filled (calls i call) w d v =
      if_elim (λ (u : World). Filled u.shared.monitor) (is_idle (w.threads i)) (λ on. v) (λ off. v)
  act-Filled stops w d v = cc
  act-Filled (completes j) w d v =
      ground (arith, lookup-insert j id false w.shared.monitor.backfilling)
  act-Filled (ticks env c latest) w d v = tick-Filled env c latest w.shared.monitor v

  run-Filled :
      (acts : List Act) (w : World)
      → All (λ a. is_end id a ≡ false) acts
      → Filled w.shared.monitor
      → Filled (run acts w).shared.monitor
  unfolding run
  run-Filled [] w d v = v
  run-Filled (a ∷ acts) w (d, ds) v = run-Filled acts (act a w) ds (act-Filled a w d v)

update_same : (i : ℕ) (t : Thread) (threads : ℕ → Thread) → update i t threads i ≡ t
update_same i t threads = ap (λ b. if b then t else threads i) (==_refl i)

check_skips :
    (ctx : ℕ) (c : Contract) (s : Shared)
    → Filled c.id s.monitor
    → advance (task_checks ctx c) s ≡ (task_skipped c, s)
unfolding advance is_contract_backfilling
check_skips ctx c s e = rw e refl

check_goes :
    (ctx : ℕ) (c : Contract) (s : Shared)
    → is_contract_backfilling c.id s.monitor ≡ false
    → advance (task_checks ctx c) s ≡ (task_readies ctx c, s)
unfolding advance
check_goes ctx c s e = rw e refl

ready_goes :
    (ctx : ℕ) (c : Contract) (s : Shared)
    → is_contract_ready_for_monitoring c.id s.monitor ≡ true
    → advance (task_readies ctx c) s ≡ (task_marks c, s)
unfolding advance
ready_goes ctx c s e = rw e refl

-- Where a task for a contract marks it, every task for it that checks behind that is skipped, whatever
-- the other threads do in between, until the contract's backfill completes or the monitor stops.
pub task_marks_skips :
    (c : Contract) (w : World) (i j ctx : ℕ) (acts : List Act)
    → w.threads i ≡ task_marks c
    → All (λ a. is_end c.id a ≡ false) acts
    → let u = run acts (act (advances i) w) in
      u.threads j ≡ task_checks ctx c → (act (advances j) u).threads j ≡ task_skipped c
unfolding act advance mark_contract_backfilling is_contract_backfilling
task_marks_skips c w i j ctx acts marks d checks =
    let w1 = act (advances i) w in
    let first : lookup c.id w1.shared.monitor.backfilling ≡ some true =
      rw (marks, advance, lookup-insert_self c.id true w.shared.monitor.backfilling) refl in
    let u = run acts w1 in
    let filled = run-Filled c.id acts w1 d first in
    update_same j (advance (u.threads j) u.shared).0 u.threads
    ∙ ap (λ t. (advance t u.shared).0) checks
    ∙ ap (λ p. p.0) (check_skips ctx c u.shared filled)

-- Two tasks for a contract that is ready and not being filled, and whose sections take turns, so that both
-- check it before either marks it, both go on to a backfill of it.
pub tasks_race :
    (c : Contract) (w : World) (ctx other : ℕ)
    → w.threads 0 ≡ task_checks ctx c
    → w.threads 1 ≡ task_checks other c
    → is_contract_backfilling c.id w.shared.monitor ≡ false
    → is_contract_ready_for_monitoring c.id w.shared.monitor ≡ true
    → let u =
        run (advances 0 ∷ advances 1 ∷ advances 0 ∷ advances 1 ∷ advances 0 ∷ advances 1 ∷ []) w in
      (u.threads 0 ≡ task_begun c) × (u.threads 1 ≡ task_begun c)
unfolding run act
tasks_race c w ctx other first second free ready =
    rw
      (
        first,
        second,
        check_goes ctx c w.shared free,
        check_goes other c w.shared free,
        ready_goes ctx c w.shared ready,
        ready_goes other c w.shared ready,
      )
      (refl, refl)
