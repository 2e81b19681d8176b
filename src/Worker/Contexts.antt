-- ===== src/Worker/Contexts.antt =====
-- Which context a contract is monitored under when a task of the queue registers it.
-- `handleBackfill` hands the task's context to `RegisterContract`, so that a context made while it runs is
-- cancelled with the task's.
use event_pool.Prelude.{
  ℕ, ◌≡◌, ◌≢◌, Bool, true, false, ◌||◌, none, some, All, nat_eq, nat_Eq, text_eq, text_Eq, lookup,
}
use event_pool.Text.{Text}
use event_pool.Monitor.Threads.{
  Shared, Thread, start_reads, start_loop, registers, set_ready, set_monitor, World, Act, stops,
}

abbrev pub is_stop : Act → Bool
is_stop stops = true
is_stop _ = false

-- Whether a thread may register the contract without asking for it any more: in the loop of `Start`, or
-- in a `RegisterContract` of it.
abbrev pub is_registering : Text → Thread → Bool
is_registering id (start_reads ctx found latest) = true
is_registering id (start_loop ctx cs) = true
is_registering id (registers ctx c r after) = text_eq c.id id || is_registering id after
is_registering id _ = false

module _ (id : Text) (parent : ℕ) where
  -- The contract is monitored, and only by goroutines whose contexts were made from `parent`.
  record IsOnly (s : Shared) : Type 0 where
    on : s.monitor.running ≡ true
    is_ready : lookup id s.monitor.ready_for_monitoring ≡ some true
    held : lookup id s.monitor.monitors ≢ none
    only : All (λ (from, ctx, j). j ≡ id → from ≡ parent) s.made

  -- What a section of a thread that does not register the contract keeps.
  abbrev Keeps : Thread × Shared → Type 0
  Keeps (t, s) = (is_registering id t ≡ false) × IsOnly s

  -- No thread is about to register the contract.
  record IsQuiet (w : World) : Type 0 where
    kept : IsOnly w.shared
    calm : (k : ℕ) → is_registering id (w.threads k) ≡ false

abbrev AreOthersCalm : Text → ℕ → World → Type 0
AreOthersCalm id i w = (k : ℕ) → nat_eq i k ≡ false → is_registering id (w.threads k) ≡ false

-- A section of the thread `i` by itself.
record IsMoved (i : ℕ) (w : World) (t : Thread) (s : Shared) : Type 0 where
  at : w.threads i ≡ t
  there : w.shared ≡ s

-- The shared state behind the sections of `RegisterContract`.
abbrev registered : ℕ → Text → Shared → Shared
registered ctx id s = set_monitor ctx id (set_ready id s)
