-- ===== src/Monitor/Threads/Newest.antt =====
-- Which goroutines `Stop` cancels, whatever the order of the critical sections.
use event_pool.Prelude.{
  ℕ, ◌≡◌, ◌⊎◌, List, [], ◌∷◌, true, Option, none, some, if◌then◌else◌, among, lookup, text_eq,
  text_Eq,
}
use event_pool.Text.{Text}
use event_pool.Monitor.{Monitor}

-- The context of the goroutine of a contract that was started last.
unfoldable pub newest : Text → List (ℕ × Text) → Option ℕ
newest id [] = none
newest id ((ctx, j) ∷ gs) = if text_eq j id then some ctx else newest id gs

-- The newest goroutine of each contract is cancelled, or `monitors` has its cancel function.
record IsHeld (m : Monitor) : Type 0 where
  held :
      (id : Text) (ctx : ℕ)
      → newest id m.goroutines ≡ some ctx
      → (among ctx m.cancelled ≡ true) ⊎ (lookup id m.monitors ≡ some ctx)
