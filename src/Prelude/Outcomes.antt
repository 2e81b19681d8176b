-- ===== src/Prelude/Outcomes.antt =====
-- One operation of a goroutine on what it shares.

-- It happens, it waits, or it panics.
pub data Outcome (S : Type 0) : Type 0 where
  went : S → Outcome S
  blocks panics : Outcome S
