-- ===== src/Ranges.antt =====
-- Ranges of blocks that follow on one another, for the batches of the monitor and of the backfill.
use event_pool.Prelude.{
  ℕ, ◌+◌, ◌≤◌, ◌≡◌, List, [], ◌∷◌, ◌++◌, Bool, false, ◌&&◌, ◌||◌, arith, ltb, leb,
}

-- The ranges follow on one another from `lo` up to, not including, `hi`; none has more than
-- `width + 1` blocks.
abbrev pub Consecutive : ℕ → ℕ → List (ℕ × ℕ) → ℕ → Type 0
Consecutive width lo [] hi = lo ≡ hi
Consecutive width lo ((a, b) ∷ rs) hi =
    (a ≡ lo) × (a ≤ b) × (b ≤ a + width) × Consecutive width (b + 1) rs hi

pub Consecutive-snoc :
    (width lo a b : ℕ) (rs : List (ℕ × ℕ))
    → Consecutive width lo rs a
    → a ≤ b
    → b ≤ a + width
    → Consecutive width lo (rs ++ (a, b) ∷ []) (b + 1)
Consecutive-snoc width lo a b [] h p q = omega arith
Consecutive-snoc width lo a b ((c, d) ∷ rs) h p q =
    (h.0, h.1, h.2, Consecutive-snoc width (d + 1) a b rs h.3 p q)

-- Whether a block lies in one of the ranges.
abbrev pub covered : ℕ → List (ℕ × ℕ) → Bool
covered n [] = false
covered n ((a, b) ∷ rs) = leb a n && leb n b || covered n rs

pub covered-snoc :
    (n a b : ℕ) (rs : List (ℕ × ℕ))
    → covered n (rs ++ (a, b) ∷ []) ≡ (covered n rs || (leb a n && leb n b))
covered-snoc n a b [] = ground arith
covered-snoc n a b ((c, d) ∷ rs) = ground (arith, covered-snoc n a b rs)

pub Consecutive-covered :
    (width n lo hi : ℕ) (rs : List (ℕ × ℕ))
    → Consecutive width lo rs hi
    → (lo ≤ hi) × (covered n rs ≡ (leb lo n && ltb n hi))
Consecutive-covered width n lo hi [] h = (omega arith, ground arith)
Consecutive-covered width n lo hi ((a, b) ∷ rs) h =
    ground (arith, Consecutive-covered width n (b + 1) hi rs h.3)
