-- ===== src/Text/Suffixes.antt =====
-- Laws of `strings.HasSuffix` for a suffix of one byte.
use event_pool.Prelude.{
  ℕ, suc, ◌-◌, ◌≡◌, refl, ◌∙◌, ◌≢◌, [], ◌∷◌, ◌++◌, true, text_eq, length, drop, arith,
}
use event_pool.Text.{Text, has_suffix}

drop-sub :
    (n : ℕ) (x y : ℕ) (s : Text) → drop (suc (suc n) - 1) (x ∷ y ∷ s) ≡ drop (suc n - 1) (y ∷ s)
drop-sub n x y s =
    let e : suc (suc n) - 1 ≡ suc n = omega arith in
    let f : suc n - 1 ≡ n = omega arith in rw (e, f)

-- Whether a text ends in a byte is decided behind its first byte.
pub has_suffix-cons :
    (x y c : ℕ) (s : Text) → has_suffix (x ∷ y ∷ s) (c ∷ []) ≡ has_suffix (y ∷ s) (c ∷ [])
unfolding has_suffix
has_suffix-cons x y c s = ground (arith, drop-sub (length s) x y s)

pub has_suffix-skip :
    (a : Text) (y c : ℕ) (s : Text) → has_suffix (a ++ y ∷ s) (c ∷ []) ≡ has_suffix (y ∷ s) (c ∷ [])
has_suffix-skip [] y c s = refl
has_suffix-skip (x ∷ []) y c s = has_suffix-cons x y c s
has_suffix-skip (x ∷ z ∷ a) y c s =
    has_suffix-cons x z c (a ++ y ∷ s) ∙ has_suffix-skip (z ∷ a) y c s

has_suffix_one : (o c : ℕ) → has_suffix (o ∷ []) (c ∷ []) ≡ true → o ≡ c
unfolding has_suffix text_eq
has_suffix_one o c h = ground arith

-- A text that ends in `c` still does so behind a byte `o` other than `c`.
pub has_suffix-behind :
    (a : Text) (o c : ℕ) (s : Text)
    → o ≢ c
    → has_suffix (a ++ o ∷ s) (c ∷ []) ≡ true
    → has_suffix s (c ∷ []) ≡ true
has_suffix-behind a o c [] n h =
    absurd (n (has_suffix_one o c (rw (has_suffix-skip a o c []) at h)))
has_suffix-behind a o c (y ∷ s) n h =
    rw (has_suffix-skip a o c (y ∷ s), has_suffix-cons o y c s) at h
