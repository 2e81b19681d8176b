-- ===== src/Grpc/Http/Digits.antt =====
-- The chain number as the listener prints it, read back by the endpoint.
use event_pool.Prelude.{
  ℕ, zero, suc, ◌+◌, ◌-◌, ◌*◌, ◌/◌, ◌%◌, ◌^◌, ◌<◌, ◌≡◌, ◌≢◌, refl, ap, ◌∙◌, inl, inr, [], ◌∷◌, ◌++◌,
  true, false, ◌&&◌, Option, none, some, arith, ltb, leb, nat_eq, Bool-cases,
}
use event_pool.Text.{Text}
use event_pool.Text.Decimal.{print_loop, print_nat}
use event_pool.Grpc.Http.{is_missing, read_digits, parse_int, in_range}

-- The digit behind a number that was read.
abbrev one_more : ℕ → Option ℕ → Option ℕ
one_more d none = none
one_more d (some m) = some (10 * m + d)

read_digits-snoc :
    (s : Text) (acc d : ℕ)
    → d < 10
    → read_digits (s ++ (48 + d) ∷ []) acc ≡ one_more d (read_digits s acc)
unfolding read_digits
read_digits-snoc [] acc d h = ground arith
read_digits-snoc (c ∷ s) acc d h = elim (Bool-cases (leb 48 c && leb c 57)) [
  | inl digit ↦ rw digit (read_digits-snoc s (10 * acc + (c - 48)) d h)
  | inr other ↦ rw other refl
]

read_digits-print_loop : (fuel n : ℕ) → n < fuel → read_digits (print_loop fuel n) 0 ≡ some n
unfolding print_loop read_digits
read_digits-print_loop zero n h = absurd (omega arith)
read_digits-print_loop (suc fuel) n h = elim (Bool-cases (ltb n 10)) [
  | inl small ↦ rw small (ground arith)
  | inr large ↦
      let less : n / 10 < fuel = ground arith in
      let digit : n % 10 < 10 = omega arith in
      let whole : 10 * (n / 10) + n % 10 ≡ n = omega arith in
      rw large (
        read_digits-snoc (print_loop fuel (n / 10)) 0 (n % 10) digit
        ∙ ap (one_more (n % 10)) (read_digits-print_loop fuel (n / 10) less)
        ∙ ap some whole)
]

-- A text of digits has no sign.
parse_int-digits :
    (s : Text) (n : ℕ) → s ≢ [] → read_digits s 0 ≡ some n → parse_int s ≡ in_range false (some n)
unfolding parse_int read_digits
parse_int-digits [] n h e = absurd (h refl)
parse_int-digits (c ∷ cs) n h e = elim (Bool-cases (leb 48 c && leb c 57)) [
  | inl digit ↦
      let no_minus : nat_eq c 45 ≡ false = ground arith in
      let no_plus : nat_eq c 43 ≡ false = ground arith in
      rw (no_minus, no_plus, parse_int) (ap (in_range false) e)
  | inr other ↦ cc (rw (other, read_digits) at e)
]

snoc-nonempty : (s : Text) (c : ℕ) → s ++ c ∷ [] ≢ []
snoc-nonempty [] c e = cc
snoc-nonempty (d ∷ s) c e = cc

print_loop-nonempty : (fuel n : ℕ) → 0 < fuel → print_loop fuel n ≢ []
unfolding print_loop
print_loop-nonempty zero n h e = absurd (omega arith)
print_loop-nonempty (suc fuel) n h e = elim (Bool-cases (ltb n 10)) [
  | inl small ↦ cc (rw (small, print_loop) at e)
  | inr large ↦ snoc-nonempty (print_loop fuel (n / 10)) (48 + n % 10) (rw (large, print_loop) at e)
]

present : (s : Text) → s ≢ [] → is_missing s ≡ false
present [] h = absurd (h refl)
present (c ∷ s) h = refl

pub print_nat-present : (n : ℕ) → is_missing (print_nat n) ≡ false
unfolding print_nat
print_nat-present n = present (print_nat n) (print_loop-nonempty (n + 1) n (omega arith))

-- `ParseInt` reads every number below 2^63 back from its print.
pub parse_int-print_nat :
    (n : ℕ)
    → n < 2 ^ 63
    → parse_int (print_nat n) ≡ some (record { negative = false; magnitude = n })
unfolding print_nat
parse_int-print_nat n h =
    let small : ltb n (2 ^ 63) ≡ true = ground arith in
    parse_int-digits (print_nat n) n (print_loop-nonempty (n + 1) n (omega arith))
      (read_digits-print_loop (n + 1) n (omega arith))
    ∙ rw small refl
