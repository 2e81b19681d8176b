-- ===== src/Hex/Numbers.antt =====
-- Numbers in hexadecimal, read back.
use event_pool.Prelude.{
  ℕ, zero, suc, ◌+◌, ◌*◌, ◌/◌, ◌%◌, ◌^◌, ◌<◌, ◌≡◌, ◌≢◌, refl, ap, ◌∙◌, inl, inr, [], ◌∷◌, ◌++◌,
  true, Option, none, some, arith, ltb, Bool-cases,
}
use event_pool.Text.{Text}
use event_pool.Text.Laws.{trim_prefix-append}
use event_pool.Hex.{
  hex_prefix, nibble, hex_digit, print_hex_loop, print_hex, encode_uint64, read_base, below,
  parse_uint, decode_uint64,
}
use event_pool.Hex.Bytes.{nibble-hex_digit}

abbrev times_base : ℕ → ℕ → Option ℕ → Option ℕ
times_base base d none = none
times_base base d (some n) = some (base * n + d)

-- The last digit is read last.
read_base-snoc :
    (s : Text) (acc d : ℕ)
    → d < 16
    → read_base 16 (s ++ hex_digit d ∷ []) acc ≡ times_base 16 d (read_base 16 s acc)
unfolding read_base
read_base-snoc [] acc d h =
    let small : ltb d 16 ≡ true = ground arith in rw (nibble-hex_digit d h, small) refl
read_base-snoc (c ∷ s) acc d h =
    let tail = read_base-snoc s (16 * acc + nibble c) d h in
    elim (Bool-cases (ltb (nibble c) 16)) [
      | inl digit ↦ rw (digit, read_base) tail
      | inr other ↦ rw (other, read_base) refl
    ]

read_base-print_hex_loop : (fuel n : ℕ) → n < fuel → read_base 16 (print_hex_loop fuel n) 0 ≡ some n
unfolding print_hex_loop read_base
read_base-print_hex_loop zero n h = absurd (omega arith)
read_base-print_hex_loop (suc fuel) n h = elim (Bool-cases (ltb n 16)) [
  | inl small ↦ rw (small, nibble-hex_digit n (ground arith), small) (ap some (omega arith))
  | inr large ↦
      let front = read_base-print_hex_loop fuel (n / 16) (ground arith) in
      rw (large, read_base-snoc (print_hex_loop fuel (n / 16)) 0 (n % 16) (omega arith), front)
        (ap some (omega arith))
]

snoc≢nil : (s : Text) (c : ℕ) → s ++ c ∷ [] ≢ []
snoc≢nil [] c e = cc e
snoc≢nil (d ∷ s) c e = cc e

print_hex_loop≢nil : (fuel n : ℕ) → 0 < fuel → print_hex_loop fuel n ≢ []
unfolding print_hex_loop
print_hex_loop≢nil zero n h e = absurd (omega arith)
print_hex_loop≢nil (suc fuel) n h e = elim (Bool-cases (ltb n 16)) [
  | inl small ↦ cc (rw (small, print_hex_loop) at e)
  | inr large ↦ snoc≢nil (print_hex_loop fuel (n / 16)) _ (rw (large, print_hex_loop) at e)
]

parse_uint-below :
    (base n : ℕ) (s : Text)
    → s ≢ []
    → read_base base s 0 ≡ some n
    → parse_uint base s ≡ below (2 ^ 64) (some n)
unfolding parse_uint
parse_uint-below base n [] h e = absurd (h refl)
parse_uint-below base n (c ∷ s) h e = ap (below (2 ^ 64)) e

pub parse_uint-print_hex : (n : ℕ) → n < 2 ^ 64 → parse_uint 16 (print_hex n) ≡ some n
unfolding print_hex
parse_uint-print_hex n h =
    let fits : ltb n (2 ^ 64) ≡ true = ground arith in
    parse_uint-below 16 n (print_hex n) (print_hex_loop≢nil (n + 1) n (omega arith))
      (read_base-print_hex_loop (n + 1) n (omega arith))
    ∙ rw fits refl

pub decode_uint64-encode_uint64 : (n : ℕ) → n < 2 ^ 64 → decode_uint64 (encode_uint64 n) ≡ some n
unfolding decode_uint64 encode_uint64
decode_uint64-encode_uint64 n h =
    rw (trim_prefix-append hex_prefix (print_hex n), parse_uint-print_hex n h) refl
