-- ===== src/Hex/Bytes.antt =====
-- Bytes in hexadecimal, read back in either case of the letters.
use event_pool.Prelude.{
  ℕ, suc, ◌+◌, ◌*◌, ◌/◌, ◌%◌, ◌<◌, ◌≡◌, refl, ap, [], ◌∷◌, ◌++◌, true, false, some, arith, ltb,
  length, All,
}
use event_pool.Text.{Text}
use event_pool.Text.Laws.{trim_prefix-append}
use event_pool.Hex.{hex_prefix, nibble, hex_digit, encode_to_string, decode_string, decode_hex}

abbrev pub IsByte : ℕ → Type 0
IsByte b = b < 256

pub nibble-hex_digit : (d : ℕ) → d < 16 → nibble (hex_digit d) ≡ d
nibble-hex_digit d h = ground arith

-- Texts whose bytes are the same digits.
abbrev pub Alike : Text → Text → Type 0
Alike [] [] = Unit
Alike (c ∷ s) (d ∷ t) = (nibble c ≡ nibble d) × Alike s t
Alike _ _ = ⊥

pub Alike-length : (s t : Text) → Alike s t → length s ≡ length t
Alike-length [] [] h = refl
Alike-length (c ∷ s) (d ∷ t) h = ap suc (Alike-length s t h.1)
Alike-length [] (d ∷ t) h = absurd h
Alike-length (c ∷ s) [] h = absurd h

pub decode_string-Alike : (s t : Text) → Alike s t → decode_string s ≡ decode_string t
unfolding decode_string
decode_string-Alike [] [] h = refl
decode_string-Alike (c ∷ []) (d ∷ []) h = refl
decode_string-Alike (p ∷ q ∷ s) (p' ∷ q' ∷ t) (e, (f, h)) =
    rw (e, f, decode_string-Alike s t h) refl
decode_string-Alike [] (d ∷ t) h = absurd h
decode_string-Alike (c ∷ s) [] h = absurd h
decode_string-Alike (c ∷ []) (d ∷ d' ∷ t) h = absurd h.1
decode_string-Alike (c ∷ c' ∷ s) (d ∷ []) h = absurd h.1

pub decode_string-encode_to_string :
    (bs : Text)
    → All IsByte bs
    → decode_string (encode_to_string bs) ≡ record { content = bs; failed = false }
unfolding decode_string encode_to_string
decode_string-encode_to_string [] h = refl
decode_string-encode_to_string (b ∷ bs) (k, h) =
    let high = nibble-hex_digit (b / 16) (omega arith) in
    let low = nibble-hex_digit (b % 16) (omega arith) in
    let whole : 16 * (b / 16) + b % 16 ≡ b = omega arith in
    let small : ltb (b / 16) 16 ≡ true = ground arith in
    let small' : ltb (b % 16) 16 ≡ true = ground arith in
    rw (high, low, small, small', decode_string-encode_to_string bs h, whole) refl

pub length-encode_to_string : (bs : Text) → length (encode_to_string bs) ≡ 2 * length bs
unfolding encode_to_string
length-encode_to_string [] = omega arith
length-encode_to_string (b ∷ bs) = omega (arith, length-encode_to_string bs)

-- Every text with the digits of some bytes, with the prefix, is read back as them.
pub decode_hex-Alike :
    (bs t : Text)
    → All IsByte bs
    → Alike t (encode_to_string bs)
    → decode_hex (hex_prefix ++ t) ≡ some bs
unfolding decode_hex
decode_hex-Alike bs t h like =
    rw
      (
        trim_prefix-append hex_prefix t,
        decode_string-Alike t _ like,
        decode_string-encode_to_string bs h,
      )
      refl
