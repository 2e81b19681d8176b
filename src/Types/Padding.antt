-- ===== src/Types/Padding.antt =====
-- Bytes brought to the length of an array, and the two routines that do it.
use event_pool.Prelude.{
  ℕ, zero, suc, ◌-◌, ◌≤◌, ◌≡◌, some, refl, ap, sym, ◌∙◌, inl, inr, List, [], ◌∷◌, ◌++◌, true, false,
  arith, ltb, nat_eq, nat_eq_iff, length, take, drop, replicate, length-append, length-replicate,
  length-drop, Bool-cases,
}
use mathlib.Core.List.{append-nil}
use event_pool.Text.{Text}
use event_pool.Helper.{pad_left_or_trim}
use event_pool.Types.{
  copy_front, bytes_to, address_length, string_to_bytes, string_to_address, unmarshal_address,
}

take_all {ℓ} : {A : Type ℓ} (n : ℕ) (xs : List A) → length xs ≤ n → take n xs ≡ xs
take_all zero [] h = refl
take_all (suc n) [] h = refl
take_all zero (x ∷ xs) h = absurd (omega arith)
take_all (suc n) (x ∷ xs) h = ap (λ l. x ∷ l) (take_all n xs (omega arith))

drop_all {ℓ} : {A : Type ℓ} (n : ℕ) (xs : List A) → length xs ≤ n → drop n xs ≡ []
drop_all zero [] h = refl
drop_all (suc n) [] h = refl
drop_all zero (x ∷ xs) h = absurd (omega arith)
drop_all (suc n) (x ∷ xs) h = drop_all n xs (omega arith)

-- An array takes over the bytes of its length.
pub copy_front-all : (old b : Text) → length b ≡ length old → copy_front old b ≡ b
unfolding copy_front
copy_front-all old b h =
    rw (take_all (length old) b (omega arith), drop_all (length b) old (omega arith)) (append-nil b)

self_minus : (n : ℕ) → n - n ≡ 0
self_minus n = omega arith

-- The three cases of a length.
bytes_to-long :
    (size : ℕ) (b : Text) → ltb (length b) size ≡ false → bytes_to size b ≡ drop (length b - size) b
unfolding bytes_to
bytes_to-long size b h = rw (h, self_minus size) refl

bytes_to-short :
    (size : ℕ) (b : Text)
    → ltb (length b) size ≡ true
    → bytes_to size b ≡ replicate (size - length b) 0 ++ b
unfolding bytes_to
bytes_to-short size b h = rw (h, self_minus (length b)) refl

pub bytes_to-all : (size : ℕ) (b : Text) → length b ≡ size → bytes_to size b ≡ b
bytes_to-all size b h =
    let nothing : length b - size ≡ 0 = omega (arith, h) in
    bytes_to-long size b (ground (arith, h)) ∙ rw nothing refl

-- For every size, 32 and 20 among them, `PadLeftOrTrim` makes the array of that size which `BytesToHash`
-- and `BytesToAddress` make of the bytes, and it has that size.
pub pad_left_or_trim-bytes_to :
    (b : Text) (size : ℕ)
    → (pad_left_or_trim b size ≡ bytes_to size b) × (length (bytes_to size b) ≡ size)
unfolding pad_left_or_trim
pad_left_or_trim-bytes_to b size = elim (Bool-cases (ltb (length b) size)) [
  | inl short ↦
      let differ : nat_eq (length b) size ≡ false = ground arith in
      let not_long : ltb size (length b) ≡ false = ground arith in
      (
        rw (differ, not_long) (sym (bytes_to-short size b short)),
        rw
            (
              bytes_to-short size b short,
              length-append (replicate (size - length b) 0) b,
              length-replicate {A = ℕ} (size - length b) 0,
            )
            (ground arith),
      )
  | inr long ↦ (
    elim (Bool-cases (nat_eq (length b) size)) [
      | inl same ↦ rw same (sym (bytes_to-all size b ((nat_eq_iff (length b) size).0 same)))
      | inr differ ↦
          let longer : ltb size (length b) ≡ true = ground arith in
          rw (differ, longer) (sym (bytes_to-long size b long))
    ],
    rw (bytes_to-long size b long, length-drop (length b - size) b) (ground arith),
  )
]

-- `StringToAddress` always has twenty bytes, and is the address of a text that `UnmarshalText` takes.
pub string_to_address-unmarshal_address :
    (str a : Text)
    → (length (string_to_address str) ≡ address_length)
      × (unmarshal_address str ≡ some a → string_to_address str ≡ a)
unfolding string_to_address unmarshal_address
string_to_address-unmarshal_address str a =
    ((pad_left_or_trim-bytes_to (string_to_bytes str) address_length).1, λ e. ground arith)
