-- ===== src/Types/Address.antt =====
-- Addresses and hashes as texts, read back.
use event_pool.Prelude.{
  ℕ, ◌%◌, ◌≤◌, ◌≡◌, refl, ap, sym, ◌∙◌, inl, inr, [], ◌∷◌, ◌++◌, true, false, ◌&&◌, ◌||◌, some,
  arith, leb, nat_eq, length, All, Bool-cases,
}
use event_pool.Text.{Text}
use event_pool.Text.Laws.{trim_prefix-append}
use event_pool.Hex.{encode_to_hex, hex_prefix, nibble, encode_to_string, decode_string}
use event_pool.Hex.Bytes.{
  IsByte, Alike, Alike-length, decode_string-Alike, decode_string-encode_to_string,
  length-encode_to_string, decode_hex-Alike,
}
use event_pool.Types.{
  bytes_to, hash_string, unmarshal_hash, even_digits, string_to_bytes, unmarshal_address, scan,
  to_upper_byte, checksum_byte, checksum_loop, checksum_encode,
}
use event_pool.Types.Padding.{copy_front-all, bytes_to-all}

-- A letter is the same digit in either case.
nibble-to_upper_byte : (c : ℕ) → nibble (to_upper_byte c) ≡ nibble c
nibble-to_upper_byte c = ground arith

nibble-checksum_byte : (c h : ℕ) → nibble (checksum_byte c h) ≡ nibble c
nibble-checksum_byte c h =
    elim (Bool-cases ((leb b'0' c && leb c b'9') || (leb b'0' h && leb h b'7'))) [
      | inl keep ↦ rw keep refl
      | inr other ↦ rw other (nibble-to_upper_byte c)
    ]

checksum_loop-Alike :
    (cs hashed : Text)
    → length cs ≤ length hashed
    → (t : Text) × (checksum_loop cs hashed ≡ some t) × Alike t cs
unfolding checksum_loop
checksum_loop-Alike [] hashed h = ([], refl, tt)
checksum_loop-Alike (c ∷ cs) [] h = absurd (omega arith)
checksum_loop-Alike (c ∷ cs) (k ∷ hashed) h =
    let (t, e, like) = checksum_loop-Alike cs hashed (omega arith) in
    (checksum_byte c k ∷ t, rw e refl, (nibble-checksum_byte c k, like))

-- Digits of some bytes behind the prefix, in either case of the letters.
string_to_bytes-Alike :
    (bs t : Text)
    → All IsByte bs
    → Alike t (encode_to_string bs)
    → string_to_bytes (hex_prefix ++ t) ≡ bs
unfolding string_to_bytes
string_to_bytes-Alike bs t h like =
    let len = Alike-length t (encode_to_string bs) like ∙ length-encode_to_string bs in
    let even : nat_eq (length t % 2) 1 ≡ false = ground (arith, len) in
    let decoded =
      decode_string-Alike t (encode_to_string bs) like ∙ decode_string-encode_to_string bs h in
    let same : even_digits t ≡ t = rw even refl in
    ap (λ s. (decode_string (even_digits s)).content) (trim_prefix-append hex_prefix t)
    ∙ (ap (λ s. (decode_string s).content) same ∙ ap (λ d. d.content) decoded)

scan-Alike :
    (old bs t : Text)
    → length bs ≡ length old
    → All IsByte bs
    → Alike t (encode_to_string bs)
    → scan old (hex_prefix ++ t) ≡ some bs
unfolding scan
scan-Alike old bs t len h like =
    rw (decode_hex-Alike bs t h like, scan) (ap some (copy_front-all old bs len))

unmarshal_address-Alike :
    (bs t : Text)
    → length bs ≡ 20
    → All IsByte bs
    → Alike t (encode_to_string bs)
    → unmarshal_address (hex_prefix ++ t) ≡ some bs
unfolding unmarshal_address
unmarshal_address-Alike bs t len h like =
    let fits : nat_eq (length bs) 20 ≡ true = ground (arith, len) in
    rw (string_to_bytes-Alike bs t h like, fits) (ap some (bytes_to-all 20 bs len))

-- Where Keccak-256 makes 32 bytes, the checksummed text of an address of 20 bytes is made without a
-- panic, and it is read back as the address, as a text and as a column of a database over any address.
pub checksum_encode-read_back :
    (keccak : Text → Text) (a old : Text)
    → length a ≡ 20
    → length old ≡ 20
    → All IsByte a
    → length (keccak (encode_to_string a)) ≡ 32
    → (text : Text) × (checksum_encode keccak a ≡ some text)
      × (unmarshal_address text ≡ some a)
      × (scan old text ≡ some a)
unfolding checksum_encode
checksum_encode-read_back keccak a old len len' h hash =
    let (t, e, like) =
      checksum_loop-Alike (encode_to_string a) (encode_to_string (keccak (encode_to_string a))) (
        omega (
          arith,
          length-encode_to_string a,
          length-encode_to_string (keccak (encode_to_string a)),
          len,
          hash,
        )) in
    (
      hex_prefix ++ t,
      rw (e, checksum_encode) refl,
      unmarshal_address-Alike a t len h like,
      scan-Alike old a t (len ∙ sym len') h like,
    )

Alike-refl : (t : Text) → Alike t t
Alike-refl [] = tt
Alike-refl (c ∷ t) = (refl, Alike-refl t)

-- A hash of 32 bytes is read back from its text, and from a column over any hash.
pub hash_string-read_back :
    (h old : Text)
    → length h ≡ 32
    → length old ≡ 32
    → All IsByte h
    → (unmarshal_hash (hash_string h) ≡ h) × (scan old (hash_string h) ≡ some h)
unfolding hash_string encode_to_hex unmarshal_hash
hash_string-read_back h old len len' bytes =
    let like = Alike-refl (encode_to_string h) in
    (
      ap (bytes_to 32) (string_to_bytes-Alike h (encode_to_string h) bytes like)
          ∙ bytes_to-all 32 h len,
      scan-Alike old h (encode_to_string h) (len ∙ sym len') bytes like,
    )
