-- ===== src/Types/Tests.antt =====
-- An address of twenty bytes, and texts that are not quite hashes.
use event_pool.Prelude.{
  ℕ, zero, suc, ◌≡◌, refl, length, [], ◌∷◌, ◌++◌, true, none, some, All, replicate, arith,
}
use event_pool.Text.{Text, bytes, has_prefix, trim_prefix}
use event_pool.Grpc.Http.{Integer}
use event_pool.Hex.{
  encode_to_string, decode_string, decode_hex, print_hex, print_hex_loop, decode_nibble, encode_big,
  decode_hex_to_big, set_string, drop_hex_prefix, read_base,
}
use event_pool.Hex.Bytes.{IsByte}
use event_pool.Types.{
  empty_root_hash, empty_uncle_hash, bytes_to, string_to_bytes, unmarshal_hash, unmarshal_address,
  scan, copy_front, checksum_loop, checksum_encode,
}
use event_pool.Types.Address.{checksum_encode-read_back}
use event_pool.Types.Encoding.{encode_big_int}

abbrev twenty : Text
twenty = replicate 20 171

twenty-IsByte : (n : ℕ) → All IsByte (replicate n 171)
twenty-IsByte zero = tt
twenty-IsByte (suc n) = (omega arith, twenty-IsByte n)

-- A hash whose digits are all above 7.
abbrev all_high : Text → Text
all_high text = replicate 32 255

checksum_encode-read_back_example :
    (text : Text) × (checksum_encode all_high twenty ≡ some text)
    × (unmarshal_address text ≡ some twenty)
    × (scan (replicate 20 0) text ≡ some twenty)
checksum_encode-read_back_example =
    checksum_encode-read_back all_high twenty (replicate 20 0) refl refl (twenty-IsByte 20) refl

-- The letters come out in upper case.
checksum_upper : checksum_encode all_high (171 ∷ []) ≡ some (bytes "0xAB")
unfolding checksum_encode checksum_loop encode_to_string
checksum_upper = refl

-- A text that is no hexadecimal number is a hash all the same, that of the bytes in front.
invalid_hash : unmarshal_hash (bytes "0x01zz") ≡ replicate 31 0 ++ 1 ∷ []
unfolding unmarshal_hash string_to_bytes bytes_to decode_string trim_prefix has_prefix
invalid_hash = refl

-- A column that is shorter than the array fills it from the left.
short_column : scan (replicate 4 0) (bytes "0x0102") ≡ some (1 ∷ 2 ∷ 0 ∷ 0 ∷ [])
unfolding scan copy_front decode_hex decode_string trim_prefix has_prefix
short_column = refl

abbrev minus_ten : Integer
minus_ten = record { negative = true; magnitude = 10 }

-- The sign in front of the prefix is not read back, the one behind it is.
minus_ten-encode_big : decode_hex_to_big (encode_big minus_ten) ≡ none
unfolding decode_hex_to_big encode_big print_hex print_hex_loop set_string trim_prefix has_prefix
    read_base
minus_ten-encode_big = refl

minus_ten-encode_big_int : decode_hex_to_big (encode_big_int minus_ten) ≡ some minus_ten
unfolding decode_hex_to_big encode_big_int print_hex print_hex_loop set_string trim_prefix
    has_prefix read_base
minus_ten-encode_big_int = refl

short_input : drop_hex_prefix (bytes "0") ≡ none
unfolding drop_hex_prefix
short_input = refl

no_digit : decode_nibble b'g' ≡ 18446744073709551615
unfolding decode_nibble
no_digit = refl

-- The two constants are whole hashes.
constants_lengths : (length empty_root_hash ≡ 32) × (length empty_uncle_hash ≡ 32)
unfolding empty_root_hash empty_uncle_hash unmarshal_hash bytes_to string_to_bytes trim_prefix
    decode_string has_prefix
constants_lengths = (refl, refl)
