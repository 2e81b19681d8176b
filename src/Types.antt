-- ===== src/Types.antt =====
-- types/types.go: hashes of 32 bytes and addresses of 20, as texts and as columns of a database.
-- An array of n bytes is a list of that length; `keccak` is the hash of helper/keccak. The other
-- structs of the file are only passed on.
pub mod Address
pub mod Padding
pub mod Encoding
mod Tests
use event_pool.Prelude.{
  ℕ, zero, suc, ◌+◌, ◌-◌, ◌*◌, ◌%◌, [], ◌∷◌, ◌++◌, Bool, true, false, ◌&&◌, ◌||◌, Option, none,
  some, if◌then◌else◌, ltb, leb, nat_eq, length, take, drop, replicate,
}
use event_pool.Text.{Text, bytes, trim_prefix}
use event_pool.Hex.{hex_prefix, encode_to_string, encode_to_hex, Decoded, decode_string, decode_hex}

abbrev pub hash_length : ℕ
hash_length = 32

abbrev pub address_length : ℕ
address_length = 20

abbrev pub min_of : ℕ → ℕ → ℕ
min_of i j = if ltb i j then i else j

-- `copy(a[:], src)` into the n bytes of an array.
unfoldable pub copy_front : Text → Text → Text
copy_front old src = take (length old) src ++ drop (length src) old

-- `BytesToHash` for 32, `BytesToAddress` for 20: the last bytes, behind zeros.
unfoldable pub bytes_to : ℕ → Text → Text
bytes_to size b = let m = min_of (length b) size in replicate (size - m) 0 ++ drop (length b - m) b

abbrev pub even_digits : Text → Text
even_digits digits = if nat_eq (length digits % 2) 1 then b'0' ∷ digits else digits

-- `stringToBytes` passes over the error of the decoder and keeps the bytes in front of it.
unfoldable pub string_to_bytes : Text → Text
unfolding trim_prefix decode_string
string_to_bytes str = (decode_string (even_digits (trim_prefix str hex_prefix))).content

-- `Hash.UnmarshalText`, which is also `StringToHash`.
unfoldable pub unmarshal_hash : Text → Text
unfolding bytes_to string_to_bytes
unmarshal_hash input = bytes_to hash_length (string_to_bytes input)

unfoldable pub unmarshal_address : Text → Option Text
unfolding bytes_to string_to_bytes
unmarshal_address input =
    let buf = string_to_bytes input in
    if nat_eq (length buf) address_length then some (bytes_to address_length buf) else none

-- `StringToAddress` takes any length.
unfoldable pub string_to_address : Text → Text
unfolding bytes_to string_to_bytes
string_to_address str = bytes_to address_length (string_to_bytes str)

-- `AddressToString` is a conversion of the array's bytes.
unfoldable pub address_to_string : Text → Text
address_to_string address = address

abbrev pub empty_root_hash : Text
unfolding unmarshal_hash
empty_root_hash =
    unmarshal_hash (bytes "0x56e81f171bcc55a6ff8345e692c0f86e5b48e01b996cadc001622fb5e363b421")

abbrev pub empty_uncle_hash : Text
unfolding unmarshal_hash
empty_uncle_hash =
    unmarshal_hash (bytes "0x1dcc4de8dec75d7aab85b567b6ccd41ad312451b948a7413f0a142fd40d49347")

-- `Scan` of a column of bytes into the hash or the address `old`; `none` is its error.
unfoldable pub scan : Text → Text → Option Text
unfolding decode_hex copy_front
scan old src = elim (decode_hex src) [ none ↦ none | some b ↦ some (copy_front old b) ]

-- The `String` and the `MarshalText` of a hash.
unfoldable pub hash_string : Text → Text
unfolding encode_to_hex
hash_string h = encode_to_hex h

-- `unicode.ToUpper` of an ASCII letter.
abbrev pub to_upper_byte : ℕ → ℕ
to_upper_byte c = if leb b'a' c && leb c b'z' then c - 32 else c

abbrev pub checksum_byte : ℕ → ℕ → ℕ
checksum_byte c hashed =
    if (leb b'0' c && leb c b'9') || (leb b'0' hashed && leb hashed b'7')
    then c
    else to_upper_byte c

-- The loop of `checksumEncode`: an index behind the end of the hash panics, `none`.
unfoldable pub checksum_loop : Text → Text → Option Text
checksum_loop [] hashed = some []
checksum_loop (c ∷ cs) [] = none
checksum_loop (c ∷ cs) (h ∷ hashed) = elim (checksum_loop cs hashed) [
  | none ↦ none
  | some rest ↦ some (checksum_byte c h ∷ rest)
]

-- The `String`, the `Value` and the `MarshalText` of an address.
unfoldable pub checksum_encode : (Text → Text) → Text → Option Text
unfolding encode_to_string checksum_loop
checksum_encode keccak a =
    let lowercase_hex = encode_to_string a in
    elim (checksum_loop lowercase_hex (encode_to_string (keccak lowercase_hex))) [
      | none ↦ none
      | some result ↦ some (hex_prefix ++ result)
    ]
