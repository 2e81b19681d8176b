-- ===== src/Types/Encoding.antt =====
-- types/encoding.go: the numbers and bytes of JSON-RPC. An absent value is `none`.
use event_pool.Prelude.{
  ℕ, ◌-◌, ◌^◌, [], ◌++◌, true, false, Option, none, some, if◌then◌else◌, ltb, drop,
}
use event_pool.Text.{Text, bytes, has_prefix, trim_prefix}
use event_pool.Hex.{
  hex_prefix, decode_string, encode_to_string, print_hex, parse_uint, set_string, unless_failed,
}
use event_pool.Grpc.Http.{Integer}

-- The result is `none` for an error; an absent value is 0.
unfoldable pub parse_uint64_or_hex : Option Text → Option ℕ
unfolding has_prefix parse_uint
parse_uint64_or_hex none = some 0
parse_uint64_or_hex (some str) =
    if has_prefix str hex_prefix then parse_uint 16 (drop 2 str) else parse_uint 10 str

-- The outer `none` is an error, the inner one nil.
unfoldable pub parse_uint256_or_hex : Option Text → Option (Option Integer)
unfolding has_prefix set_string
parse_uint256_or_hex none = some none
parse_uint256_or_hex (some str) =
    let value =
      if has_prefix str hex_prefix then set_string 16 (drop 2 str) else set_string 10 str in
    elim value [ none ↦ none | some b ↦ some (some b) ]

-- The conversion of a uint64 to an int64, which wraps around.
unfoldable pub to_int64 : ℕ → Integer
to_int64 n =
    if ltb n (2 ^ 63)
    then record { negative = false; magnitude = n }
    else record { negative = true; magnitude = 2 ^ 64 - n }

unfoldable pub parse_int64_or_hex : Option Text → Option Integer
unfolding parse_uint64_or_hex to_int64
parse_int64_or_hex val = elim (parse_uint64_or_hex val) [ none ↦ none | some i ↦ some (to_int64 i) ]

unfoldable pub parse_bytes : Option Text → Option Text
unfolding trim_prefix decode_string
parse_bytes none = some []
parse_bytes (some val) = unless_failed (decode_string (trim_prefix val hex_prefix))

unfoldable pub encode_bytes : Text → Text
unfolding encode_to_string
encode_bytes b = hex_prefix ++ encode_to_string b

-- `EncodeBigInt`: the sign stands behind the prefix.
unfoldable pub encode_big_int : Integer → Text
unfolding print_hex
encode_big_int b =
    hex_prefix ++ (if b.negative then bytes "-" ++ print_hex b.magnitude else print_hex b.magnitude)
