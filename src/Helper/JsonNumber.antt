-- ===== src/Helper/JsonNumber.antt =====
-- Numbers of JSON written and read back.
use event_pool.Prelude.{
  ℕ, ◌^◌, ◌<◌, ◌≡◌, refl, inl, inr, Option, none, some, if◌then◌else◌, ltb, Bool-cases,
}
use event_pool.Text.{Text, has_prefix}
use event_pool.Hex.{encode_uint64}
use event_pool.Hex.Numbers.{parse_uint-print_hex}
use event_pool.Types.Encoding.{parse_uint64_or_hex, to_int64}
use event_pool.Helper.{
  RawValue, string, convert_unmarshalled_int, quoted, marshal_json, unmarshal_json,
}

parse_uint64_or_hex-encode_uint64 :
    (n : ℕ) → n < 2 ^ 64 → parse_uint64_or_hex (some (encode_uint64 n)) ≡ some n
unfolding parse_uint64_or_hex encode_uint64 has_prefix
parse_uint64_or_hex-encode_uint64 n h = parse_uint-print_hex n h

-- Where a quoted number is decoded as the text between the quotes, a uint64 below 2^63 is read back
-- from what it was written as, and any other is refused, although it was written.
pub unmarshal_json-marshal_json :
    (unmarshal : Text → Option RawValue) (n : ℕ)
    → n < 2 ^ 64
    → unmarshal (quoted (encode_uint64 n)) ≡ some (string (encode_uint64 n))
    → unmarshal_json unmarshal (marshal_json n) ≡ (if ltb n (2 ^ 63) then some n else none)
unfolding unmarshal_json marshal_json convert_unmarshalled_int to_int64
unmarshal_json-marshal_json unmarshal n h e = elim (Bool-cases (ltb n (2 ^ 63))) [
  | inl small ↦ rw (e, parse_uint64_or_hex-encode_uint64 n h, small, unmarshal_json) refl
  | inr large ↦ rw (e, parse_uint64_or_hex-encode_uint64 n h, large, unmarshal_json) refl
]
