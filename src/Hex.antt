-- ===== src/Hex.antt =====
-- helper/hex/hex.go: bytes and numbers in hexadecimal, with the functions of Go's packages
-- encoding/hex and strconv that they call. A byte is a number below 256, a uint64 one below 2^64, and
-- a big number is its sign with its magnitude. What a decoder returns beside an error is modelled where
-- a caller reads it.
pub mod Bytes
pub mod Numbers
use event_pool.Prelude.{
  ℕ, zero, suc, ◌+◌, ◌-◌, ◌*◌, ◌/◌, ◌%◌, ◌^◌, [], ◌∷◌, ◌++◌, Bool, true, false, ◌&&◌, Option, none,
  some, if◌then◌else◌, ltb, leb, nat_eq, length, drop,
}
use event_pool.Text.{Text, bytes, trim_prefix}
use event_pool.Grpc.Http.{Integer}

abbrev pub hex_prefix : Text
hex_prefix = bytes "0x"

-- The table of the decoder: 255 stands for a byte that is no digit.
abbrev pub nibble : ℕ → ℕ
nibble c =
    if leb b'0' c && leb c b'9'
    then c - b'0'
    else if leb b'A' c && leb c b'F'
    then c - b'A' + 10
    else if leb b'a' c && leb c b'f'
    then c - b'a' + 10
    else 255

abbrev pub hex_digit : ℕ → ℕ
hex_digit d = if ltb d 10 then b'0' + d else b'a' + (d - 10)

-- `hex.EncodeToString`
unfoldable pub encode_to_string : Text → Text
encode_to_string [] = []
encode_to_string (b ∷ bs) = hex_digit (b / 16) ∷ hex_digit (b % 16) ∷ encode_to_string bs

-- The bytes in front of the first error.
pub record Decoded : Type 0 where
  pub content : Text
  pub failed : Bool

-- `hex.DecodeString`: a byte that is no digit fails it, and an odd length.
unfoldable pub decode_string : Text → Decoded
decode_string [] = record { content = []; failed = false }
decode_string (p ∷ []) = record { content = []; failed = true }
decode_string (p ∷ q ∷ rest) =
    let r = decode_string rest in
    if ltb (nibble p) 16 && ltb (nibble q) 16
    then record { content = (16 * nibble p + nibble q) ∷ r.content; failed = r.failed }
    else record { content = []; failed = true }

unfoldable pub encode_to_hex : Text → Text
unfolding encode_to_string
encode_to_hex str = hex_prefix ++ encode_to_string str

abbrev pub unless_failed : Decoded → Option Text
unless_failed d = if d.failed then none else some d.content

-- `DecodeHex`; where it is none, `MustDecodeHex` panics.
unfoldable pub decode_hex : Text → Option Text
unfolding trim_prefix decode_string
decode_hex str = unless_failed (decode_string (trim_prefix str hex_prefix))

-- A number by its digits in base 16, on fuel.
unfoldable pub print_hex_loop : ℕ → ℕ → Text
print_hex_loop zero n = []
print_hex_loop (suc fuel) n =
    let more = print_hex_loop fuel (n / 16) in
    if ltb n 16 then hex_digit n ∷ [] else more ++ hex_digit (n % 16) ∷ []

-- A number has at most as many digits as its value and one more.
unfoldable pub print_hex : ℕ → Text
unfolding print_hex_loop
print_hex n = print_hex_loop (n + 1) n

unfoldable pub encode_uint64 : ℕ → Text
unfolding print_hex
encode_uint64 i = hex_prefix ++ print_hex i

-- The digits behind a number.
unfoldable pub read_base : ℕ → Text → ℕ → Option ℕ
read_base base [] n = some n
read_base base (c ∷ cs) n =
    let rest = read_base base cs (base * n + nibble c) in if ltb (nibble c) base then rest else none

abbrev pub below : ℕ → Option ℕ → Option ℕ
below bound none = none
below bound (some n) = if ltb n bound then some n else none

-- `strconv.ParseUint(s, base, 64)` for the bases 10 and 16: a digit at least, no sign, below 2^64.
unfoldable pub parse_uint : ℕ → Text → Option ℕ
unfolding read_base
parse_uint base [] = none
parse_uint base (c ∷ cs) = below (2 ^ 64) (read_base base (c ∷ cs) 0)

unfoldable pub decode_uint64 : Text → Option ℕ
unfolding trim_prefix parse_uint
decode_uint64 hex_str = parse_uint 16 (trim_prefix hex_str hex_prefix)

abbrev pub bad_nibble : ℕ
bad_nibble = 2 ^ 64 - 1

unfoldable pub decode_nibble : ℕ → ℕ
decode_nibble c =
    if leb b'0' c && leb c b'9'
    then c - b'0'
    else if leb b'A' c && leb c b'F'
    then c - b'A' + 10
    else if leb b'a' c && leb c b'f'
    then c - b'a' + 10
    else bad_nibble

-- `%#x` of a big number writes the sign in front of the prefix.
unfoldable pub encode_big : Integer → Text
unfolding print_hex
encode_big n =
    if nat_eq n.magnitude 0
    then bytes "0x0"
    else if n.negative
    then bytes "-0x" ++ print_hex n.magnitude
    else hex_prefix ++ print_hex n.magnitude

abbrev pub signed : Bool → Option ℕ → Option Integer
signed negative none = none
signed negative (some n) =
    if nat_eq n 0
    then some (record { negative = false; magnitude = 0 })
    else some (record { negative = negative; magnitude = n })

abbrev pub digits_of : ℕ → Text → Option ℕ
unfolding read_base
digits_of base [] = none
digits_of base (c ∷ cs) = read_base base (c ∷ cs) 0

-- `SetString` of a big number in a base: a sign or none, and a digit at least.
unfoldable pub set_string : ℕ → Text → Option Integer
unfolding digits_of
set_string base [] = none
set_string base (c ∷ cs) =
    if nat_eq c b'-'
    then signed true (digits_of base cs)
    else if nat_eq c b'+'
    then signed false (digits_of base cs)
    else signed false (digits_of base (c ∷ cs))

unfoldable pub decode_hex_to_big : Text → Option Integer
unfolding trim_prefix set_string
decode_hex_to_big hex_num = set_string 16 (trim_prefix hex_num hex_prefix)

-- The slice from 2 on panics on a shorter input: `none`.
unfoldable pub drop_hex_prefix : Text → Option Text
drop_hex_prefix input = if ltb (length input) 2 then none else some (drop 2 input)
