-- ===== src/Helper.antt =====
-- helper/common/common.go: numbers of JSON, the padding of bytes, and lists with a common element. A
-- JSON value is what `json.Unmarshal` makes of a text, which is a parameter; a number of it stands as
-- the int64 that `roundFloat` gives. The directories of the file stand in Helper/Files, its signals are
-- I/O.
pub mod JsonNumber
pub mod Common
pub mod Keccak
pub mod Files
pub mod Progression
mod Tests
use event_pool.Prelude.{
  ℕ, ◌+◌, ◌-◌, ◌^◌, List, [], ◌∷◌, ◌++◌, Bool, true, false, not, Option, none, some, if◌then◌else◌,
  ltb, nat_eq, length, drop, replicate, Dict, lookup, insert, nat_Eq,
}
use event_pool.Text.{Text, bytes}
use event_pool.Hex.{encode_uint64}
use event_pool.Grpc.Http.{Integer}
use event_pool.Types.Encoding.{parse_uint64_or_hex, to_int64}

unfoldable pub min : ℕ → ℕ → ℕ
min a b = if ltb a b then a else b

unfoldable pub max : ℕ → ℕ → ℕ
max a b = if ltb b a then a else b

unfoldable pub pad_left_or_trim : Text → ℕ → Text
pad_left_or_trim bb size =
    let l = length bb in
    if nat_eq l size
    then bb
    else if ltb size l
    then drop (l - size) bb
    else replicate (size - l) 0 ++ bb

pub data RawValue : Type 0 where
  number : Integer → RawValue
  string : Text → RawValue
  other : RawValue

-- `none` is an error.
unfoldable pub convert_unmarshalled_int : RawValue → Option Integer
unfolding parse_uint64_or_hex to_int64
convert_unmarshalled_int (number n) = some n
convert_unmarshalled_int (string s) = elim (parse_uint64_or_hex (some s)) [
  | none ↦ none
  | some v ↦ some (to_int64 v)
]
convert_unmarshalled_int other = none

abbrev pub quoted : Text → Text
quoted s = bytes "\"" ++ (s ++ bytes "\"")

unfoldable pub marshal_json : ℕ → Text
unfolding encode_uint64
marshal_json value = quoted (encode_uint64 value)

-- The value that is set, or an error.
unfoldable pub unmarshal_json : (Text → Option RawValue) → Text → Option ℕ
unfolding convert_unmarshalled_int
unmarshal_json unmarshal data_ = elim (unmarshal data_) [
  | none ↦ none
  | some raw ↦ elim (convert_unmarshalled_int raw) [
    | none ↦ none
    | some val ↦ if val.negative then none else some val.magnitude
  ]
]

-- The first loop of `HasCommonElement` makes a map of the elements.
unfoldable pub element_map : List ℕ → Dict ℕ Bool → Dict ℕ Bool
element_map [] elements = elements
element_map (num ∷ slice) elements = element_map slice (insert num true elements)

abbrev pub is_element : Option Bool → Bool
is_element none = false
is_element (some b) = b

unfoldable pub any_element : List ℕ → Dict ℕ Bool → Bool
any_element [] elements = false
any_element (num ∷ slice) elements =
    let rest = any_element slice elements in if is_element (lookup num elements) then true else rest

-- `HasCommonElement`, of numbers that are not negative.
unfoldable pub has_common_element : List ℕ → List ℕ → Bool
unfolding element_map any_element
has_common_element slice1 slice2 = any_element slice2 (element_map slice1 [])
