-- ===== src/Helper/Tests.antt =====
-- Numbers on both sides of 2^63, and two lists.
use event_pool.Prelude.{◌≡◌, refl, [], ◌∷◌, true, false, Option, some, lookup, insert}
use event_pool.Text.{Text}
use event_pool.Hex.{encode_uint64}
use event_pool.Helper.{RawValue, string, has_common_element, element_map, any_element}

-- A decoder that knows one text.
abbrev decoded : Text → Option RawValue
decoded text = some (string (encode_uint64 9223372036854775808))

two_in_common : has_common_element (1 ∷ 2 ∷ []) (3 ∷ 2 ∷ []) ≡ true
unfolding has_common_element element_map any_element lookup insert
two_in_common = refl

none_in_common : has_common_element (1 ∷ 2 ∷ []) (3 ∷ []) ≡ false
unfolding has_common_element element_map any_element lookup insert
none_in_common = refl
