-- ===== src/Text.antt =====
-- The functions of Go's package strings that the program calls, over byte strings.
-- A separator is never empty in the program, and `to_lower` is that of ASCII text.
pub mod Laws
pub mod Suffixes
pub mod Decimal
pub mod Space
use Prim.Native.Char.{code}
use Prim.Native.String.{String}
use event_pool.Prelude.{
  ℕ, zero, suc, ◌+◌, ◌-◌, List, [], ◌∷◌, ◌++◌, map, Bool, true, false, not, ◌&&◌, ◌||◌, Option,
  none, some, if◌then◌else◌, leb, nat_eq, text_eq, length, take, drop,
}

abbrev pub Text : Type 0
Text = List ℕ

-- The bytes of a literal.
abbrev pub bytes : String → Text
bytes String.[] = []
bytes (String.◌∷◌ c s) = code c ∷ bytes s

unfoldable pub has_prefix : Text → Text → Bool
has_prefix s [] = true
has_prefix [] (y ∷ ys) = false
has_prefix (x ∷ xs) (y ∷ ys) = nat_eq x y && has_prefix xs ys

unfoldable pub trim_prefix : Text → Text → Text
unfolding has_prefix
trim_prefix s p = if has_prefix s p then drop (length p) s else s

unfoldable pub has_suffix : Text → Text → Bool
unfolding text_eq
has_suffix s p = leb (length p) (length s) && text_eq (drop (length s - length p) s) p

unfoldable pub trim_suffix : Text → Text → Text
unfolding has_suffix
trim_suffix s p = if has_suffix s p then take (length s - length p) s else s

unfoldable pub contains : Text → Text → Bool
unfolding has_prefix
contains [] sep = has_prefix [] sep
contains (x ∷ xs) sep = has_prefix (x ∷ xs) sep || contains xs sep

-- The text before and the text behind the first separator.
unfoldable pub cut : Text → Text → Option (Text × Text)
unfolding has_prefix
cut [] sep = none
cut (x ∷ xs) sep =
    let rest = cut xs sep in
    if has_prefix (x ∷ xs) sep
    then some ([], drop (length sep) (x ∷ xs))
    else elim rest [ none ↦ none | some (a, b) ↦ some (x ∷ a, b) ]

-- `strings.Index`: how many bytes stand before the first separator.
unfoldable pub index : Text → Text → Option ℕ
unfolding cut
index s sep = elim (cut s sep) [ none ↦ none | some (a, b) ↦ some (length a) ]

-- `strings.SplitN(s, sep, 2)`
unfoldable pub split_two : Text → Text → List Text
unfolding cut
split_two s sep = elim (cut s sep) [ none ↦ s ∷ [] | some (a, b) ↦ a ∷ b ∷ [] ]

unfoldable pub split_loop : ℕ → Text → Text → List Text
unfolding cut
split_loop zero s sep = s ∷ []
split_loop (suc fuel) s sep = elim (cut s sep) [
  | none ↦ s ∷ []
  | some (a, b) ↦ a ∷ split_loop fuel b sep
]

-- `strings.Split`: each round takes a separator off, so the length is fuel enough.
unfoldable pub split : Text → Text → List Text
unfolding split_loop
split s sep = split_loop (length s) s sep

unfoldable pub join : List Text → Text → Text
join [] sep = []
join (s ∷ []) sep = s
join (s ∷ t ∷ ts) sep = s ++ (sep ++ join (t ∷ ts) sep)

-- `strings.ReplaceAll(s, " ", "")`
unfoldable pub remove_spaces : Text → Text
remove_spaces [] = []
remove_spaces (x ∷ xs) = if nat_eq x b' ' then remove_spaces xs else x ∷ remove_spaces xs

unfoldable pub to_lower_byte : ℕ → ℕ
to_lower_byte c = if leb b'A' c && leb c b'Z' then c + 32 else c

unfoldable pub to_lower : Text → Text
unfolding to_lower_byte
to_lower s = map to_lower_byte s
