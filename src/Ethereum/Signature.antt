-- ===== src/Ethereum/Signature.antt =====
-- pkg/ethereum/utils.go: event signatures as a user writes them, `Transfer(address,uint256)`.
-- Keccak-256 with its hexadecimal print is a parameter; log lines are left out.
pub mod Laws
mod Tests
use event_pool.Prelude.{
  ℕ, zero, suc, List, [], ◌∷◌, ◌++◌, map, Bool, not, ◌&&◌, ◌||◌, Option, none, some, if◌then◌else◌,
  take,
}
use event_pool.Text.{
  Text, bytes, has_prefix, has_suffix, trim_suffix, contains, cut, index, split_two, split, join,
  remove_spaces,
}

abbrev pub open_paren : Text
open_paren = bytes "("

abbrev pub close_paren : Text
close_paren = bytes ")"

abbrev pub comma : Text
comma = bytes ","

abbrev pub space : Text
space = bytes " "

abbrev pub indexed : Text
indexed = bytes "indexed"

-- `strings.Split(s, sep)[0]`; Split never returns an empty list.
abbrev head_or : List Text → Text → Text
head_or [] d = d
head_or (s ∷ ss) d = s

-- The body of the loop over the parameters.
unfoldable pub strip_param : Text → Text
unfolding contains split
strip_param param =
    if contains param indexed
    then (let type_part = head_or (split param indexed) param in
        if contains type_part space then head_or (split type_part space) type_part else type_part)
    else if contains param space
    then head_or (split param space) param
    else param

-- What is hashed, from the text without its spaces.
unfoldable pub canonical_sig : Text → Option Text
unfolding split_two has_suffix trim_suffix strip_param join
canonical_sig sig =
    if not (contains sig open_paren) || not (has_suffix sig close_paren)
    then none
    else elim (split_two sig open_paren) [
      | event_name ∷ rest ∷ [] ↦
          let param_list = map strip_param (split (trim_suffix rest close_paren) comma) in
          some (event_name ++ (open_paren ++ (join param_list comma ++ close_paren)))
      | _ ↦ none
    ]

-- `ParseEventSignature`; its one error, "invalid event signature format", is `none`.
unfoldable pub parse_event_signature : (Text → Text) → Text → Option Text
unfolding canonical_sig remove_spaces
parse_event_signature keccak_hex readable_sig = elim (canonical_sig (remove_spaces readable_sig)) [
  | none ↦ none
  | some sig ↦ some (keccak_hex sig)
]

-- `i <= 0`, where Index returns -1 for a text without the parenthesis.
abbrev name_end : Option ℕ → Option ℕ
name_end none = none
name_end (some zero) = none
name_end (some (suc i)) = some (suc i)

unfoldable pub extract_event_name : Text → Option Text
unfolding index has_suffix
extract_event_name readable_sig = elim (name_end (index readable_sig open_paren)) [
  | none ↦ none
  | some i ↦ if not (has_suffix readable_sig close_paren) then none else some (take i readable_sig)
]
