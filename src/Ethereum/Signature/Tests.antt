-- ===== src/Ethereum/Signature/Tests.antt =====
-- Signatures as users write them.
use event_pool.Prelude.{◌≡◌, refl, ◌++◌, true, false, none, some}
use event_pool.Text.{Text, bytes, contains, has_suffix, remove_spaces}
use event_pool.Ethereum.Signature.{
  open_paren, close_paren, indexed, canonical_sig, parse_event_signature, extract_event_name,
}

-- A hash that keeps its input.
abbrev shown : Text → Text
shown t = bytes "0x" ++ t

abbrev transfer : Text
transfer = bytes "Transfer(address from, uint256 value)"

drops_indexed :
    canonical_sig (bytes "Transfer(addressindexedfrom,uint256)")
    ≡ some (bytes "Transfer(address,uint256)")
unfolding canonical_sig
drops_indexed = refl

bad : parse_event_signature shown (bytes "Transfer") ≡ none
unfolding parse_event_signature
bad = refl

opens : contains (remove_spaces transfer) open_paren ≡ true
unfolding contains remove_spaces
opens = refl

ends : has_suffix (remove_spaces transfer) close_paren ≡ true
unfolding has_suffix remove_spaces
ends = refl

plain : contains (remove_spaces transfer) indexed ≡ false
unfolding contains remove_spaces
plain = refl

named : extract_event_name (bytes "Burn(uint256)") ≡ some (bytes "Burn")
unfolding extract_event_name
named = refl
