-- ===== src/Ethereum/Decoder/Samples.antt =====
-- A library of numbers and texts in which one ABI has one event, for the tests.
use event_pool.Prelude.{ℕ, [], ◌∷◌, true, false, some, nat_eq}
use event_pool.Text.{bytes}
use event_pool.Text.Decimal.{print_nat}
use event_pool.Ethereum.Decoder.{address_ty, uint_ty, AbiEvent, answers, big, AbiLibrary}

abbrev pub transfer_event : AbiEvent
transfer_event = record {
  name = bytes "Transfer";
  id = bytes "0xdd";
  inputs =
      record { name = bytes "from"; indexed = true; kind = address_ty }
      ∷ record { name = bytes "value"; indexed = false; kind = uint_ty }
      ∷ record { name = bytes "tag"; indexed = true; kind = uint_ty }
      ∷ [];
}

abbrev pub sample_library : AbiLibrary
sample_library = record {
  Big = ℕ;
  Address = ℕ;
  Hash = ℕ;
  Other = ℕ;
  big_string = print_nat;
  is_zero = nat_eq 0;
  address_hex = print_nat;
  hash_hex = print_nat;
  hash_big = λ h. h;
  hash_address = λ h. h;
  bytes_to_hex = λ payload. payload;
  parse_abi = λ event_abi. some (transfer_event ∷ []);
  unpack = λ event payload. answers ((bytes "value", big 5) ∷ []);
  marshal = λ fields. answers (bytes "{}");
}
