-- ===== src/Ethereum/Decoder.antt =====
-- pkg/ethereum/event_decoder.go: events by their signature, and a log as JSON text or as a map.
-- go-ethereum's ABI and hash types and the JSON printer are parameters. `DecodeEvent` and
-- `DecodeEventToMap` repeat the same decoding, which is one definition here; log lines are left out.
pub mod Samples
pub mod Total
pub mod Indexed
pub mod Registry
mod Tests
use event_pool.Prelude.{
  ℕ, ◌+◌, List, [], ◌∷◌, ◌++◌, Bool, true, false, not, Option, none, some, if◌then◌else◌, ltb,
  length, get_elem?, text_eq, Dict, lookup, insert, text_Eq,
}
use event_pool.Text.{Text, bytes}

-- `abi.AddressTy`, `BoolTy`, `IntTy`, `UintTy`, and every other one.
pub data Kind : Type 0 where
  address_ty bool_ty int_ty uint_ty other_ty : Kind

-- The fields of `abi.Argument` that are read.
pub record Argument : Type 0 where
  pub name : Text
  pub indexed : Bool
  pub kind : Kind

-- `abi.Event`, with `ID.String()` as its id.
pub record AbiEvent : Type 0 where
  pub name : Text
  pub id : Text
  pub inputs : List Argument

-- A result, or an error with its text.
pub data Answer (A : Type 0) : Type 0 where
  fails : Text → Answer A
  answers : A → Answer A

-- What `UnpackIntoMap` puts in a map, by the two types that the decoder asks for.
pub data Unpacked (Big Address Other : Type 0) : Type 0 where
  big : Big → Unpacked Big Address Other
  found_address : Address → Unpacked Big Address Other
  anything : Other → Unpacked Big Address Other

pub data Value (Address Other : Type 0) : Type 0 where
  text : Text → Value Address Other
  address : Address → Value Address Other
  flag : Bool → Value Address Other
  other : Other → Value Address Other

-- go-ethereum and encoding/json. `abi.JSON` answers its events, and `UnpackIntoMap` its entries, in
-- the order in which Go happens to range over the map.
pub record AbiLibrary : Type 1 where
  pub Big : Type 0
  pub Address : Type 0
  pub Hash : Type 0
  pub Other : Type 0
  pub big_string : Big → Text
  pub is_zero : Big → Bool
  pub address_hex : Address → Text
  pub hash_hex : Hash → Text
  pub hash_big : Hash → Big
  pub hash_address : Hash → Address
  pub bytes_to_hex : Text → Text
  pub parse_abi : Text → Option (List AbiEvent)
  pub unpack : AbiEvent → Text → Answer (List (Text × Unpacked Big Address Other))
  pub marshal : Dict Text (Value Address Other) → Answer Text

abbrev pub Decoder : Type 0
Decoder = Dict Text AbiEvent

pub data Registration : Type 0 where
  bad_abi no_events not_in_abi : Registration
  registered : Decoder → Registration

abbrev pub is_empty : Text → Bool
is_empty [] = true
is_empty (c ∷ cs) = false

-- The loop that stops at the event of the signature.
unfoldable pub find_event : Text → List AbiEvent → Option AbiEvent
unfolding text_eq
find_event signature [] = none
find_event signature (e ∷ es) = if text_eq signature e.id then some e else find_event signature es

unfoldable pub indexed_params : List Argument → List Argument
indexed_params [] = []
indexed_params (p ∷ ps) = let rest = indexed_params ps in if p.indexed then p ∷ rest else rest

module _ (lib : AbiLibrary) where
  open lib use {
    Big, Address, Hash, Other, big_string, is_zero, address_hex, hash_hex, hash_big, hash_address,
    bytes_to_hex, parse_abi, unpack, marshal,
  }

  -- An event that is not found is the zero event, whose name is empty.
  unfoldable pub register_event : Text → Text → Decoder → Registration
  unfolding find_event
  register_event signature event_abi decoder = elim (parse_abi event_abi) [
    | none ↦ bad_abi
    | some [] ↦ no_events
    | some (e ∷ es) ↦ elim (find_event signature (e ∷ es)) [
      | none ↦ not_in_abi
      | some event ↦
          if is_empty event.name then not_in_abi else registered (insert signature event decoder)
    ]
  ]

  abbrev pub Fields : Type 0
  Fields = Dict Text (Value Address Other)

  abbrev readable : Unpacked Big Address Other → Value Address Other
  readable (big n) = text (big_string n)
  readable (found_address a) = text (address_hex a)
  readable (anything o) = other o

  unfoldable pub add_unpacked : List (Text × Unpacked Big Address Other) → Fields → Fields
  add_unpacked [] fields = fields
  add_unpacked ((name, value) ∷ rest) fields =
      add_unpacked rest (insert name (readable value) fields)

  -- The switch on the type of an indexed parameter.
  abbrev pub topic_value : Kind → Hash → Value Address Other
  topic_value address_ty topic = address (hash_address topic)
  topic_value bool_ty topic = flag (not (is_zero (hash_big topic)))
  topic_value int_ty topic = text (big_string (hash_big topic))
  topic_value uint_ty topic = text (big_string (hash_big topic))
  topic_value other_ty topic = text (hash_hex topic)

  -- The loop over the indexed parameters, from its index on; it breaks where the topics end.
  unfoldable pub decode_topics : List Argument → ℕ → List Hash → Fields → Fields
  decode_topics [] i topics fields = fields
  decode_topics (p ∷ ps) i topics fields = elim (get_elem? topics (i + 1)) [
    | none ↦ fields
    | some topic ↦ decode_topics ps (i + 1) topics (insert p.name (topic_value p.kind topic) fields)
  ]

  unfoldable pub decode_data : AbiEvent → Text → Answer Fields
  unfolding add_unpacked
  decode_data event payload =
      if ltb 0 (length payload)
      then elim (unpack event payload) [
        | fails e ↦ fails e
        | answers values ↦ answers (add_unpacked values [])
      ]
      else answers []

  unfoldable pub decode_fields : AbiEvent → Text → List Hash → Answer Fields
  unfolding decode_data decode_topics indexed_params
  decode_fields event payload topics = elim (decode_data event payload) [
    | fails e ↦ fails e
    | answers fields ↦
        if ltb 1 (length topics)
        then answers (decode_topics (indexed_params event.inputs) 0 topics fields)
        else answers fields
  ]

  abbrev pub raw : Text → Text
  raw payload = bytes "{\"raw\": \"" ++ (bytes_to_hex payload ++ bytes "\"}")

  abbrev pub raw_error : Text → Text → Text
  raw_error payload e =
      bytes "{\"raw\": \""
      ++ (bytes_to_hex payload ++ (bytes "\", \"error\": \"" ++ (e ++ bytes "\"}")))

  -- `DecodeEvent`; `none` is an error.
  unfoldable pub decode_event : Decoder → Text → Text → List Hash → Option Text
  unfolding decode_fields
  decode_event decoder signature payload topics = elim (lookup signature decoder) [
    | none ↦ some (raw payload)
    | some event ↦ elim (decode_fields event payload topics) [
      | fails e ↦ some (raw_error payload e)
      | answers fields ↦ elim (marshal fields) [
        | fails e ↦ some (raw_error payload e)
        | answers json ↦ some json
      ]
    ]
  ]

  -- `DecodeEventToMap`; `none` is an error.
  unfoldable pub decode_event_to_map : Decoder → Text → Text → List Hash → Option Fields
  unfolding decode_fields
  decode_event_to_map decoder signature payload topics = elim (lookup signature decoder) [
    | none ↦ some ((bytes "raw", text (bytes_to_hex payload)) ∷ [])
    | some event ↦ elim (decode_fields event payload topics) [
      | fails e ↦ some ((bytes "raw", text (bytes_to_hex payload)) ∷ (bytes "error", text e) ∷ [])
      | answers fields ↦ some fields
    ]
  ]
