-- ===== src/Ethereum/Decoder/Tests.antt =====
-- A log of an event that was registered, and one of an unknown event.
use event_pool.Prelude.{◌≡◌, refl, [], ◌∷◌, true, some, get_elem?, text_eq, lookup, insert, text_Eq}
use event_pool.Text.{bytes}
use event_pool.Text.Decimal.{print_nat}
use event_pool.Ethereum.Decoder.{
  Argument, answers, Decoder, registered, text, uint_ty, topic_value, indexed_params,
  register_event, decode_data, decode_event, decode_event_to_map, Fields,
}
use event_pool.Ethereum.Decoder.Samples.{sample_library, transfer_event}
use event_pool.Ethereum.Decoder.Indexed.{AreNamed, printed, decode_event-indexed}

abbrev decoder : Decoder
decoder = (bytes "0xdd", transfer_event) ∷ []

register : register_event sample_library (bytes "0xdd") (bytes "[]") [] ≡ registered decoder
unfolding register_event insert text_eq
register = refl

raw_text :
    decode_event sample_library decoder (bytes "0xee") (bytes "ff") []
    ≡ some (bytes "{\"raw\": \"ff\"}")
unfolding decode_event lookup text_eq
raw_text = refl

abbrev tag : Argument
tag = record { name = bytes "tag"; indexed = true; kind = uint_ty }

abbrev start : Fields sample_library
start = (bytes "value", text (print_nat 5)) ∷ []

known : lookup (bytes "0xdd") decoder ≡ some transfer_event
unfolding lookup text_eq
known = refl

unpacked : decode_data sample_library transfer_event (bytes "ff") ≡ answers start
unfolding decode_data insert
unpacked = refl

names : AreNamed (indexed_params transfer_event.inputs)
unfolding indexed_params
names = ((λ h. cc, tt), (tt, tt))

second : get_elem? (indexed_params transfer_event.inputs) 1 ≡ some tag
unfolding indexed_params
second = refl

decode_event-indexed_example :
    (fields : Fields sample_library) × (decode_event_to_map sample_library decoder
        (bytes "0xdd")
        (bytes "ff")
        (1 ∷ 2 ∷ 3 ∷ [])
      ≡ some fields)
    × (lookup (bytes "tag") fields ≡ some (topic_value sample_library uint_ty 3))
    × (decode_event sample_library decoder (bytes "0xdd") (bytes "ff") (1 ∷ 2 ∷ 3 ∷ [])
        ≡ some (printed sample_library (bytes "ff") (sample_library.marshal fields)))
decode_event-indexed_example =
    decode_event-indexed sample_library decoder (bytes "0xdd") (bytes "ff") (1 ∷ 2 ∷ 3 ∷ [])
      transfer_event start 1 tag 3 known unpacked names second refl
