-- ===== src/Ethereum/Decoder/Total.antt =====
-- The decoder's answers to any log.
use event_pool.Prelude.{◌≡◌, refl, List, [], ◌∷◌, Option, none, some, lookup, text_Eq}
use event_pool.Text.{Text, bytes}
use event_pool.Ethereum.Decoder.{
  AbiEvent, Answer, fails, answers, AbiLibrary, Decoder, Fields, raw, raw_error, text,
  decode_fields, decode_event, decode_event_to_map,
}

module _ (lib : AbiLibrary) (decoder : Decoder) (signature payload : Text)
    (topics : List lib.Hash) where
  -- Neither function returns an error: the text and the map are made for every log, so that what the
  -- callers do with an error is never done.
  pub decode_event-answers :
      ((json : Text) × (decode_event lib decoder signature payload topics ≡ some json))
      × ((fields : Fields lib) × (decode_event_to_map lib decoder signature payload topics
            ≡ some fields))
  unfolding decode_event decode_event_to_map
  decode_event-answers = (as_text (lookup signature decoder), as_map (lookup signature decoder))
    where
      printed :
          (m : Answer Text)
          → (json : Text) × ◌≡◌ {A = Option Text}
              (elim m [ fails e ↦ some (raw_error lib payload e) | answers json ↦ some json ])
              (some json)
      printed (fails e) = (_, refl)
      printed (answers json) = (json, refl)

      as_text :
          (known : Option AbiEvent)
          → (json : Text) × ◌≡◌ {A = Option Text}
              (elim known [
                | none ↦ some (raw lib payload)
                | some event ↦ elim (decode_fields lib event payload topics) [
                  | fails e ↦ some (raw_error lib payload e)
                  | answers fields ↦ elim (lib.marshal fields) [
                    | fails e ↦ some (raw_error lib payload e)
                    | answers json ↦ some json
                  ]
                ]
              ])
              (some json)
      as_text none = (_, refl)
      as_text (some event) = by_fields (decode_fields lib event payload topics)
        where
          by_fields :
              (a : Answer (Fields lib))
              → (json : Text) × ◌≡◌ {A = Option Text}
                  (elim a [
                    | fails e ↦ some (raw_error lib payload e)
                    | answers fields ↦ elim (lib.marshal fields) [
                      | fails e ↦ some (raw_error lib payload e)
                      | answers json ↦ some json
                    ]
                  ])
                  (some json)
          by_fields (fails e) = (_, refl)
          by_fields (answers fields) = printed (lib.marshal fields)

      as_map :
          (known : Option AbiEvent)
          → (fields : Fields lib) × ◌≡◌ {A = Option (Fields lib)}
              (elim known [
                | none ↦ some ((bytes "raw", text (lib.bytes_to_hex payload)) ∷ [])
                | some event ↦ elim (decode_fields lib event payload topics) [
                  | fails e ↦ some (
                      (bytes "raw", text (lib.bytes_to_hex payload)) ∷ (bytes "error", text e) ∷ [])
                  | answers fields ↦ some fields
                ]
              ])
              (some fields)
      as_map none = (_, refl)
      as_map (some event) = by_fields (decode_fields lib event payload topics)
        where
          by_fields :
              (a : Answer (Fields lib))
              → (fields : Fields lib) × ◌≡◌ {A = Option (Fields lib)}
                  (elim a [
                    | fails e ↦ some (
                        (bytes "raw", text (lib.bytes_to_hex payload))
                        ∷ (bytes "error", text e)
                        ∷ [])
                    | answers fields ↦ some fields
                  ])
                  (some fields)
          by_fields (fails e) = (_, refl)
          by_fields (answers fields) = (fields, refl)
