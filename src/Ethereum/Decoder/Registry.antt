-- ===== src/Ethereum/Decoder/Registry.antt =====
-- Which event a signature stands for once it is registered.
use event_pool.Prelude.{
  ◌≡◌, ap, ◌≢◌, inl, inr, List, [], ◌∷◌, some, arith, text_eq, text_eq_iff, Bool-cases,
  Option-cases, lookup, insert, lookup-insert, lookup-insert_self, text_Eq,
}
use event_pool.Text.{Text}
use event_pool.Ethereum.Decoder.{
  AbiEvent, AbiLibrary, Decoder, Registration, registered, find_event, is_empty, register_event,
}

find_event-id :
    (signature : Text) (es : List AbiEvent) (event : AbiEvent)
    → find_event signature es ≡ some event
    → event.id ≡ signature
unfolding find_event
find_event-id signature [] event h = cc
find_event-id signature (e ∷ es) event h = elim (Bool-cases (text_eq signature e.id)) [
  | inl same ↦
      let found : some e ≡ some event = rw (same, find_event) at h in
      cc ((text_eq_iff signature e.id).0 same, found)
  | inr other ↦ find_event-id signature es event (rw (other, find_event) at h)
]

abbrev decoder_or : Decoder → Registration → Decoder
decoder_or d (registered d') = d'
decoder_or d _ = d

module _ (lib : AbiLibrary) where
  -- A signature that was registered from an ABI text stands for an event of that text with this id and
  -- a name; the events of the other signatures stay.
  pub register_event-eq_registered :
      (signature event_abi : Text) (decoder decoder' : Decoder)
      → register_event lib signature event_abi decoder ≡ registered decoder'
      → (events : List AbiEvent) × (event : AbiEvent) × (lib.parse_abi event_abi ≡ some events)
        × (find_event signature events ≡ some event)
        × (event.id ≡ signature)
        × (event.name ≢ [])
        × (lookup signature decoder' ≡ some event)
        × ((s : Text) → s ≢ signature → lookup s decoder' ≡ lookup s decoder)
  unfolding register_event
  register_event-eq_registered signature event_abi decoder decoder' h =
      elim (Option-cases (lib.parse_abi event_abi)) [
        | inl e ↦ cc (rw (e, register_event) at h)
        | inr ([], e) ↦ cc (rw (e, register_event) at h)
        | inr ((x ∷ xs), e) ↦ elim (Option-cases (find_event signature (x ∷ xs))) [
          | inl f ↦ cc (rw (e, f, register_event) at h)
          | inr (event, f) ↦ elim (Bool-cases (is_empty event.name)) [
            | inl g ↦ cc (rw (e, f, g, register_event) at h)
            | inr g ↦
                let now : insert signature event decoder ≡ decoder' =
                  ap (decoder_or decoder) (rw (e, f, g, register_event) at h) in
                (
                  (x ∷ xs),
                  event,
                  e,
                  f,
                  find_event-id signature (x ∷ xs) event f,
                  (λ q. cc (rw q at g)),
                  rw now at (lookup-insert_self signature event decoder),
                  λ s other. rw now at (kept s other event),
                )
          ]
        ]
      ]
    where
      kept :
          (s : Text)
          → s ≢ signature
          → (event : AbiEvent) → lookup s (insert signature event decoder) ≡ lookup s decoder
      kept s other event =
          ground (arith, lookup-insert signature s event decoder, text_eq_iff signature s)
