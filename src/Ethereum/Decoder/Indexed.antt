-- ===== src/Ethereum/Decoder/Indexed.antt =====
-- What the decoder makes of a log of an event that was registered.
use event_pool.Prelude.{
  ℕ, zero, suc, ◌+◌, ◌≤◌, ◌<◌, ◌≡◌, refl, subst, ◌∙◌, ◌≢◌, inl, inr, List, [], ◌∷◌, true, Option,
  some, arith, ltb, length, get_elem?, All, text_eq_iff, Option-cases, lookup, insert,
  lookup-insert, lookup-insert_self, text_Eq,
}
use event_pool.Text.{Text}
use event_pool.Ethereum.Decoder.{
  Argument, AbiEvent, Answer, fails, answers, AbiLibrary, Decoder, indexed_params, Fields,
  topic_value, decode_topics, decode_fields, decode_data, raw_error, decode_event,
  decode_event_to_map,
}

-- The names of an event's parameters differ.
abbrev pub AreNamed : List Argument → Type 0
AreNamed [] = Unit
AreNamed (p ∷ ps) = All (λ q. q.name ≢ p.name) ps × AreNamed ps

get_elem?-below :
    {A : Type 0} (xs : List A) (n m : ℕ) (a : A)
    → n ≤ m
    → get_elem? xs m ≡ some a
    → (b : A) × (get_elem? xs n ≡ some b)
get_elem?-below [] n m a h e = cc
get_elem?-below (x ∷ xs) zero m a h e = (x, refl)
get_elem?-below (x ∷ xs) (suc n) zero a h e = absurd (omega arith)
get_elem?-below (x ∷ xs) (suc n) (suc m) a h e = get_elem?-below xs n m a (omega arith) e

get_elem?-length :
    {A : Type 0} (xs : List A) (n : ℕ) (a : A) → get_elem? xs n ≡ some a → n < length xs
get_elem?-length [] n a e = cc
get_elem?-length (x ∷ xs) zero a e = omega arith
get_elem?-length (x ∷ xs) (suc n) a e = omega (arith, get_elem?-length xs n a e)

at_first : (i : ℕ) → i + 1 + 0 ≡ i + 1
at_first i = omega arith

module _ (lib : AbiLibrary) where
  abbrev pub printed : Text → Answer Text → Text
  printed payload (fails e) = raw_error lib payload e
  printed payload (answers json) = json

  -- The loop leaves the other names alone.
  decode_topics-other :
      (ps : List Argument) (i : ℕ) (topics : List lib.Hash) (fields : Fields lib) (name : Text)
      → All (λ q. q.name ≢ name) ps
      → lookup name (decode_topics lib ps i topics fields) ≡ lookup name fields
  unfolding decode_topics
  decode_topics-other [] i topics fields name h = refl
  decode_topics-other (p ∷ ps) i topics fields name h =
      elim (Option-cases (get_elem? topics (i + 1))) [
        | inl e ↦ rw (e, decode_topics)
        | inr (topic, e) ↦
            let value = topic_value lib p.kind topic in
            rw (e, decode_topics)
              (decode_topics-other ps (i + 1) topics (insert p.name value fields) name h.1
                ∙ ground
                    (arith, lookup-insert p.name name value fields, text_eq_iff p.name name, h.0))
      ]

  decode_topics-lookup :
      (ps : List Argument) (i k : ℕ) (topics : List lib.Hash) (fields : Fields lib) (p : Argument)
      (topic : lib.Hash)
      → AreNamed ps
      → get_elem? ps k ≡ some p
      → get_elem? topics (i + 1 + k) ≡ some topic
      → lookup p.name (decode_topics lib ps i topics fields) ≡ some (topic_value lib p.kind topic)
  unfolding decode_topics
  decode_topics-lookup [] i k topics fields p topic named h e = cc
  decode_topics-lookup (q ∷ ps) i zero topics fields p topic named h e =
      let same : q ≡ p = cc in
      let now : get_elem? topics (i + 1) ≡ some topic = rw (at_first i) at e in
      subst
        (λ r.
          lookup r.name (decode_topics lib (q ∷ ps) i topics fields)
          ≡ some (topic_value lib r.kind topic))
        same
        (rw (now, decode_topics)
          (decode_topics-other ps (i + 1) topics
              (insert q.name (topic_value lib q.kind topic) fields) q.name named.0
            ∙ lookup-insert_self q.name (topic_value lib q.kind topic) fields))
  decode_topics-lookup (q ∷ ps) i (suc k) topics fields p topic named h e =
      let (t, now) = get_elem?-below topics (i + 1) (i + 1 + suc k) topic (omega arith) e in
      let next : i + 1 + suc k ≡ i + 1 + 1 + k = omega arith in
      rw (now, decode_topics)
        (decode_topics-lookup ps (i + 1) k topics _ p topic named.1 h (rw next at e))

  -- The log of an event that was registered, whose data unpacks: the entry of each indexed parameter
  -- that has a topic is read from its topic, by its type, where the names of the indexed parameters
  -- differ. The map has it, and the text is the print of the same map, or of the printer's error.
  pub decode_event-indexed :
      (decoder : Decoder) (signature payload : Text) (topics : List lib.Hash) (event : AbiEvent)
      (start : Fields lib) (k : ℕ) (p : Argument) (topic : lib.Hash)
      → lookup signature decoder ≡ some event
      → decode_data lib event payload ≡ answers start
      → AreNamed (indexed_params event.inputs)
      → get_elem? (indexed_params event.inputs) k ≡ some p
      → get_elem? topics (k + 1) ≡ some topic
      → (fields : Fields lib) × (decode_event_to_map lib decoder signature payload topics
          ≡ some fields)
        × (lookup p.name fields ≡ some (topic_value lib p.kind topic))
        × (decode_event lib decoder signature payload topics
            ≡ some (printed payload (lib.marshal fields)))
  unfolding decode_event decode_event_to_map
  decode_event-indexed decoder signature payload topics event start k p topic known data_ok named h
        e =
      let more : ltb 1 (length topics) ≡ true =
        ground (arith, get_elem?-length topics (k + 1) topic e) in
      let swapped : k + 1 ≡ 0 + 1 + k = omega arith in
      let fields = decode_topics lib (indexed_params event.inputs) 0 topics start in
      let made : decode_fields lib event payload topics ≡ answers fields =
        rw (data_ok, more, decode_fields) in
      (
        fields,
        rw (known, made, decode_event_to_map),
        decode_topics-lookup (indexed_params event.inputs) 0 k topics start p topic named h
            (rw swapped at e),
        rw (known, made, decode_event) (prints fields (lib.marshal fields)),
      )
    where
      prints :
          (fields : Fields lib) (m : Answer Text)
          → ◌≡◌ {A = Option Text}
              (elim m [ fails x ↦ some (raw_error lib payload x) | answers json ↦ some json ])
              (some (printed payload m))
      prints fields (fails x) = refl
      prints fields (answers json) = refl
