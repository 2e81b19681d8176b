-- ===== src/Api/Contracts/Listing.antt =====
-- Which contracts are listed for an address.
use event_pool.Prelude.{
  ◌≡◌, refl, ap, sym, ◌∙◌, ◌≢◌, inl, inr, List, [], ◌∷◌, ◌++◌, false, Option, none, some, arith,
  All, Bool-cases, Option-cases,
}
use event_pool.Text.{Text, to_lower}
use event_pool.Ethereum.Log.{Contract}
use event_pool.Grpc.Http.{Response, internal_error, answered, is_missing, parse_int}
use event_pool.Api.Contracts.{
  Filter, chain_is, address_is, signature_is, unless_missing, get_contracts,
}

abbrev pub Matches : Contract → Filter → Type 0
Matches c (chain_is chain) = (chain.negative ≡ false) × (c.chain_id ≡ chain.magnitude)
Matches c (address_is address) = c.address ≡ address
Matches c (signature_is event_sig) = c.event_signature ≡ event_sig

-- What a query answers: rows that match its conditions, from a table of lower-case addresses.
abbrev pub Answers : List Filter → Option (List Contract) → Type 0
Answers filters none = Unit
Answers filters (some cs) = All (λ c. (c.address ≡ to_lower c.address) × All (Matches c) filters) cs

-- The condition on the address rules out every row.
rows-none :
    (address : Text) (front : List Filter) (rest : List Filter) (cs : List Contract)
    → address ≢ to_lower address
    → Answers (front ++ address_is address ∷ rest) (some cs)
    → cs ≡ []
rows-none address front rest [] h v = refl
rows-none address front rest (c ∷ cs) h ((low, matches), v) =
    absurd (h (sym same ∙ (low ∙ ap to_lower same)))
  where
    at_address :
        (fs : List Filter) → All (Matches c) (fs ++ address_is address ∷ rest) → c.address ≡ address
    at_address [] m = m.0
    at_address (f ∷ fs) m = at_address fs m.1

    same : c.address ≡ address
    same = at_address front matches

abbrev listed : Response (List Contract) → List Contract
listed (answered cs) = cs
listed _ = []

answer-none :
    (address : Text) (front rest : List Filter) (r : Option (List Contract)) (cs : List Contract)
    → address ≢ to_lower address
    → Answers (front ++ address_is address ∷ rest) r
    → elim r [ none ↦ internal_error | some contracts ↦ answered contracts ] ≡ answered cs
    → cs ≡ []
answer-none address front rest none cs h v e = absurd (ground arith)
answer-none address front rest (some cs') cs h v e =
    sym (ap listed e) ∙ rows-none address front rest cs' h v

-- Where the database answers rows that match the conditions asked for, and holds the addresses in
-- lower case, a request for an address that is not in lower case is answered with no contract.
pub get_contracts_misses :
    (find_many : List Filter → Option (List Contract)) (chain_id address event_sig : Text)
    (cs : List Contract)
    → ((filters : List Filter) → Answers filters (find_many filters))
    → is_missing address ≡ false
    → address ≢ to_lower address
    → get_contracts find_many chain_id address event_sig ≡ answered cs
    → cs ≡ []
unfolding get_contracts
get_contracts_misses find_many chain_id address event_sig cs v present h e =
    elim (Bool-cases (is_missing chain_id)) [
      | inl f ↦
          let rest = unless_missing event_sig (signature_is event_sig) in
          answer-none address [] rest _ cs h (v (address_is address ∷ rest))
            (rw (f, present, get_contracts) at e)
      | inr f ↦ elim (Option-cases (parse_int chain_id)) [
        | inl g ↦ cc (rw (f, g, get_contracts) at e)
        | inr (chain, g) ↦
            let rest = unless_missing event_sig (signature_is event_sig) in
            answer-none address (chain_is chain ∷ []) rest _ cs h
              (v (chain_is chain ∷ address_is address ∷ rest))
              (rw (f, g, present, get_contracts) at e)
      ]
    ]
