-- ===== src/Api/Contracts/Registering.antt =====
-- What a registration writes, whichever way it ends.
use mathlib.Core.List.{append_assoc, append-nil}
use event_pool.Prelude.{
  ℕ, suc, ◌≤◌, ◌<◌, ◌≡◌, refl, ap, sym, ◌∙◌, inl, inr, ◌⊎◌, List, [], ◌∷◌, ◌++◌, map, Bool, true,
  Option, none, some, arith, length, take, Bool-cases, Option-cases, nat_Eq,
}
use event_pool.Text.{Text}
use event_pool.Ethereum.Log.{Contract}
use event_pool.Ethereum.Decoder.{AbiLibrary}
use event_pool.Grpc.Http.{
  Response, bad_request, unauthorized, not_found, not_allowed, internal_error, answered,
}
use event_pool.Api.Contracts.{
  is_valid_address, RegisterRequest, ParsedEvent, parse_signatures, Store, RegisterEnv, contract_of,
  task_of, register_abi, register_one, after_one, register_all, register_contract,
}

-- The rows of the events whose ids are known.
abbrev pub rows_of : RegisterRequest → List ParsedEvent → List Text → List Contract
rows_of req (event ∷ events) (id ∷ ids) = contract_of req event id ∷ rows_of req events ids
rows_of req _ _ = []

-- The rows with these ids, and the tasks of the first m events, are what is new.
abbrev pub Adds : RegisterRequest → List ParsedEvent → List Text → ℕ → Store → Store → Type 0
Adds req events ids m s t =
    (t.contracts ≡ s.contracts ++ rows_of req events ids)
    × (t.tasks ≡ s.tasks ++ map (task_of req) (take m events))

-- What an answer tells of the tables.
abbrev pub Served :
    RegisterRequest → List ParsedEvent → List Text → Store → Response (List Text) × Store → Type 0
Served req events before s (answered ids, t) =
    (new : List Text) × (ids ≡ before ++ new)
    × (length new ≡ length events)
    × Adds req events new (length events) s t
Served req events before s (internal_error, t) =
    (new : List Text) × (m : ℕ) × (m ≤ length new)
    × (length new ≤ suc m)
    × (m < length events)
    × Adds req events new m s t
Served req events before s (_, t) = ⊥

behind {ℓ} :
    {A : Type ℓ} {xs' ys : List A} (xs zs : List A) (a : A)
    → xs' ≡ xs ++ a ∷ []
    → ys ≡ xs' ++ zs
    → ys ≡ xs ++ a ∷ zs
behind xs zs a e h = h ∙ (ap (λ l. l ++ zs) e ∙ append_assoc xs (a ∷ []) zs)

-- One event more in front.
Served-cons :
    (req : RegisterRequest) (event : ParsedEvent) (events : List ParsedEvent) (before : List Text)
    (id : Text) (s s' : Store) (r : Response (List Text) × Store)
    → s'.contracts ≡ s.contracts ++ contract_of req event id ∷ []
    → s'.tasks ≡ s.tasks ++ task_of req event ∷ []
    → Served req events (before ++ id ∷ []) s' r
    → Served req (event ∷ events) before s r
Served-cons req event events before id s s' (answered ids, t) c k (new, e, len, (rows, tasks)) =
    (id ∷ new, behind before new id refl e, ap suc len, (behind _ _ _ c rows, behind _ _ _ k tasks))
Served-cons req event events before id s s' (internal_error, t) c k
      (new, m, low, high, short, (rows, tasks)) =
    (
      id ∷ new,
      suc m,
      omega arith,
      omega arith,
      omega arith,
      (behind _ _ _ c rows, behind _ _ _ k tasks),
    )
Served-cons req event events before id s s' (bad_request, t) c k v = v
Served-cons req event events before id s s' (unauthorized, t) c k v = v
Served-cons req event events before id s s' (not_found, t) c k v = v
Served-cons req event events before id s s' (not_allowed, t) c k v = v

-- The round for one event: it fails, with or without its row, or leaves both.
abbrev One : RegisterRequest → ParsedEvent → Store → Option Text × Store → Type 0
One req event s (none, t) = (new : List Text) × (length new ≤ 1) × Adds req (event ∷ []) new 0 s t
One req event s (some id, t) =
    (t.contracts ≡ s.contracts ++ contract_of req event id ∷ [])
    × (t.tasks ≡ s.tasks ++ task_of req event ∷ [])

register_one-One :
    (lib : AbiLibrary) (req : RegisterRequest) (env : RegisterEnv) (event : ParsedEvent) (s : Store)
    → One req event s (register_one lib req env event s)
unfolding register_one
register_one-One lib req env event s = elim (Option-cases env.created) [
  | inl e ↦ rw (e, register_one) ([], omega arith, (sym (append-nil _), sym (append-nil _)))
  | inr (id, e) ↦ elim (Option-cases (register_abi lib req event s.decoders)) [
    | inl f ↦ rw (e, f, register_one) (id ∷ [], omega arith, (refl, sym (append-nil _)))
    | inr (decoders, f) ↦ elim (Bool-cases env.enqueue_fails) [
      | inl g ↦ rw (e, f, g, register_one) (id ∷ [], omega arith, (refl, sym (append-nil _)))
      | inr g ↦ rw (e, f, g, register_one) (refl, refl)
    ]
  ]
]

-- One row at most comes of the first event.
rows_of-short :
    (req : RegisterRequest) (event : ParsedEvent) (events : List ParsedEvent) (new : List Text)
    → length new ≤ 1
    → rows_of req (event ∷ []) new ≡ rows_of req (event ∷ events) new
rows_of-short req event events [] h = refl
rows_of-short req event [] (id ∷ []) h = refl
rows_of-short req event (e ∷ events) (id ∷ []) h = refl
rows_of-short req event events (id ∷ id' ∷ new) h = absurd (omega arith)

register_all-Served :
    (lib : AbiLibrary) (req : RegisterRequest) (env : ℕ → RegisterEnv) (i : ℕ)
    (events : List ParsedEvent) (before : List Text) (s : Store)
    → Served req events before s (register_all lib req env i events before s)
unfolding register_all
register_all-Served lib req env i [] before s =
    ([], sym (append-nil _), refl, (sym (append-nil _), sym (append-nil _)))
register_all-Served lib req env i (event ∷ events) before s =
    rest (λ ids' s'. register_all-Served lib req env (suc i) events ids' s')
      (register_one lib req (env i) event s) (register_one-One lib req (env i) event s)
  where
    rest :
        ((ids' : List Text) (s' : Store)
          → Served req events ids' s' (register_all lib req env (suc i) events ids' s'))
        → (r : Option Text × Store) → One req event s r
        → Served req
            (event ∷ events)
            before
            s
            (after_one r before λ ids' s'. register_all lib req env (suc i) events ids' s')
    rest ih (none, t) (new, short, (rows, tasks)) = (
      new,
      0,
      omega arith,
      short,
      omega arith,
      (rows ∙ ap (λ l. s.contracts ++ l) (rows_of-short req event events new short), tasks),
    )
    rest ih (some id, t) (rows, tasks) =
        Served-cons req event events before id s t _ rows tasks (ih (before ++ id ∷ []) t)

-- The request's conditions, in the order of the handler.
abbrev pub Accepts :
    (Text → Text) → (Text → Bool) → (ℕ → Bool) → RegisterRequest → List ParsedEvent → Type 0
Accepts keccak_hex is_hex_address has_chain req events =
    (has_chain req.chain_id ≡ true)
    × (is_valid_address is_hex_address req.contract_addr ≡ true)
    × (parse_signatures keccak_hex req.event_signatures ≡ some events)

-- A request is refused with nothing written, or its chain, its address and all its signatures are
-- valid and each event in their order has its row, with the address in lower case, and its task: where
-- it is answered, one row and one task an event, whose ids are the answer's; after an internal error,
-- those of the first events only, with one row at most whose task is missing.
pub register_contract-Served :
    (lib : AbiLibrary) (keccak_hex : Text → Text) (is_hex_address : Text → Bool)
    (has_chain : ℕ → Bool) (env : ℕ → RegisterEnv) (body : Option RegisterRequest) (s : Store)
    → (register_contract lib keccak_hex is_hex_address has_chain env body s ≡ (bad_request, s))
      ⊎ ((req : RegisterRequest) × (events : List ParsedEvent) × (body ≡ some req)
          × Accepts keccak_hex is_hex_address has_chain req events
          × Served req events [] s
              (register_contract lib keccak_hex is_hex_address has_chain env body s))
unfolding register_contract
register_contract-Served lib keccak_hex is_hex_address has_chain env none s = inl refl
register_contract-Served lib keccak_hex is_hex_address has_chain env (some req) s =
    elim (Bool-cases (has_chain req.chain_id)) [
      | inr e ↦ inl (rw (e, register_contract) refl)
      | inl e ↦ elim (Bool-cases (is_valid_address is_hex_address req.contract_addr)) [
        | inr f ↦ inl (rw (e, f, register_contract) refl)
        | inl f ↦ elim (Option-cases (parse_signatures keccak_hex req.event_signatures)) [
          | inl g ↦ inl (rw (e, f, g, register_contract) refl)
          | inr (events, g) ↦ inr (
            req,
            events,
            refl,
            (e, f, g),
            rw (e, f, g, register_contract) (register_all-Served lib req env 0 events [] s),
          )
        ]
      ]
    ]
