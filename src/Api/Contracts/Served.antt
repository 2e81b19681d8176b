-- ===== src/Api/Contracts/Served.antt =====
-- The tasks of a registration, as the worker meets them.
use event_pool.Prelude.{
  ℕ, zero, suc, ◌≤◌, ◌≡◌, refl, sym, ◌≢◌, inl, inr, List, [], ◌∷◌, ◌++◌, map, Bool, true, Option,
  none, some, arith, length, take, All, All-append, Option-cases, subst,
}
use event_pool.Text.{Text, to_lower}
use event_pool.Ethereum.Log.{Contract}
use event_pool.Ethereum.Decoder.{AbiLibrary}
use event_pool.Grpc.Http.{
  Response, bad_request, unauthorized, not_found, not_allowed, internal_error, answered,
}
use event_pool.Monitor.Threads.{Thread}
use event_pool.Worker.{BackfillPayload, reached, begin_backfill}
use event_pool.Api.Contracts.{
  RegisterRequest, ParsedEvent, Store, RegisterEnv, contract_of, task_of, register_contract,
}
use event_pool.Api.Contracts.Registering.{rows_of, Adds, Served, register_contract-Served}

All-append_right {ℓ κ} :
    {A : Type ℓ} (Q : A → Type κ) (xs ys : List A) → All Q (xs ++ ys) → All Q ys
All-append_right Q [] ys h = h
All-append_right Q (x ∷ xs) ys h = All-append_right Q xs ys h.1

module _ (has_client : ℕ → Bool) (find_contract : ℕ → Text → Text → Option Contract)
    (has_monitor : Bool) (ctx : ℕ) where
  -- The search finds the row.
  abbrev pub IsFound : Contract → Type 0
  IsFound c = find_contract c.chain_id c.address c.event_signature ≢ none

  -- If the worker has a client for the task's chain, the task gets as far as the monitor.
  abbrev pub HasContract : BackfillPayload → Type 0
  HasContract p =
      has_client p.chain_id ≡ true
      → (t : Thread) × (begin_backfill (some p) has_client find_contract has_monitor ctx
          ≡ reached t)

  task-HasContract :
      (req : RegisterRequest) (event : ParsedEvent) (id : Text)
      → IsFound (contract_of req event id)
      → HasContract (task_of req event)
  unfolding begin_backfill
  task-HasContract req event id h client =
      elim (Option-cases
        (find_contract req.chain_id (to_lower req.contract_addr) event.event_sig)) [
          | inl f ↦ absurd (h f)
          | inr (contract, f) ↦ rw (client, f, begin_backfill) (_, refl)
        ]

  tasks-HasContract :
      (req : RegisterRequest) (events : List ParsedEvent) (ids : List Text) (m : ℕ)
      → m ≤ length ids
      → All IsFound (rows_of req events ids)
      → All HasContract (map (task_of req) (take m events))
  tasks-HasContract req events ids zero h v = tt
  tasks-HasContract req [] ids (suc m) h v = tt
  tasks-HasContract req (event ∷ events) [] (suc m) h v = absurd (omega arith)
  tasks-HasContract req (event ∷ events) (id ∷ ids) (suc m) h v =
      (task-HasContract req event id v.0, tasks-HasContract req events ids m (omega arith) v.1)

  Adds-HasContract :
      (req : RegisterRequest) (events : List ParsedEvent) (ids : List Text) (m : ℕ) (s t : Store)
      → m ≤ length ids
      → Adds req events ids m s t
      → All IsFound t.contracts
      → All HasContract s.tasks
      → All HasContract t.tasks
  Adds-HasContract req events ids m s t h (rows, tasks) found old =
      subst (All HasContract) (sym tasks) (
        All-append HasContract s.tasks _ old (
          tasks-HasContract req events ids m h
            (All-append_right IsFound s.contracts _ (subst (All IsFound) rows found))))

  Served-HasContract :
      (req : RegisterRequest) (events : List ParsedEvent) (s : Store)
      (r : Response (List Text) × Store)
      → Served req events [] s r
      → All IsFound r.1.contracts
      → All HasContract s.tasks
      → All HasContract r.1.tasks
  Served-HasContract req events s (answered ids, t) (new, e, len, adds) found old =
      Adds-HasContract req events new (length events) s t (omega (arith, len)) adds found old
  Served-HasContract req events s (internal_error, t) (new, m, low, high, short, adds) found old =
      Adds-HasContract req events new m s t low adds found old
  Served-HasContract req events s (bad_request, t) v found old = absurd v
  Served-HasContract req events s (unauthorized, t) v found old = absurd v
  Served-HasContract req events s (not_found, t) v found old = absurd v
  Served-HasContract req events s (not_allowed, t) v found old = absurd v

  -- Where the search of the worker finds every row that is in the table after a registration, and where
  -- every task that was in the queue before it gets as far as the monitor on a worker with a client for
  -- its chain, every task that is in the queue after it does so too, whichever way the registration
  -- ended.
  pub register_contract-begins :
      (lib : AbiLibrary) (keccak_hex : Text → Text) (is_hex_address : Text → Bool)
      (has_chain : ℕ → Bool) (env : ℕ → RegisterEnv) (body : Option RegisterRequest) (s : Store)
      → All IsFound
          (register_contract lib keccak_hex is_hex_address has_chain env body s).1.contracts
      → All HasContract s.tasks
      → All HasContract
          (register_contract lib keccak_hex is_hex_address has_chain env body s).1.tasks
  register_contract-begins lib keccak_hex is_hex_address has_chain env body s found old =
      elim (register_contract-Served lib keccak_hex is_hex_address has_chain env body s) [
        | inl same ↦ subst (λ r. All HasContract r.1.tasks) (sym same) old
        | inr (req, events, e, ok, served) ↦
            Served-HasContract req events s
              (register_contract lib keccak_hex is_hex_address has_chain env body s) served found
              old
      ]
