-- ===== src/Helper/Progression/Turns.antt =====
-- Where the tracker panics, and where it does not.
use event_pool.Prelude.{
  ℕ, ◌≡◌, refl, List, [], ◌∷◌, Bool, true, false, none, some, if◌then◌else◌, arith, ◌-◌, inl, inr,
  Bool-cases, List-cases, went, panics,
}
use event_pool.Helper.Progression.{
  last_of, ChainEvent, Progression, ProgressionWrapper, new_progression_wrapper, start_progression,
  update_current_progression, update_highest_progression, stop_progression, run_update, Turn,
  begins, updates, raises, halts, take_turn, take_turns,
}

-- Starts and stops take turns, and what is between them is neither.
abbrev alternates : Bool → List Turn → Bool
alternates on [] = true
alternates on (begins n ∷ ts) = if on then false else alternates true ts
alternates on (updates event ∷ ts) = if on then alternates true ts else false
alternates on (raises n ∷ ts) = if on then alternates true ts else false
alternates on (halts ∷ ts) = if on then alternates false ts else false

-- A tracker of one loop, or of none.
abbrev IsAt : Bool → ProgressionWrapper → Type 0
IsAt true pw = (pw.loops ≡ 1) × (p : Progression) × (pw.progression ≡ some p)
IsAt false pw = pw.loops ≡ 0

run_update-IsAt :
    (event : ChainEvent) (pw : ProgressionWrapper)
    → IsAt true pw
    → (pw' : ProgressionWrapper) × (run_update event pw ≡ went pw') × IsAt true pw'
unfolding run_update update_current_progression
run_update-IsAt event pw (one, p, there) = elim (Bool-cases event.is_fork) [
  | inl fork ↦ (pw, ground arith, (one, p, there))
  | inr new ↦ elim (List-cases event.new_chain) [
    | inl empty ↦ (pw, ground arith, (one, p, there))
    | inr (n, ns, blocks_of) ↦ (
      record pw { progression = some (record p { current_block = last_of n ns }) },
      ground arith,
      (one, record p { current_block = last_of n ns }, refl),
    )
  ]
]

raise-IsAt :
    (n : ℕ) (pw : ProgressionWrapper)
    → IsAt true pw
    → (pw' : ProgressionWrapper) × (update_highest_progression n pw ≡ went pw') × IsAt true pw'
unfolding update_highest_progression
raise-IsAt n pw (one, p, there) = (
  record pw { progression = some (record p { highest_block = n }) },
  ground arith,
  (one, record p { highest_block = n }, refl),
)

stop-IsAt :
    (pw : ProgressionWrapper)
    → IsAt true pw
    → (pw' : ProgressionWrapper) × (stop_progression pw ≡ went pw') × IsAt false pw'
unfolding stop_progression
stop-IsAt pw (one, p, there) =
    (record pw { progression = none; loops = pw.loops - 1 }, ground arith, omega arith)

went_on :
    (t : Turn) (ts : List Turn) (pw pw' pw'' : ProgressionWrapper)
    → take_turn t pw ≡ went pw'
    → take_turns ts pw' ≡ went pw''
    → take_turns (t ∷ ts) pw ≡ went pw''
unfolding take_turns
went_on t ts pw pw' pw'' first rest = ground arith

-- Where starts and stops take turns, no call waits and none panics.
take_turns-alternates :
    (on : Bool) (ts : List Turn) (pw : ProgressionWrapper)
    → IsAt on pw
    → alternates on ts ≡ true
    → (pw' : ProgressionWrapper) × (take_turns ts pw ≡ went pw')
unfolding take_turns take_turn start_progression
take_turns-alternates on [] pw v h = (pw, refl)
take_turns-alternates true (begins n ∷ ts) pw v h = cc
take_turns-alternates false (begins n ∷ ts) pw v h =
    let begun = start_progression n pw in
    let (end, rest) = take_turns-alternates true ts begun (omega arith, _, refl) h in
    (end, went_on (begins n) ts pw begun end refl rest)
take_turns-alternates true (updates event ∷ ts) pw v h =
    let (pw', first, v') = run_update-IsAt event pw v in
    let (end, rest) = take_turns-alternates true ts pw' v' h in
    (end, went_on (updates event) ts pw pw' end first rest)
take_turns-alternates false (updates event ∷ ts) pw v h = cc
take_turns-alternates true (raises n ∷ ts) pw v h =
    let (pw', first, v') = raise-IsAt n pw v in
    let (end, rest) = take_turns-alternates true ts pw' v' h in
    (end, went_on (raises n) ts pw pw' end first rest)
take_turns-alternates false (raises n ∷ ts) pw v h = cc
take_turns-alternates true (halts ∷ ts) pw v h =
    let (pw', first, v') = stop-IsAt pw v in
    let (end, rest) = take_turns-alternates false ts pw' v' h in
    (end, went_on halts ts pw pw' end first rest)
take_turns-alternates false (halts ∷ ts) pw v h = cc

-- A second start leaves a loop behind a stop, whose next event panics.
second_start :
    take_turns
      (begins 1 ∷ begins 1 ∷ halts ∷ updates (record { is_fork = false; new_chain = 2 ∷ [] }) ∷ [])
      (new_progression_wrapper [])
    ≡ panics
unfolding take_turns take_turn start_progression run_update stop_progression
    update_current_progression new_progression_wrapper
second_start = refl
