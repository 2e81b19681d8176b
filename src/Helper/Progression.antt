-- ===== src/Helper/Progression.antt =====
-- helper/progress/chain.go: the progress of a synchronisation. The package of the blockchain's events is
-- not in the repository: an event is whether it is a fork, and the numbers of its new blocks. Each loop
-- that `StartProgression` started is counted; a stop is taken by one of them. A locked write is one step,
-- and so is a stop with the write behind it, as the loop that took it is gone.
mod Turns
use event_pool.Prelude.{
  ℕ, ◌+◌, ◌-◌, List, [], ◌∷◌, Bool, true, false, ◌&&◌, not, Option, none, some, if◌then◌else◌,
  nat_eq, Outcome, went, blocks, panics,
}
use event_pool.Text.{Text}

pub record Progression : Type 0 where
  pub sync_type : Text
  pub starting_block : ℕ
  pub current_block : ℕ
  pub highest_block : ℕ

pub record ChainEvent : Type 0 where
  pub is_fork : Bool
  pub new_chain : List ℕ

pub record ProgressionWrapper : Type 0 where
  pub progression : Option Progression
  pub sync_type : Text
  pub loops : ℕ

unfoldable pub new_progression_wrapper : Text → ProgressionWrapper
new_progression_wrapper sync_type = record { progression = none; sync_type = sync_type; loops = 0 }

unfoldable pub start_progression : ℕ → ProgressionWrapper → ProgressionWrapper
start_progression starting_block pw = record pw {
  progression = some (record {
    sync_type = pw.sync_type;
    starting_block = starting_block;
    current_block = 0;
    highest_block = 0;
  });
  loops = pw.loops + 1;
}

-- A write through a nil pointer panics.
unfoldable pub update_current_progression : ℕ → ProgressionWrapper → Outcome ProgressionWrapper
update_current_progression current_block pw = elim pw.progression [
  | none ↦ panics
  | some p ↦ went (record pw { progression = some (record p { current_block = current_block }) })
]

unfoldable pub update_highest_progression : ℕ → ProgressionWrapper → Outcome ProgressionWrapper
update_highest_progression highest_block pw = elim pw.progression [
  | none ↦ panics
  | some p ↦ went (record pw { progression = some (record p { highest_block = highest_block }) })
]

unfoldable pub get_progression : ProgressionWrapper → Option Progression
get_progression pw = pw.progression

-- The channel has no buffer: a stop waits where no loop is there to take it.
unfoldable pub stop_progression : ProgressionWrapper → Outcome ProgressionWrapper
stop_progression pw =
    if nat_eq pw.loops 0
    then blocks
    else went (record pw { progression = none; loops = pw.loops - 1 })

abbrev pub last_of : ℕ → List ℕ → ℕ
last_of n [] = n
last_of n (m ∷ ms) = last_of m ms

-- One event that a loop of `RunUpdateLoop` takes.
unfoldable pub run_update : ChainEvent → ProgressionWrapper → Outcome ProgressionWrapper
unfolding update_current_progression
run_update event pw =
    if nat_eq pw.loops 0 then blocks else if event.is_fork then went pw else elim event.new_chain [
      | [] ↦ went pw
      | n ∷ ns ↦ update_current_progression (last_of n ns) pw
    ]

pub data Turn : Type 0 where
  begins : ℕ → Turn
  updates : ChainEvent → Turn
  raises : ℕ → Turn
  halts : Turn

unfoldable pub take_turn : Turn → ProgressionWrapper → Outcome ProgressionWrapper
unfolding start_progression run_update update_highest_progression stop_progression
take_turn (begins starting_block) pw = went (start_progression starting_block pw)
take_turn (updates event) pw = run_update event pw
take_turn (raises highest_block) pw = update_highest_progression highest_block pw
take_turn halts pw = stop_progression pw

unfoldable pub take_turns : List Turn → ProgressionWrapper → Outcome ProgressionWrapper
unfolding take_turn
take_turns [] pw = went pw
take_turns (t ∷ ts) pw = elim (take_turn t pw) [
  | went pw' ↦ take_turns ts pw'
  | blocks ↦ blocks
  | panics ↦ panics
]
