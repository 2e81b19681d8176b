-- ===== src/Ethereum/Subscription/Channel.antt =====
-- The channel of a subscription's logs: who closes it, and when.
use event_pool.Prelude.{
  ℕ, zero, suc, Outcome, went, blocks, panics, ◌≡◌, ◌≢◌, sym, ◌∙◌, inl, inr, refl, List, [], ◌∷◌,
  true, false, Option, none, Bool-cases, List-cases,
}
use event_pool.Text.{Text}
use event_pool.Ethereum.Subscription.{
  Watch, new_watch, read_error, see_done, send_log, WatchStep, reads, sees, delivers, fails, loses,
  cancels, WatchReach, begins, next,
}

-- The channel is open as long as the goroutine runs and the node delivers; nothing has panicked.
data IsCalm : Outcome Watch → Type 0 where
  waits : IsCalm blocks
  goes : (w : Watch) → w.subscribed ≡ w.is_open → w.running ≡ w.is_open → IsCalm (went w)

read_error-IsCalm :
    (w : Watch) → w.subscribed ≡ w.is_open → w.running ≡ w.is_open → IsCalm (read_error w)
unfolding read_error
read_error-IsCalm w s r = elim (Bool-cases w.running) [
  | inl on ↦ elim (List-cases w.errors) [
    | inl empty ↦ elim (Bool-cases w.ended) [
      | inl gone ↦ rw (on, empty, gone) (goes _ s r)
      | inr up ↦ rw (on, empty, up) waits
    ]
    | inr (e, es, front) ↦ rw (on, front) (goes _ s r)
  ]
  | inr off ↦ rw off waits
]

see_done-IsCalm :
    (w : Watch) → w.subscribed ≡ w.is_open → w.running ≡ w.is_open → IsCalm (see_done w)
unfolding see_done
see_done-IsCalm w s r = elim (Bool-cases w.running) [
  | inl on ↦ elim (Bool-cases w.cancelled) [
    | inl done ↦ rw (on, done, sym r ∙ on) (goes _ refl refl)
    | inr live ↦ rw (on, live) waits
  ]
  | inr off ↦ rw off waits
]

send_log-IsCalm :
    (log : Text) (w : Watch)
    → w.subscribed ≡ w.is_open
    → w.running ≡ w.is_open
    → IsCalm (send_log log w)
unfolding send_log
send_log-IsCalm log w s r = elim (Bool-cases w.subscribed) [
  | inl on ↦ rw (on, sym s ∙ on) (goes _ refl (r ∙ (sym s ∙ on)))
  | inr off ↦ rw off waits
]

WatchStep-IsCalm : {w : Watch} {o : Outcome Watch} → WatchStep w o → IsCalm (went w) → IsCalm o
WatchStep-IsCalm {w} reads (goes _ s r) = read_error-IsCalm w s r
WatchStep-IsCalm {w} sees (goes _ s r) = see_done-IsCalm w s r
WatchStep-IsCalm {w} (delivers log) (goes _ s r) = send_log-IsCalm log w s r
WatchStep-IsCalm (fails e) (goes _ s r) = goes _ s r
WatchStep-IsCalm loses (goes _ s r) = goes _ s r
WatchStep-IsCalm cancels (goes _ s r) = goes _ s r

WatchReach-IsCalm : {o : Outcome Watch} → WatchReach o → IsCalm o
unfolding new_watch
WatchReach-IsCalm begins = goes _ refl refl
WatchReach-IsCalm (next reached step) = WatchStep-IsCalm step (WatchReach-IsCalm reached)

calm : IsCalm panics → ⊥
calm c = elim c [ ]

-- Whatever the order of the node's logs and errors, the context's end and the goroutine's turns, no log
-- is sent to the closed channel, and the channel is not closed twice.
pub WatchReach-calm : {o : Outcome Watch} → WatchReach o → o ≢ panics
WatchReach-calm reached e = calm (rw (sym e) (WatchReach-IsCalm reached))

-- Once the context has ended, a goroutine that runs can return, and behind that the node is
-- unsubscribed and the channel closed.
pub see_done-closes :
    (w : Watch)
    → WatchReach (went w)
    → w.running ≡ true
    → w.cancelled ≡ true
    → see_done w
      ≡ went (record w { subscribed = false; ended = true; is_open = false; running = false })
unfolding see_done
see_done-closes w reached on done = elim (WatchReach-IsCalm reached) [
  | goes _ s r ↦ rw (on, done, sym r ∙ on) refl
]

-- `n` turns of the goroutine by itself.
pub read_errors : ℕ → Watch → Outcome Watch
read_errors zero w = went w
read_errors (suc n) w = elim (read_error w) [ went w' ↦ read_errors n w' | o ↦ o ]

abbrev pub report_nil : ℕ → List (Option Text) → List (Option Text)
report_nil zero reported = reported
report_nil (suc n) reported = report_nil n (none ∷ reported)

read_error-nil :
    (w : Watch)
    → w.running ≡ true
    → w.ended ≡ true
    → w.errors ≡ []
    → read_error w ≡ went (record w { reported = none ∷ w.reported })
unfolding read_error
read_error-nil w on gone empty = simp (on, gone, empty)

-- Once the subscription has ended and its errors are read, the goroutine never waits: as long as the
-- context goes on, every turn logs nil and leaves the channel open.
pub read_errors-spins :
    (n : ℕ) (w : Watch)
    → w.running ≡ true
    → w.ended ≡ true
    → w.errors ≡ []
    → read_errors n w ≡ went (record w { reported = report_nil n w.reported })
unfolding read_errors
read_errors-spins zero w on gone empty = refl
read_errors-spins (suc n) w on gone empty =
    let ih = read_errors-spins n (record w { reported = none ∷ w.reported }) on gone empty in
    rw (read_errors, read_error-nil w on gone empty) ih
