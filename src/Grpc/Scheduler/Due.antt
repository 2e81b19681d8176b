-- ===== src/Grpc/Scheduler/Due.antt =====
-- Which jobs a round submits, and which it leaves.
use event_pool.Prelude.{
  ℕ, zero, suc, ◌+◌, ◌≤◌, ◌≡◌, refl, inl, inr, List, [], ◌∷◌, ◌++◌, Bool, true, false, not, ◌&&◌,
  Option, none, some, arith, if◌then◌else◌, leb, ltb, length, Bool-cases,
}
use event_pool.Grpc.Scheduler.{
  SessionJob, SessionScheduler, with_job, pop_job, expire_job, process_expired, run_due,
}

-- How many jobs of a list pass a test.
abbrev pub count : (SessionJob → Bool) → List SessionJob → ℕ
count test [] = 0
count test (j ∷ js) = (if test j then 1 else 0) + count test js

abbrev pub is_due : ℕ → SessionJob → Bool
is_due now j = leb j.run_at now

pub count-snoc :
    (test : SessionJob → Bool) (js : List SessionJob) (j : SessionJob)
    → count test (js ++ j ∷ []) ≡ count test js + (if test j then 1 else 0)
count-snoc test [] j = omega arith
count-snoc test (k ∷ js) j = omega (arith, count-snoc test js j)

pub count_mono :
    (p q : SessionJob → Bool) (js : List SessionJob)
    → ((j : SessionJob) → p j ≡ true → q j ≡ true)
    → count p js ≤ count q js
count_mono p q [] h = omega arith
count_mono p q (j ∷ js) h = ground (arith, count_mono p q js h, h j)

count-split :
    (test p : SessionJob → Bool) (js : List SessionJob)
    → count test js ≡ count (λ j. test j && p j) js + count (λ j. test j && not (p j)) js
count-split test p [] = omega arith
count-split test p (j ∷ js) = ground (arith, count-split test p js)

-- What a pop takes out: a job with none before its time; nothing only where there is none.
abbrev pub IsPop : List SessionJob → Option (SessionJob × List SessionJob) → Type 0
IsPop js none = js ≡ []
IsPop js (some (j, rest)) =
    ((test : SessionJob → Bool) → count test js ≡ (if test j then 1 else 0) + count test rest)
    × (length js ≡ suc (length rest))
    × (count (λ k. ltb k.run_at j.run_at) js ≡ 0)

pub pop_job-IsPop : (js : List SessionJob) → IsPop js (pop_job js)
unfolding pop_job
pop_job-IsPop [] = refl
pop_job-IsPop (j ∷ js) = joined (pop_job js) (pop_job-IsPop js)
  where
    joined :
        (r : Option (SessionJob × List SessionJob)) → IsPop js r → IsPop (j ∷ js) (with_job j js r)
    joined none h = (λ test. refl, refl, rw h (ground arith))
    joined (some (least, rest)) (counts, len, low) = elim (Bool-cases (leb j.run_at least.run_at)) [
      | inl first ↦
          let fewer =
            count_mono (λ k. ltb k.run_at j.run_at) (λ k. ltb k.run_at least.run_at) js
              (λ k e. ground arith) in
          rw first (λ test. refl, refl, ground arith)
      | inr later ↦ rw later (λ test. omega (arith, counts test), omega (arith, len), ground arith)
    ]

none_due :
    (now : ℕ) (j : SessionJob) (js : List SessionJob)
    → is_due now j ≡ false
    → count (λ k. ltb k.run_at j.run_at) js ≡ 0
    → count (is_due now) js ≡ 0
none_due now j js late low =
    let fewer = count_mono (is_due now) (λ k. ltb k.run_at j.run_at) js (λ k e. ground arith) in
    omega (arith, fewer)

-- What a round makes of the counts.
abbrev Expires : ℕ → SessionScheduler → SessionScheduler → Type 0
Expires now s t =
    ((test : SessionJob → Bool)
      → count test t.submitted
        ≡ count test s.submitted + count (λ k. test k && (is_due now k && not k.canceled)) s.jobs)
    × ((test : SessionJob → Bool)
        → count test t.jobs ≡ count (λ k. test k && not (is_due now k)) s.jobs)

count-empty : (test : SessionJob → Bool) (js : List SessionJob) → length js ≤ 0 → count test js ≡ 0
count-empty test [] h = refl
count-empty test (j ∷ js) h = absurd (omega arith)

Expires-none : (now : ℕ) (s : SessionScheduler) → count (is_due now) s.jobs ≡ 0 → Expires now s s
Expires-none now s h = (
  λ test.
      let fewer =
        count_mono (λ k. test k && (is_due now k && not k.canceled)) (is_due now) s.jobs
          (λ k e. ground arith) in
      omega (arith, fewer),
  λ test.
      let fewer =
        count_mono (λ k. test k && is_due now k) (is_due now) s.jobs (λ k e. ground arith) in
      omega (arith, fewer, count-split test (is_due now) s.jobs),
)

-- One job that is due, and the rest of the round.
expire_job-Expires :
    (now : ℕ) (s t : SessionScheduler) (j : SessionJob) (rest : List SessionJob)
    → ((test : SessionJob → Bool) → count test s.jobs ≡ (if test j then 1 else 0) + count test rest)
    → is_due now j ≡ true
    → Expires now (expire_job j rest s) t
    → Expires now s t
unfolding expire_job
expire_job-Expires now s t j rest counts due (sub, left) = (
  λ test. ground (
    arith,
    sub test,
    counts (λ k. test k && (is_due now k && not k.canceled)),
    count-snoc test s.submitted j,
  ),
  λ test. ground (arith, left test, counts (λ k. test k && not (is_due now k))),
)

jobs_left :
    (j : SessionJob) (rest : List SessionJob) (s : SessionScheduler) (fuel : ℕ)
    → length s.jobs ≡ suc (length rest)
    → length s.jobs ≤ suc fuel
    → length (expire_job j rest s).jobs ≤ fuel
unfolding expire_job
jobs_left j rest s fuel len h = omega (arith, len)

process_expired-Expires :
    (fuel now : ℕ) (s : SessionScheduler)
    → length s.jobs ≤ fuel
    → Expires now s (process_expired fuel now s)
unfolding process_expired
process_expired-Expires zero now s h = Expires-none now s (count-empty (is_due now) s.jobs h)
process_expired-Expires (suc fuel) now s h =
    popped (process_expired-Expires fuel now) (pop_job s.jobs) (pop_job-IsPop s.jobs)
  where
    popped :
        ((s' : SessionScheduler)
          → length s'.jobs ≤ fuel
          → Expires now s' (process_expired fuel now s'))
        → (r : Option (SessionJob × List SessionJob)) → IsPop s.jobs r
        → Expires now s (elim r [
          | none ↦ s
          | some (j, rest) ↦ elim (leb j.run_at now) [
            | false ↦ s
            | true ↦ process_expired fuel now (expire_job j rest s)
          ]
        ])
    popped ih none e = Expires-none now s (rw e refl)
    popped ih (some (j, rest)) (counts, len, low) = elim (Bool-cases (leb j.run_at now)) [
      | inr late ↦ rw late (Expires-none now s (none_due now j s.jobs late low))
      | inl due ↦ rw due (
          expire_job-Expires now s (process_expired fuel now (expire_job j rest s)) j rest counts
            due (ih (expire_job j rest s) (jobs_left j rest s fuel len h)))
    ]

-- A round submits exactly the jobs that are due and not cancelled, each as often as it stands in the
-- heap, and leaves exactly those that are not due, whatever property of them is counted.
pub run_due-Expires :
    (now : ℕ) (s : SessionScheduler) (test : SessionJob → Bool)
    → (count test (run_due now s).submitted
        ≡ count test s.submitted + count (λ j. test j && (is_due now j && not j.canceled)) s.jobs)
      × (count test (run_due now s).jobs ≡ count (λ j. test j && not (is_due now j)) s.jobs)
unfolding run_due
run_due-Expires now s test =
    let (sub, left) = process_expired-Expires (length s.jobs) now s (omega arith) in
    (sub test, left test)
