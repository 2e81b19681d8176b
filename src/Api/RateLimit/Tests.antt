-- ===== src/Api/RateLimit/Tests.antt =====
-- Three requests of one address and one of another, with two left to the first.
use event_pool.Prelude.{
  ℕ, suc, ◌-◌, ◌≡◌, refl, List, [], ◌∷◌, Bool, true, false, Option, none, some, if◌then◌else◌,
  text_eq, ltb,
}
use event_pool.Text.{Text, bytes}
use event_pool.Api.RateLimit.{CounterStore, Request, Write, header, body, captured_status}
use event_pool.Api.RateLimit.Quota.{wanted, granted, granted-eq}

moved :
    (b : Bool) (n m : ℕ)
    → ◌≡◌ {A = Option ℕ} (some (if b then suc n else m)) (if b then some (suc n) else some m)
moved true n m = refl
moved false n m = refl

-- Each counter by its key.
abbrev counters : CounterStore
counters = record {
  State = Text → ℕ;
  get = λ k s. some (s k);
  increment = λ k window s j. if text_eq k j then suc (s k) else s j;
  get-increment = λ k j window s. moved (text_eq k j) (s k) (s j);
}

abbrev ask : Text → Request
ask a = record { address = some a; now = 0; get_fails = false; exec_fails = none }

abbrev requests : List (Request × List Write)
requests =
    (ask (bytes "a"), body ∷ [])
    ∷ (ask (bytes "b"), header 200 ∷ [])
    ∷ (ask (bytes "a"), header 404 ∷ [])
    ∷ (ask (bytes "a"), body ∷ [])
    ∷ (ask (bytes "a"), header 201 ∷ body ∷ [])
    ∷ []

-- A handler that writes nothing answers 200, but is not counted.
silent : captured_status [] 0 ≡ 0
unfolding captured_status
silent = refl

created : captured_status (header 201 ∷ body ∷ []) 0 ≡ 201
unfolding captured_status
created = refl

granted-eq_example :
    granted counters 2 3600 (bytes "a") requests (λ k. 0)
    ≡ (if ltb (wanted (bytes "a") requests) (2 - 0) then wanted (bytes "a") requests else 2 - 0)
granted-eq_example =
    granted-eq counters 2 3600 (bytes "a") requests (λ k. 0)
      (
        (refl, refl, (bytes "a", refl)),
        (
          (refl, refl, (bytes "b", refl)),
          (
            (refl, refl, (bytes "a", refl)),
            ((refl, refl, (bytes "a", refl)), ((refl, refl, (bytes "a", refl)), tt)),
          ),
        ),
      )
