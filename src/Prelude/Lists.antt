-- ===== src/Prelude/Lists.antt =====
-- Lists measured and cut by native numbers, under the library's names.
use Prim.Native.Nat.{ℕ, zero, suc, ◌+◌, ◌-◌}
use mathlib.Core.Path.{◌≡◌, refl, ap}
use mathlib.Core.List.{List, [], ◌∷◌, ◌++◌}
use mathlib.Core.Logic.{◌⊎◌, inl, inr}
use mathlib.Core.Option.{Option, none, some}
use mathlib.Core.Bool.{Bool, true, false}
use native.Mathlib.Omega.{arith}
use event_pool.Prelude.Tests.{nat_eq, if◌then◌else◌}

module _ {ℓ} {A : Type ℓ} where
  abbrev pub length : List A → ℕ
  length [] = 0
  length (x ∷ xs) = suc (length xs)

  abbrev pub get_elem? : List A → ℕ → Option A
  get_elem? [] i = none
  get_elem? (x ∷ xs) zero = some x
  get_elem? (x ∷ xs) (suc i) = get_elem? xs i

  abbrev pub take : ℕ → List A → List A
  take zero xs = []
  take (suc n) [] = []
  take (suc n) (x ∷ xs) = x ∷ take n xs

  abbrev pub drop : ℕ → List A → List A
  drop zero xs = xs
  drop (suc n) [] = []
  drop (suc n) (x ∷ xs) = drop n xs

  abbrev pub replicate : ℕ → A → List A
  replicate zero a = []
  replicate (suc n) a = a ∷ replicate n a

  pub length-append : (xs ys : List A) → length (xs ++ ys) ≡ length xs + length ys
  length-append [] ys = omega arith
  length-append (x ∷ xs) ys = omega (arith, length-append xs ys)

  pub take-append-drop : (n : ℕ) (xs : List A) → take n xs ++ drop n xs ≡ xs
  take-append-drop zero xs = refl
  take-append-drop (suc n) [] = refl
  take-append-drop (suc n) (x ∷ xs) = rw (take-append-drop n xs)

  pub length-drop : (n : ℕ) (xs : List A) → length (drop n xs) ≡ length xs - n
  length-drop zero xs = omega arith
  length-drop (suc n) [] = omega arith
  length-drop (suc n) (x ∷ xs) = omega (arith, length-drop n xs)

  pub length-replicate : (n : ℕ) (a : A) → length (replicate n a) ≡ n
  length-replicate zero a = refl
  length-replicate (suc n) a = ap suc (length-replicate n a)

pub List-cases {ℓ} :
    {A : Type ℓ} (xs : List A) → (xs ≡ []) ⊎ ((x : A) × (rest : List A) × (xs ≡ x ∷ rest))
List-cases [] = inl refl
List-cases (x ∷ rest) = inr (x, rest, refl)

-- A predicate of every entry, which computes to a tuple.
abbrev pub All {ℓ κ} : {A : Type ℓ} → (A → Type κ) → List A → Type κ
All Q [] = Unit
All Q (a ∷ rest) = Q a × All Q rest

pub All-append {ℓ κ} :
    {A : Type ℓ} (Q : A → Type κ) (front back : List A)
    → All Q front
    → All Q back
    → All Q (front ++ back)
All-append Q [] back h k = k
All-append Q (a ∷ front) back h k = (h.0, All-append Q front back h.1 k)

-- Whether a number is among those of a list.
abbrev pub among : ℕ → List ℕ → Bool
among n [] = false
among n (m ∷ ms) = if nat_eq m n then true else among n ms

pub among-append_left : (n : ℕ) (xs ys : List ℕ) → among n xs ≡ true → among n (xs ++ ys) ≡ true
among-append_left n [] ys h = cc
among-append_left n (x ∷ xs) ys h = ground (arith, among-append_left n xs ys)

pub among-append_right : (n : ℕ) (xs ys : List ℕ) → among n ys ≡ true → among n (xs ++ ys) ≡ true
among-append_right n [] ys h = h
among-append_right n (x ∷ xs) ys h = ground (arith, among-append_right n xs ys h)

-- Without the first occurrence of a number.
unfoldable pub remove : ℕ → List ℕ → List ℕ
remove n [] = []
remove n (m ∷ ms) = if nat_eq m n then ms else m ∷ remove n ms

abbrev pub IsDistinct : List ℕ → Type 0
IsDistinct [] = Unit
IsDistinct (m ∷ ms) = (among m ms ≡ false) × IsDistinct ms

pub among-snoc :
    (n m : ℕ) (ms : List ℕ) → among n (ms ++ m ∷ []) ≡ (if nat_eq m n then true else among n ms)
among-snoc n m [] = refl
among-snoc n m (k ∷ ms) = ground (arith, among-snoc n m ms)

pub IsDistinct-snoc :
    (m : ℕ) (ms : List ℕ) → among m ms ≡ false → IsDistinct ms → IsDistinct (ms ++ m ∷ [])
IsDistinct-snoc m [] h d = (refl, tt)
IsDistinct-snoc m (k ∷ ms) h d =
    (ground (arith, among-snoc k m ms), IsDistinct-snoc m ms (ground arith) d.1)

pub among-remove :
    (n m : ℕ) (ms : List ℕ)
    → IsDistinct ms
    → among n (remove m ms) ≡ (if nat_eq m n then false else among n ms)
unfolding remove
among-remove n m [] d = ground arith
among-remove n m (k ∷ ms) d = ground (arith, among-remove n m ms d.1)

pub IsDistinct-remove : (m : ℕ) (ms : List ℕ) → IsDistinct ms → IsDistinct (remove m ms)
unfolding remove
IsDistinct-remove m [] d = tt
IsDistinct-remove m (k ∷ ms) d = ground (arith, among-remove k m ms d.1, IsDistinct-remove m ms d.1)
