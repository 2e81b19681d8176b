-- ===== src/Helper/Common.antt =====
-- When two lists have an element in common.
use event_pool.Prelude.{
  ℕ, ◌≡◌, refl, ◌∙◌, inl, inr, List, [], ◌∷◌, Bool, true, ◌||◌, ◌↔◌, subst, arith, nat_eq,
  nat_eq_iff, among, Dict, lookup, insert, lookup-insert, lookup-nil, nat_Eq, Bool-cases,
}
use event_pool.Helper.{element_map, is_element, any_element, has_common_element}

-- The map holds the elements of the list and those of before.
lookup-element_map :
    (n : ℕ) (xs : List ℕ) (m : Dict ℕ Bool)
    → is_element (lookup n (element_map xs m)) ≡ (among n xs || is_element (lookup n m))
unfolding element_map
lookup-element_map n [] m = refl
lookup-element_map n (x ∷ xs) m =
    lookup-element_map n xs (insert x true m)
    ∙ ground (arith, lookup-insert x n true m, nat_eq_iff n x, nat_eq_iff x n)

element_map-among : (n : ℕ) (xs : List ℕ) → is_element (lookup n (element_map xs [])) ≡ among n xs
element_map-among n xs = lookup-element_map n xs [] ∙ ground (arith, lookup-nil {V = Bool} n)

self_among : (n : ℕ) (ns : List ℕ) → among n (n ∷ ns) ≡ true
self_among n ns = ground (arith, nat_eq_iff n n)

behind_among : (n m : ℕ) (ns : List ℕ) → among n ns ≡ true → among n (m ∷ ns) ≡ true
behind_among n m ns e = ground arith

any_element-among :
    (ys xs : List ℕ)
    → (any_element ys (element_map xs []) ≡ true)
      ↔ ((n : ℕ) × (among n xs ≡ true) × (among n ys ≡ true))
unfolding any_element
any_element-among [] xs = (λ e. absurd (ground arith), λ (n, _, e). absurd (ground arith))
any_element-among (y ∷ ys) xs = (
  λ e. elim (Bool-cases (among y xs)) [
    | inl k ↦ (y, k, self_among y ys)
    | inr k ↦
        let (n, a, b) = (any_element-among ys xs).0 (rw (element_map-among y xs, k) at e) in
        (n, a, behind_among n y ys b)
  ],
  λ (n, a, b). rw (element_map-among y xs) (elim (Bool-cases (nat_eq n y)) [
    | inl same ↦ rw (subst (λ k. among k xs ≡ true) ((nat_eq_iff n y).0 same) a) refl
    | inr differ ↦
        let there : among n ys ≡ true = ground (arith, nat_eq_iff n y, nat_eq_iff y n) in
        rw ((any_element-among ys xs).1 (n, a, there)) (ground arith)
  ]),
)

-- The answer is true exactly where a number stands in both lists.
pub has_common_element_iff :
    (xs ys : List ℕ)
    → (has_common_element xs ys ≡ true) ↔ ((n : ℕ) × (among n xs ≡ true) × (among n ys ≡ true))
unfolding has_common_element
has_common_element_iff xs ys = any_element-among ys xs
