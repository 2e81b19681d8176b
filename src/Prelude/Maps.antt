-- ===== src/Prelude/Maps.antt =====
-- Go maps as association lists over keys with an equality test.
use mathlib.Core.Path.{◌≡◌, refl}
use mathlib.Core.Option.{Option, none, some}
use mathlib.Core.List.{List, [], ◌∷◌}
use native.Mathlib.Omega.{arith}
use event_pool.Prelude.Tests.{Eq, ◌==◌, if◌then◌else◌, ==_refl}

abbrev pub Dict {ℓ κ} : Type ℓ → Type κ → Type (ℓ ⊔ κ)
Dict K V = List (K × V)

module _ {ℓ κ} {K : Type ℓ} {V : Type κ} ⦃e : Eq K⦄ where
  -- `v, ok := m[k]`
  unfoldable pub lookup : K → Dict K V → Option V
  lookup key [] = none
  lookup key ((k, v) ∷ rest) = if k == key then some v else lookup key rest

  -- `m[k] = v`
  unfoldable pub insert : K → V → Dict K V → Dict K V
  insert key new [] = (key, new) ∷ []
  insert key new ((k, v) ∷ rest) =
      if k == key then (key, new) ∷ rest else (k, v) ∷ insert key new rest

  -- `delete(m, k)`
  unfoldable pub delete : K → Dict K V → Dict K V
  delete key [] = []
  delete key ((k, v) ∷ rest) = if k == key then delete key rest else (k, v) ∷ delete key rest

  pub lookup-nil : (k : K) → lookup k [] ≡ none
  unfolding lookup
  lookup-nil k = refl

  pub lookup-insert :
      (key asked : K) (new : V) (d : Dict K V)
      → lookup asked (insert key new d) ≡ (if key == asked then some new else lookup asked d)
  unfolding lookup insert
  lookup-insert key asked new [] = refl
  lookup-insert key asked new ((k, v) ∷ rest) =
      let tail = lookup-insert key asked new rest in
      ground (arith, tail, e.beq_iff k asked, e.beq_iff k key, e.beq_iff key asked)

  pub lookup-delete :
      (k j : K) (m : Dict K V) → lookup j (delete k m) ≡ (if k == j then none else lookup j m)
  unfolding lookup delete
  lookup-delete k j [] = ground arith
  lookup-delete k j ((i, w) ∷ m) =
      ground (arith, e.beq_iff k j, e.beq_iff i k, e.beq_iff i j, lookup-delete k j m)

  pub lookup-insert_self : (k : K) (v : V) (m : Dict K V) → lookup k (insert k v m) ≡ some v
  lookup-insert_self k v m = rw (lookup-insert k k v m, ==_refl k)

  pub lookup-delete_self : (k : K) (m : Dict K V) → lookup k (delete k m) ≡ none
  lookup-delete_self k m = rw (lookup-delete k k m, ==_refl k)
