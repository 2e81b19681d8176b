-- ===== src/Helper/Keccak/Digest.antt =====
-- What the pool's hashes return, whatever was hashed with its objects before.
use event_pool.Prelude.{
  ℕ, zero, suc, ◌≡◌, refl, ap, subst, List, [], ◌∷◌, ◌++◌, Option, none, some, get_elem?, All,
  Option-cases, inl, inr,
}
use event_pool.Text.{Text}
use event_pool.Helper.Keccak.{
  HashLibrary, HashLaws, Keccak, Pool, remove_at, new_keccak, new_keccak256, write, reset, sum,
  write_rlp, get, put, keccak256, keccak256_rlp,
}

All-get_elem? :
    {A : Type 0} (P : A → Type 0) (xs : List A) (i : ℕ) (a : A)
    → All P xs
    → get_elem? xs i ≡ some a
    → P a × All P (remove_at i xs)
All-get_elem? P [] i a all e = cc
All-get_elem? P (x ∷ xs) zero a all e = let same : x ≡ a = cc in (subst P same all.0, all.1)
All-get_elem? P (x ∷ xs) (suc i) a all e =
    let (here, others) = All-get_elem? P xs i a all.1 e in (here, (all.0, others))

module _ (lib : HashLibrary) (laws : HashLaws lib) where
  open laws use {digest, Holds}

  -- Each object of the pool has taken in nothing.
  abbrev pub IsClean : Pool lib → Type 0
  IsClean pool = All (λ k. Holds [] k.hash) pool

  new_keccak256-Holds : (k : Keccak lib) × (new_keccak256 lib ≡ some k) × Holds [] k.hash
  unfolding new_keccak256 new_keccak
  new_keccak256-Holds =
      let (s, made, holds) = laws.new-Holds in
      (
        new_keccak lib s,
        ap (λ o. elim o [ none ↦ none | some impl ↦ some (new_keccak lib impl) ]) made,
        holds,
      )

  get-IsClean :
      (choice : Option ℕ) (pool : Pool lib)
      → IsClean pool
      → (k : Keccak lib) × (rest : Pool lib) × (get lib choice pool ≡ some (k, rest))
        × Holds [] k.hash
        × IsClean rest
  unfolding get
  get-IsClean none pool clean =
      let (s, made, holds) = new_keccak256-Holds in (s, pool, rw (made, get) refl, holds, clean)
  get-IsClean (some i) pool clean = elim (Option-cases (get_elem? pool i)) [
    | inl out ↦
        let (s, made, holds) = new_keccak256-Holds in
        (s, pool, rw (out, made, get) refl, holds, clean)
    | inr (k, there) ↦
        let (here, others) = All-get_elem? (λ k. Holds [] k.hash) pool i k clean there in
        (k, remove_at i pool, rw (there, get) refl, here, others)
  ]

  -- What a write and a sum of an object that has taken in nothing give.
  write-digest :
      (b dst : Text) (k : Keccak lib)
      → Holds [] k.hash
      → (k' : Keccak lib) × (write lib b k ≡ some k') × ((sum lib dst k').0 ≡ dst ++ digest b)
  unfolding write sum
  write-digest b dst k holds =
      let (s, wrote, taken) = laws.write-Holds [] b k.hash holds in
      (
        record k { hash = s },
        rw (wrote, write) refl,
        ap (λ t. dst ++ t) (laws.read-digest b s taken),
      )

  -- From a pool of clean objects, whichever of them is handed out, or a new one, `Keccak256` never
  -- panics, returns the digest of `src` behind `dst`, and leaves a pool of clean objects, so that no
  -- earlier hash changes a later one; `Keccak256Rlp` does so with the encoding of its value.
  pub keccak256-IsClean :
      (choice : Option ℕ) (dst src : Text) (pool : Pool lib)
      → IsClean pool
      → (left : Pool lib) × (keccak256 lib choice dst src pool ≡ some (dst ++ digest src, left))
        × (left_rlp : Pool lib) × (keccak256_rlp lib choice dst src pool
            ≡ some (dst ++ digest src, left_rlp))
        × IsClean left
        × IsClean left_rlp
  unfolding keccak256 keccak256_rlp write_rlp put reset
  keccak256-IsClean choice dst src pool clean =
      let (k, rest, got, holds, others) = get-IsClean choice pool clean in
      let (k', wrote, summed) = write-digest src dst k holds in
      let (j', wrote_rlp, summed_rlp) = write-digest src dst (record k { buf = src }) holds in
      (
        put lib (sum lib dst k').1 rest,
        rw (got, wrote, summed, keccak256) refl,
        put lib (sum lib dst j').1 rest,
        rw (got, wrote_rlp, summed_rlp, keccak256_rlp, write_rlp) refl,
        (laws.reset-Holds (sum lib dst k').1.hash, others),
        (laws.reset-Holds (sum lib dst j').1.hash, others),
      )
