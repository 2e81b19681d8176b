-- ===== src/Helper/Keccak.antt =====
-- helper/keccak: a hash object with its buffers, and the pool that hands such objects out again.
-- The hash library is a parameter, and so are the RLP encoding of a value and the choice of `sync.Pool`,
-- which returns any object that was put, or none.
pub mod Digest
mod Tests
use event_pool.Prelude.{
  ℕ, zero, suc, ◌≡◌, List, [], ◌∷◌, ◌++◌, Option, none, some, replicate, get_elem?,
}
use event_pool.Text.{Text}

-- The sponge of golang.org/x/crypto/sha3: `write` panics, none, once bytes were read from it. `new_legacy`
-- is none where the hash cannot be read from.
pub record HashLibrary : Type 1 where
  pub State : Type 0
  pub size : ℕ
  pub new_legacy : Option State
  pub write : Text → State → Option State
  pub read : ℕ → State → Text × State
  pub reset : State → State

-- What it documents: a state that has taken in some bytes, and from which none were read yet, yields
-- their digest.
pub record HashLaws (lib : HashLibrary) : Type 1 where
  pub digest : Text → Text
  pub Holds : Text → lib.State → Type 0
  pub new-Holds : (s : lib.State) × (lib.new_legacy ≡ some s) × Holds [] s
  pub write-Holds :
      (t b : Text) (s : lib.State)
      → Holds t s
      → (s' : lib.State) × (lib.write b s ≡ some s') × Holds (t ++ b) s'
  pub read-digest : (t : Text) (s : lib.State) → Holds t s → (lib.read lib.size s).0 ≡ digest t
  pub reset-Holds : (s : lib.State) → Holds [] (lib.reset s)

abbrev pub remove_at : {A : Type 0} → ℕ → List A → List A
remove_at i [] = []
remove_at zero (x ∷ xs) = xs
remove_at (suc i) (x ∷ xs) = x ∷ remove_at i xs

module _ (lib : HashLibrary) where
  open lib use {State, size, new_legacy}

  pub record Keccak : Type 0 where
    pub buf : Text
    pub tmp : Text
    pub hash : State

  -- `newKeccak`, whose `tmp` is as long as a digest.
  unfoldable pub new_keccak : State → Keccak
  new_keccak hash = record { buf = []; tmp = replicate size 0; hash = hash }

  unfoldable pub new_keccak256 : Option Keccak
  unfolding new_keccak
  new_keccak256 = elim new_legacy [ none ↦ none | some impl ↦ some (new_keccak impl) ]

  unfoldable pub write : Text → Keccak → Option Keccak
  write b k = elim (lib.write b k.hash) [
    | none ↦ none
    | some hash ↦ some (record k { hash = hash })
  ]

  unfoldable pub reset : Keccak → Keccak
  reset k = record k { buf = []; hash = lib.reset k.hash }

  -- `Read`, which returns `tmp` itself.
  unfoldable pub read : Keccak → Text × Keccak
  read k = let (out, hash) = lib.read size k.hash in (out, record k { tmp = out; hash = hash })

  -- `Sum`: the digest's bytes overwrite `tmp`, and are copied behind `dst`.
  unfoldable pub sum : Text → Keccak → Text × Keccak
  sum dst k =
      let (out, hash) = lib.read size k.hash in (dst ++ out, record k { tmp = out; hash = hash })

  -- `WriteRlp` on the encoding of its value.
  unfoldable pub write_rlp : Text → Text → Keccak → Option (Text × Keccak)
  unfolding write sum
  write_rlp dst marshaled k = elim (write marshaled (record k { buf = marshaled })) [
    | none ↦ none
    | some k' ↦ some (sum dst k')
  ]

  abbrev pub Pool : Type 0
  Pool = List Keccak

  -- `Get`: the object at a place of the pool, if one is chosen and there, or a new one.
  unfoldable pub get : Option ℕ → Pool → Option (Keccak × Pool)
  unfolding new_keccak256
  get choice pool =
      let fresh : Option (Keccak × Pool) = elim new_keccak256 [
        | none ↦ none
        | some k ↦ some (k, pool)
      ] in
      elim choice [
        | none ↦ fresh
        | some i ↦ elim (get_elem? pool i) [ none ↦ fresh | some k ↦ some (k, remove_at i pool) ]
      ]

  unfoldable pub put : Keccak → Pool → Pool
  unfolding reset
  put k pool = reset k ∷ pool

  -- `Keccak256`; none is a panic.
  unfoldable pub keccak256 : Option ℕ → Text → Text → Pool → Option (Text × Pool)
  unfolding get write sum put
  keccak256 choice dst src pool = elim (get choice pool) [
    | none ↦ none
    | some (h, rest) ↦ elim (write src h) [
      | none ↦ none
      | some h' ↦ let (out, h'') = sum dst h' in some (out, put h'' rest)
    ]
  ]

  -- `Keccak256Rlp` on the encoding of its value.
  unfoldable pub keccak256_rlp : Option ℕ → Text → Text → Pool → Option (Text × Pool)
  unfolding get write_rlp put
  keccak256_rlp choice dst marshaled pool = elim (get choice pool) [
    | none ↦ none
    | some (h, rest) ↦ elim (write_rlp dst marshaled h) [
      | none ↦ none
      | some (out, h') ↦ some (out, put h' rest)
    ]
  ]
