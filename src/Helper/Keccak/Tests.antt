-- ===== src/Helper/Keccak/Tests.antt =====
-- A library whose digest is the first two bytes, and a pool with an object that has hashed before.
use event_pool.Prelude.{
  ◌≡◌, refl, ap, [], ◌∷◌, ◌++◌, Bool, true, false, none, some, take, if◌then◌else◌,
}
use event_pool.Text.{Text, bytes}
use event_pool.Helper.Keccak.{
  HashLibrary, HashLaws, Pool, new_keccak, write, sum, keccak256, keccak256_rlp,
}
use event_pool.Helper.Keccak.Digest.{IsClean, keccak256-IsClean}

-- What was taken in, and whether bytes were read since.
abbrev lib : HashLibrary
lib = record {
  State = Text × Bool;
  size = 2;
  new_legacy = some ([], false);
  write = λ b (t, squeezed). if squeezed then none else some (t ++ b, false);
  read = λ n (t, squeezed). (take n (t ++ (0 ∷ 0 ∷ [])), (t, true));
  reset = λ s. ([], false);
}

abbrev first_two : Text → Text
first_two t = take 2 (t ++ (0 ∷ 0 ∷ []))

abbrev laws : HashLaws lib
laws = record {
  digest = first_two;
  Holds = λ t s. s ≡ (t, false);
  new-Holds = (([], false), refl, refl);
  write-Holds =
      λ t b s holds. ((t ++ b, false), ap (λ (s : Text × Bool). lib.write b s) holds, refl);
  read-digest = λ t s holds. ap (λ (s : Text × Bool). (lib.read 2 s).0) holds;
  reset-Holds = λ s. refl;
}

abbrev used : Pool lib
used = record { buf = []; tmp = bytes "ab"; hash = ([], false) } ∷ []

keccak256-IsClean_example :
    (left : Pool lib) × (keccak256 lib (some 0) (bytes ">") (bytes "xyz") used
      ≡ some (bytes ">" ++ laws.digest (bytes "xyz"), left))
    × (left_rlp : Pool lib) × (keccak256_rlp lib (some 0) (bytes ">") (bytes "xyz") used
        ≡ some (bytes ">" ++ laws.digest (bytes "xyz"), left_rlp))
    × IsClean lib laws left
    × IsClean lib laws left_rlp
keccak256-IsClean_example =
    keccak256-IsClean lib laws (some 0) (bytes ">") (bytes "xyz") used (refl, tt)

-- A second sum without a reset in between goes on where the first stopped, and a write then panics.
write-sum : write lib (bytes "z") (sum lib [] (new_keccak lib (bytes "xy", false))).1 ≡ none
unfolding write sum new_keccak
write-sum = refl
