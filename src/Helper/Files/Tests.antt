-- ===== src/Helper/Files/Tests.antt =====
-- A file system that is the list of its paths, a key that is created in it, and a data directory.
use event_pool.Prelude.{
  ◌≡◌, refl, ◌⊎◌, [], ◌∷◌, ◌++◌, Bool, true, false, Option, none, some, All, arith, text_eq,
  text_eq_iff, Dict, lookup, insert, lookup-insert, lookup-insert_self, text_Eq,
}
use event_pool.Text.{Text, bytes}
use event_pool.Hex.{encode_to_string, decode_string}
use event_pool.Helper.Files.{
  FileSystem, FileLaws, Stat, present, absent, create_if_not_exists, write_key, create_dir,
  create_dirs, joined, setup_data_dir,
}
use event_pool.Helper.Files.Keys.{create_if_not_exists_again}
use event_pool.Helper.Files.Directories.{IsThere, setup_data_dir_again}

-- A directory, or a file's content.
abbrev Tree : Type 0
Tree = Dict Text (Option Text)

abbrev directory : Option Text
directory = none

abbrev stat_of : Option (Option Text) → Stat
stat_of none = absent
stat_of (some none) = present true
stat_of (some (some content)) = present false

abbrev read_of : Option (Option Text) → Option Text
read_of none = none
read_of (some entry) = entry

abbrev mkdir_of : Text → Tree → Option (Option Text) → Bool × Tree
mkdir_of path s none = (true, insert path none s)
mkdir_of path s (some none) = (true, s)
mkdir_of path s (some (some content)) = (false, s)

abbrev tree : FileSystem
tree = record {
  State = Tree;
  stat = λ path s. stat_of (lookup path s);
  read_file = λ path s. read_of (lookup path s);
  write_file = λ path content s. (true, insert path (some content) s);
  mkdir_all = λ path s. mkdir_of path s (lookup path s);
}

tree-laws : FileLaws tree
tree-laws = record {
  read-write = λ path content s h. rw (lookup-insert_self path (some content) s) refl;
  stat-write = λ path content s h. rw (lookup-insert_self path (some content) s) refl;
  stat-mkdir_all = λ path s h. ground (arith, lookup-insert_self path directory s);
  keeps-mkdir_all = λ path other s is_dir h.
      ground (arith, lookup-insert path other directory s, text_eq_iff path other);
}

created_key :
    create_if_not_exists tree (bytes "k") (some (171 ∷ [])) []
    ≡ (some (bytes "ab"), (bytes "k", some (bytes "ab")) ∷ [])
unfolding create_if_not_exists write_key encode_to_string insert lookup
created_key = refl

key_again :
    ((tree.read_file (bytes "k") [] ≡ some (bytes "ab"))
      ⊎ ((raw : Text) × (some (171 ∷ []) ≡ some raw)
          × (decode_string (bytes "ab") ≡ record { content = raw; failed = false })))
    × (create_if_not_exists tree (bytes "k") none ((bytes "k", some (bytes "ab")) ∷ [])
        ≡ (some (bytes "ab"), (bytes "k", some (bytes "ab")) ∷ []))
key_again =
    create_if_not_exists_again tree tree-laws (bytes "k") (some (171 ∷ [])) none []
      ((bytes "k", some (bytes "ab")) ∷ []) (bytes "ab") (omega arith, tt) created_key

abbrev join : Text → Text → Text
join a b = a ++ (bytes "/" ++ b)

-- A set-up over an empty file system.
made :
    setup_data_dir tree join (bytes "d") (bytes "a" ∷ []) []
    ≡ (true, (bytes "d", none) ∷ (bytes "d/a", none) ∷ [])
unfolding setup_data_dir create_dirs create_dir insert lookup text_eq
made = refl

made_again :
    All
      (IsThere tree tree-laws ((bytes "d", none) ∷ (bytes "d/a", none) ∷ []))
      (bytes "d" ∷ joined tree join (bytes "d") (bytes "a" ∷ []))
    × (setup_data_dir tree join
          (bytes "d")
          (bytes "a" ∷ [])
          ((bytes "d", none) ∷ (bytes "d/a", none) ∷ [])
        ≡ (true, (bytes "d", none) ∷ (bytes "d/a", none) ∷ []))
made_again =
    setup_data_dir_again tree tree-laws join (bytes "d") (bytes "a" ∷ []) []
      ((bytes "d", none) ∷ (bytes "d/a", none) ∷ []) made
