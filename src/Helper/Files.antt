-- ===== src/Helper/Files.antt =====
-- helper/keystore/keystore.go, and the directories of helper/common/common.go. The file system is a
-- parameter: its answers and failures are those of a state. `filepath.Join` and `filepath.Abs` are
-- parameters too.
pub mod Keys
pub mod Directories
mod Tests
use event_pool.Prelude.{
  List, [], ◌∷◌, Bool, true, false, Option, none, some, ◌≡◌, if◌then◌else◌, not,
}
use event_pool.Text.{Text}
use event_pool.Hex.{encode_to_string}

-- What `os.Stat` answers: whether the entry is a directory, that there is none, or another error.
pub data Stat : Type 0 where
  present : Bool → Stat
  absent denied : Stat

-- Calls that write answer whether they succeeded.
pub record FileSystem : Type 1 where
  pub State : Type 0
  pub stat : Text → State → Stat
  pub read_file : Text → State → Option Text
  pub write_file : Text → Text → State → Bool × State
  pub mkdir_all : Text → State → Bool × State

-- What package os documents of calls that succeed.
pub record FileLaws (fs : FileSystem) : Type 0 where
  pub read-write :
      (path content : Text) (s : fs.State)
      → (fs.write_file path content s).0 ≡ true
      → fs.read_file path (fs.write_file path content s).1 ≡ some content
  pub stat-write :
      (path content : Text) (s : fs.State)
      → (fs.write_file path content s).0 ≡ true
      → fs.stat path (fs.write_file path content s).1 ≡ present false
  pub stat-mkdir_all :
      (path : Text) (s : fs.State)
      → (fs.mkdir_all path s).0 ≡ true
      → fs.stat path (fs.mkdir_all path s).1 ≡ present true
  pub keeps-mkdir_all :
      (path other : Text) (s : fs.State) (is_dir : Bool)
      → fs.stat other s ≡ present is_dir
      → fs.stat other (fs.mkdir_all path s).1 ≡ present is_dir

module _ (fs : FileSystem) where
  open fs use {State, stat, read_file, write_file, mkdir_all}

  -- The key that is written is that of `create` in hexadecimal.
  unfoldable pub write_key : Text → Option Text → State → Option Text × State
  unfolding encode_to_string
  write_key path created s = elim created [
    | none ↦ (none, s)
    | some key ↦
        let (ok, s') = write_file path (encode_to_string key) s in
        ((if ok then some (encode_to_string key) else none), s')
  ]

  -- `CreateIfNotExists`, on what `create` would return; none is an error.
  unfoldable pub create_if_not_exists : Text → Option Text → State → Option Text × State
  unfolding write_key
  create_if_not_exists path created s = elim (stat path s) [
    | denied ↦ (none, s)
    | present _ ↦ (read_file path s, s)
    | absent ↦ write_key path created s
  ]

  -- The `false` is an error.
  unfoldable pub create_dir : Text → State → Bool × State
  create_dir path s = elim (stat path s) [
    | denied ↦ (false, s)
    | present _ ↦ (true, s)
    | absent ↦ mkdir_all path s
  ]

  -- The loop of `SetupDataDir` stops at the first error.
  unfoldable pub create_dirs : List Text → State → Bool × State
  unfolding create_dir
  create_dirs [] s = (true, s)
  create_dirs (path ∷ paths) s =
      let (ok, s') = create_dir path s in
      let rest = create_dirs paths s' in if ok then rest else (false, s')

  abbrev pub joined : (Text → Text → Text) → Text → List Text → List Text
  joined join data_dir [] = []
  joined join data_dir (path ∷ paths) = join data_dir path ∷ joined join data_dir paths

  unfoldable pub setup_data_dir : (Text → Text → Text) → Text → List Text → State → Bool × State
  unfolding create_dirs
  setup_data_dir join data_dir paths s = create_dirs (data_dir ∷ joined join data_dir paths) s

  -- An error of `Abs` is none.
  unfoldable pub directory_exists : (Text → Option Text) → Text → State → Bool
  directory_exists abs directory_path s = elim (abs directory_path) [
    | none ↦ false
    | some path_abs ↦ elim (stat path_abs s) [
      | absent ↦ false
      | present is_dir ↦ is_dir
      | denied ↦ true
    ]
  ]

-- `CreatePrivateKey`
unfoldable pub create_private_key : Option Text → Option Text
unfolding encode_to_string
create_private_key created = elim created [ none ↦ none | some key ↦ some (encode_to_string key) ]
