-- ===== src/Helper/Files/Directories.antt =====
-- What a set-up of the data directory leaves, and when a directory is said to exist.
use event_pool.Prelude.{
  ◌≡◌, ◌↔◌, ◌⊎◌, refl, ap, subst, List, [], ◌∷◌, Bool, true, false, Option, some, All, arith,
}
use event_pool.Text.{Text}
use event_pool.Helper.Files.{
  FileSystem, FileLaws, Stat, present, absent, denied, create_dir, create_dirs, setup_data_dir,
  joined, directory_exists,
}

-- What `DirectoryExists` takes for a directory: one, or a path whose `os.Stat` fails otherwise than by
-- finding nothing.
pub directory_exists_iff :
    (fs : FileSystem) (abs : Text → Option Text) (path : Text) (s : fs.State)
    → (directory_exists fs abs path s ≡ true) ↔ (
        (path_abs : Text) × (abs path ≡ some path_abs)
        × ((fs.stat path_abs s ≡ present true) ⊎ (fs.stat path_abs s ≡ denied)))
unfolding directory_exists
directory_exists_iff fs abs path s = ground arith

-- A file or a directory.
abbrev pub is_there : Stat → Bool
is_there (present is_dir) = true
is_there absent = false
is_there denied = false

module _ (fs : FileSystem) (laws : FileLaws fs) where
  open fs use {State, stat, mkdir_all}

  abbrev pub IsThere : State → Text → Type 0
  IsThere s path = is_there (stat path s) ≡ true

  mkdir_all-keeps :
      (path other : Text) (s : State) → IsThere s other → IsThere (mkdir_all path s).1 other
  mkdir_all-keeps path other s h = go (stat other s) refl h
    where
      go :
          (before : Stat)
          → stat other s ≡ before
          → is_there before ≡ true
          → IsThere (mkdir_all path s).1 other
      go (present is_dir) e h = rw (laws.keeps-mkdir_all path other s is_dir e) refl
      go absent e h = cc
      go denied e h = cc

  create_dir-IsThere :
      (path : Text) (s s' : State) → create_dir fs path s ≡ (true, s') → IsThere s' path
  unfolding create_dir
  create_dir-IsThere path s s' e = ground (arith, laws.stat-mkdir_all path s)

  create_dir-keeps :
      (path other : Text) (s s' : State)
      → create_dir fs path s ≡ (true, s')
      → IsThere s other
      → IsThere s' other
  unfolding create_dir
  create_dir-keeps path other s s' e h = ground (arith, mkdir_all-keeps path other s h)

  first_ok :
      (path : Text) (paths : List Text) (s s' : State)
      → create_dirs fs (path ∷ paths) s ≡ (true, s')
      → (s1 : State) × (create_dir fs path s ≡ (true, s1)) × (create_dirs fs paths s1 ≡ (true, s'))
  unfolding create_dirs
  first_ok path paths s s' e = ((create_dir fs path s).1, ground arith, ground arith)

  create_dirs-keeps :
      (paths : List Text) (other : Text) (s s' : State)
      → create_dirs fs paths s ≡ (true, s')
      → IsThere s other
      → IsThere s' other
  unfolding create_dirs
  create_dirs-keeps [] other s s' e h = subst (λ s. IsThere s other) (ap (λ r. r.1) e) h
  create_dirs-keeps (path ∷ paths) other s s' e h =
      let (s1, first, rest) = first_ok path paths s s' e in
      create_dirs-keeps paths other s1 s' rest (create_dir-keeps path other s s1 first h)

  create_dirs-IsThere :
      (paths : List Text) (s s' : State)
      → create_dirs fs paths s ≡ (true, s')
      → All (IsThere s') paths
  create_dirs-IsThere [] s s' e = tt
  create_dirs-IsThere (path ∷ paths) s s' e =
      let (s1, first, rest) = first_ok path paths s s' e in
      (
        create_dirs-keeps paths path s1 s' rest (create_dir-IsThere path s s1 first),
        create_dirs-IsThere paths s1 s' rest,
      )

  create_dirs_nothing :
      (paths : List Text) (s : State) → All (IsThere s) paths → create_dirs fs paths s ≡ (true, s)
  unfolding create_dirs create_dir
  create_dirs_nothing [] s h = refl
  create_dirs_nothing (path ∷ paths) s (there, h) =
      let rest = create_dirs_nothing paths s h in ground (arith, rest)

  -- A set-up that succeeds leaves every path there, and another one behind it succeeds and changes
  -- nothing; a path where a file stood counts as there.
  pub setup_data_dir_again :
      (join : Text → Text → Text) (data_dir : Text) (paths : List Text) (s s' : State)
      → setup_data_dir fs join data_dir paths s ≡ (true, s')
      → All (IsThere s') (data_dir ∷ joined fs join data_dir paths)
        × (setup_data_dir fs join data_dir paths s' ≡ (true, s'))
  unfolding setup_data_dir
  setup_data_dir_again join data_dir paths s s' e =
      let there = create_dirs-IsThere (data_dir ∷ joined fs join data_dir paths) s s' e in
      (there, create_dirs_nothing (data_dir ∷ joined fs join data_dir paths) s' there)
