-- ===== src/Helper/Files/Keys.antt =====
-- A key that was created once is the one that is read from then on.
use event_pool.Prelude.{
  ◌≡◌, refl, ap, subst, sym, ◌∙◌, ◌⊎◌, inl, inr, Bool, true, false, Option, none, some, All, arith,
}
use event_pool.Text.{Text}
use event_pool.Hex.{encode_to_string, decode_string}
use event_pool.Hex.Bytes.{IsByte, decode_string-encode_to_string}
use event_pool.Helper.Files.{FileSystem, FileLaws, present, absent, write_key, create_if_not_exists}

module _ (fs : FileSystem) (laws : FileLaws fs) where
  open fs use {State, stat, read_file, write_file}

  -- How a key came to be returned: it was there, or it was created and written.
  created_of :
      (path : Text) (created : Option Text) (s s' : State) (key : Text)
      → create_if_not_exists fs path created s ≡ (some key, s')
      → ((is_dir : Bool) × (stat path s ≡ present is_dir)
          × (read_file path s ≡ some key)
          × (s ≡ s'))
        ⊎ ((stat path s ≡ absent)
            × (raw : Text) × (created ≡ some raw)
            × (key ≡ encode_to_string raw)
            × ((write_file path (encode_to_string raw) s) ≡ (true, s')))
  unfolding create_if_not_exists write_key
  created_of path created s s' key e = ground arith

  abbrev pub AreBytes : Option Text → Type 0
  AreBytes none = Unit
  AreBytes (some raw) = All IsByte raw

  -- A call that returns a key returns the content of the file that was there, or one that decodes from
  -- hexadecimal to what `create` gave; any call behind it, whatever `create` would give then, returns
  -- the same key, and changes nothing.
  pub create_if_not_exists_again :
      (path : Text) (created other : Option Text) (s s' : State) (key : Text)
      → AreBytes created
      → create_if_not_exists fs path created s ≡ (some key, s')
      → ((read_file path s ≡ some key)
          ⊎ ((raw : Text) × (created ≡ some raw)
              × (decode_string key ≡ record { content = raw; failed = false })))
        × (create_if_not_exists fs path other s' ≡ (some key, s'))
  unfolding create_if_not_exists
  create_if_not_exists_again path created other s s' key small e =
      elim (created_of path created s s' key e) [
        | inl (is_dir, there, read, same) ↦ (
          inl read,
          subst (λ s'. create_if_not_exists fs path other s' ≡ (some key, s')) same
              (rw (there, read, create_if_not_exists) refl),
        )
        | inr (missing, raw, gave, hex, wrote) ↦
            let whole = decode_string-encode_to_string raw (subst AreBytes gave small) in
            let ok : (write_file path (encode_to_string raw) s).0 ≡ true = ap (λ r. r.0) wrote in
            let after : (write_file path (encode_to_string raw) s).1 ≡ s' = ap (λ r. r.1) wrote in
            let there : stat path s' ≡ present false =
              ap (stat path) (sym after) ∙ laws.stat-write path (encode_to_string raw) s ok in
            let read : read_file path s' ≡ some key =
              ap (read_file path) (sym after)
              ∙ laws.read-write path (encode_to_string raw) s ok
              ∙ ap some (sym hex) in
            (
              inr (raw, gave, ap decode_string hex ∙ whole),
              rw (there, read, create_if_not_exists) refl,
            )
      ]
