-- ===== src/Init/Apply/Again.antt =====
-- A step of dinix-init/src/main.rs that is applied once more, and the laws of the file system for it.
use dinix.Shared.{ℕ, ◌≡◌, true, false, Option, none, some, bit_and}
use dinix.Utf8.{Str}
use dinix.Init.Outcome.{Outcome, ok}
use dinix.Init.Apply.{
  FileSystem, Metadata, check_found, owner_matches, mode_bits, then_ask, Run, checking,
}

-- The directory with another mode, and with other owners.
abbrev pub owner_of : Option ℕ → ℕ → ℕ
owner_of none current = current
owner_of (some wanted) current = wanted

-- What POSIX has of a directory `path` that is no symlink, when these calls succeed: of a mode
-- `mode_bits` are set, and an owner that is not named stays.
pub record Laws (F : FileSystem) (path : Str) : Type 0 where
  pub there :
      (s : F.State) (m : Metadata)
      → F.symlink_metadata path s ≡ ok m
      → m.is_symlink ≡ false
      → m.is_dir ≡ true
      → (F.create_dir_all path s ≡ (ok tt, s)) × (F.metadata path s ≡ ok m)
  pub permissions :
      (mode : ℕ) (s s' : F.State) (m : Metadata)
      → F.symlink_metadata path s ≡ ok m
      → F.set_permissions path mode s ≡ (ok tt, s')
      → (n : ℕ) × (F.symlink_metadata path s' ≡ ok (record m { mode = n }))
        × (bit_and n mode_bits ≡ bit_and mode mode_bits)
  pub owners :
      (uid gid : Option ℕ) (s s' : F.State) (m : Metadata)
      → F.symlink_metadata path s ≡ ok m
      → F.chown path uid gid s ≡ (ok tt, s')
      → F.symlink_metadata path s'
        ≡ ok (record m { uid = owner_of uid m.uid; gid = owner_of gid m.gid })

-- An owner that is named is the one found.
abbrev pub IsOwner : Option ℕ → ℕ → Type 0
IsOwner none found = Unit {0}
IsOwner (some wanted) found = found ≡ wanted

-- The directory is as the step has it.
pub record Settled (F : FileSystem) (path : Str) (mode : ℕ) (uid gid : Option ℕ) (s : F.State)
    : Type 0 where
  pub found : Metadata
  pub asking : F.symlink_metadata path s ≡ ok found
  pub no_link : found.is_symlink ≡ false
  pub directory : found.is_dir ≡ true
  pub has_mode : bit_and found.mode mode_bits ≡ mode
  pub has_owner : owner_matches found.uid found.gid uid gid ≡ true

module _ (F : FileSystem) (path : Str) (laws : Laws F path) (mode : ℕ) (uid gid : Option ℕ)
    (s' : F.State) where
  -- Behind `create_dir_all`.
  abbrev created_run : Run F
  created_run s =
      then_ask F (checking path) (check_found F path mode uid gid) (F.symlink_metadata path s) s
