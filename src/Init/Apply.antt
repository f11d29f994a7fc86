-- ===== src/Init/Apply.antt =====
-- `apply` and `main` of dinix-init/src/main.rs: the steps of a spec, one after the other, on a file
-- system that is a parameter. What is printed is left out; a message is what it is made of.
pub mod Rejecting
pub mod Again
use dinix.Shared.{
  ℕ, Bool, true, not, ◌&&◌, Option, none, some, List, [], ◌∷◌, ◌==◌, bit_and, if◌then◌else◌,
}
use dinix.Utf8.{Str}
use dinix.Init.Outcome.{Outcome, ok, err}
use dinix.Init.Expand.{Alphabet}
use dinix.Init.Spec.{Kind, any, file, Step, must_exist, ParseError, parse_with}

-- What the code reads of `fs::Metadata`.
pub record Metadata : Type 0 where
  pub is_dir : Bool
  pub is_file : Bool
  pub is_symlink : Bool
  pub mode : ℕ
  pub uid : ℕ
  pub gid : ℕ

pub record FileSystem : Type 1 where
  pub State : Type 0
  pub Error : Type 0
  -- `error.kind() == NotFound`
  pub is_not_found : Error → Bool
  pub read_to_string : Str → State → Outcome Error Str
  pub create_dir_all : Str → State → Outcome Error (Unit {0}) × State
  pub symlink_metadata : Str → State → Outcome Error Metadata
  -- follows symlinks
  pub metadata : Str → State → Outcome Error Metadata
  pub set_permissions : Str → ℕ → State → Outcome Error (Unit {0}) × State
  pub chown : Str → Option ℕ → Option ℕ → State → Outcome Error (Unit {0}) × State

-- The errors of `apply`.
pub data Failure (F : FileSystem) : Type 0 where
  creating checking setting_mode setting_owner : Str → F.Error → Failure F
  found_symlink found_no_directory missing : Str → Failure F
  wrong_kind : Str → Kind → Failure F

-- An action on the file system.
abbrev pub Run : FileSystem → Type 0
Run F = F.State → Outcome (Failure F) (Unit {0}) × F.State

abbrev pub is_none_or : Option ℕ → ℕ → Bool
is_none_or none current = true
is_none_or (some wanted) current = current == wanted

unfoldable pub owner_matches : ℕ → ℕ → Option ℕ → Option ℕ → Bool
owner_matches current_uid current_gid want_uid want_gid =
    is_none_or want_uid current_uid && is_none_or want_gid current_gid

abbrev pub mode_bits : ℕ
mode_bits = 0xFFF

unfoldable pub is_kind : Kind → Metadata → Bool
is_kind any found = true
is_kind Kind.dir found = found.is_dir
is_kind file found = found.is_file

module _ (F : FileSystem) where
  abbrev pub succeed : Run F
  succeed s = (ok tt, s)

  abbrev pub fail : Failure F → Run F
  fail e s = (err e, s)

  -- An action, with `map_err` and `?`, and what follows it.
  abbrev pub then_run :
      (F.Error → Failure F)
      → Run F
      → Outcome F.Error (Unit {0}) × F.State
      → Outcome (Failure F) (Unit {0}) × F.State
  then_run message next (ok x, s) = next s
  then_run message next (err e, s) = fail (message e) s

  -- A question, with `map_err` and `?`, and what follows it.
  abbrev pub then_ask :
      (F.Error → Failure F) → (Metadata → Run F) → Outcome F.Error Metadata → Run F
  then_ask message next (ok m) s = next m s
  then_ask message next (err e) s = fail (message e) s

  unfoldable pub set_owner : Str → Option ℕ → Option ℕ → Metadata → Run F
  unfolding owner_matches
  set_owner path uid gid current s =
      if owner_matches current.uid current.gid uid gid
      then succeed s
      else then_run (setting_owner path) succeed (F.chown path uid gid s)

  -- The mode, and then the owner, of a directory.
  unfoldable pub set_mode : Str → ℕ → Option ℕ → Option ℕ → Metadata → Run F
  unfolding set_owner
  set_mode path mode uid gid current s =
      if bit_and current.mode mode_bits == mode
      then set_owner path uid gid current s
      else then_run (setting_mode path) (set_owner path uid gid current)
          (F.set_permissions path mode s)

  -- What `symlink_metadata` has found.
  unfoldable pub check_found : Str → ℕ → Option ℕ → Option ℕ → Metadata → Run F
  unfolding set_mode
  check_found path mode uid gid found s =
      if found.is_symlink
      then fail (found_symlink path) s
      else if not found.is_dir
      then fail (found_no_directory path) s
      else then_ask (checking path) (set_mode path mode uid gid) (F.metadata path s) s

  unfoldable pub check_kind : Str → Kind → Outcome F.Error Metadata → Run F
  unfolding is_kind
  check_kind path kind (ok found) s =
      if is_kind kind found then succeed s else fail (wrong_kind path kind) s
  check_kind path kind (err e) s =
      if F.is_not_found e then fail (missing path) s else fail (checking path e) s

  unfoldable pub apply : Step → Run F
  unfolding check_found check_kind
  apply (Step.dir path mode uid gid) s =
      then_run (creating path)
        (λ s.
          then_ask (checking path) (check_found path mode uid gid) (F.symlink_metadata path s) s)
        (F.create_dir_all path s)
  apply (must_exist path kind) s = check_kind path kind (F.metadata path s) s

pub data ExitCode : Type 0 where
  success failure : ExitCode

module _ (F : FileSystem) where
  abbrev pub after_step :
      (F.State → ExitCode × F.State) → Outcome (Failure F) (Unit {0}) × F.State → ExitCode × F.State
  after_step next (ok x, s) = next s
  after_step next (err e, s) = (failure, s)

  -- The loop of `main`.
  unfoldable pub apply_steps : List Step → F.State → ExitCode × F.State
  unfolding apply
  apply_steps [] s = (success, s)
  apply_steps (step ∷ steps) s = after_step (apply_steps steps) (apply F step s)

  abbrev pub with_steps : Outcome ParseError (List Step) → F.State → ExitCode × F.State
  with_steps (ok steps) s = apply_steps steps s
  with_steps (err e) s = (failure, s)

module _ (F : FileSystem) (alphabet : Alphabet) (lookup : Str → Option Str) where
  abbrev pub with_source : Outcome F.Error Str → F.State → ExitCode × F.State
  with_source (ok source) s = with_steps F (parse_with alphabet lookup source) s
  with_source (err e) s = (failure, s)

  -- `main`, on the arguments behind the name of the program.
  unfoldable pub main : List Str → F.State → ExitCode × F.State
  unfolding apply_steps parse_with
  main (spec_path ∷ []) s = with_source (F.read_to_string spec_path s) s
  main args s = (failure, s)
