-- ===== src/Tui/Reload.antt =====
-- `_nix_reload`, `_rebuild` and `_point_at` of tui/src/dinix_tui/app.py.
use dinix.Shared.{
  ℕ, ◌+◌, Bool, true, false, not, Option, none, some, List, [], ◌∷◌, ◌++◌, ◌==◌, if◌then◌else◌,
}
use dinix.Shared.Int.{ℤ, pos, negsuc}
use dinix.Exceptions.{Exception, Result, ok, err, rebuild_error}
use dinix.Struct.{Bytes}
use dinix.Utf8.{Str}
use dinix.Protocol.Enums.{ServiceState}
use dinix.Protocol.Records.{ServiceStatus, ServiceRecord}
use dinix.Tui.Act.{Act, pure, raise, lift, gets, try, ◌>>=◌, ◌>>◌, modify, for_each}
use dinix.Tui.State.{
  Line, running_rebuild, adopted, loaded_new, reload_failed, reloaded, restarted, restart_failed,
  no_runtime_dir, plain, rebuilding, reload_complete, Output, log, notify, emit, contains,
}
use dinix.Tui.Interfaces.{Dinit, Host, World, on_dinit, on_host, is_dinit_error, is_file_not_found}
use dinix.Tui.Text.{strip, splitlines, sorted, child, last}
use dinix.Tui.Handles.{assign, values}

module _ {D : Dinit} {H : Host} where
  abbrev pub output : Output → Act (World D H) (Unit {0})
  output o = modify (λ w. record w { app = emit o w.app })

  -- `self._handle_names[record.handle] = name`
  abbrev pub remember : ServiceRecord → Str → Act (World D H) (Unit {0})
  remember r name = modify (λ w. record w {
    app = record w.app { handle_names = assign r.handle name w.app.handle_names };
  })

-- The entries of a directory that are files, of `_names_in`.
unfoldable pub filter_files : (Str → Bool) → List Str → List Str
filter_files keep [] = []
filter_files keep (n ∷ ns) = if keep n then n ∷ filter_files keep ns else filter_files keep ns

module _ {D : Dinit} {H : Host} where
  unfoldable pub names_in : Str → Act (World D H) (List Str)
  unfolding filter_files sorted
  names_in directory = do
    names ← on_host (H.iterdir directory)
    files ← gets (λ w. filter_files (λ n. H.is_file directory n w.host) names)
    pure (sorted files)

-- `current`, and `services`, `.new`.
abbrev pub pointer_name : Str
pointer_name = b'c' ∷ b'u' ∷ b'r' ∷ b'r' ∷ b'e' ∷ b'n' ∷ b't' ∷ []

abbrev pub services_name : Str
services_name = b's' ∷ b'e' ∷ b'r' ∷ b'v' ∷ b'i' ∷ b'c' ∷ b'e' ∷ b's' ∷ []

abbrev pub temporary_name : Str
temporary_name = pointer_name ++ (b'.' ∷ b'n' ∷ b'e' ∷ b'w' ∷ [])

-- The awaits of `_point_at` on the file system, in order.
module _ (H : Host) where
  unfoldable pub point_steps : Str → Str → List (Act H.State (Unit {0}))
  unfolding child
  point_steps runtime services =
      let pointer = child runtime pointer_name in
      let temporary = child runtime temporary_name in
      H.mkdir runtime
      ∷ try is_file_not_found (H.unlink temporary) (λ e. pure tt)
      ∷ H.symlink_to temporary services
      ∷ H.rename temporary pointer
      ∷ []

  unfoldable pub run_steps : List (Act H.State (Unit {0})) → Act H.State (Unit {0})
  run_steps [] = pure tt
  run_steps (m ∷ ms) = m >> run_steps ms

-- A text in front of others, unless it is empty.
abbrev pub nonempty_onto : Str → List Str → List Str
nonempty_onto [] rest = rest
nonempty_onto (c ∷ s) rest = (c ∷ s) ∷ rest

-- `paths` of `_rebuild`: the lines of a chunk that are not blank, without the space round them.
unfoldable pub nonblank : List Str → List Str
unfolding strip
nonblank [] = []
nonblank (l ∷ ls) = nonempty_onto (strip l) (nonblank ls)

module _ (H : Host) where
  unfoldable pub chunk_lines : List Bytes → List Str
  unfolding splitlines
  chunk_lines [] = []
  chunk_lines (raw ∷ raws) = splitlines (H.decode_replace raw) ++ chunk_lines raws

-- `nix| `
abbrev pub nix_prefix : Str
nix_prefix = b'n' ∷ b'i' ∷ b'x' ∷ b'|' ∷ b' ' ∷ []

is_zero : ℤ → Bool
is_zero (pos n) = n == 0
is_zero (negsuc n) = false

-- What `_rebuild` makes of a process that has ended.
unfoldable pub build_result : ℤ → List Str → Result Str
unfolding is_zero
build_result code paths =
    if not (is_zero code)
    then err rebuild_error
    else elim (last paths) [ none ↦ err rebuild_error | some path ↦ ok path ]

module _ {D : Dinit} {H : Host} where
  unfoldable pub run_command : Str → Act (World D H) Str
  unfolding nonblank chunk_lines build_result
  run_command command = do
    process ← on_host (H.run command)
    for_each (chunk_lines H process.stderr) (λ line. output (log (plain nix_prefix line)))
    lift (build_result process.code (nonblank (chunk_lines H process.stdout)))

  unfoldable pub by_command : Option Str → Act (World D H) Str
  by_command none = raise rebuild_error
  by_command (some command) = run_command command

  unfoldable pub rebuild_with : Option (Act H.State Str) → Act (World D H) Str
  unfolding by_command
  rebuild_with (some rebuilder) = on_host rebuilder
  rebuild_with none = do command ← gets (λ w. w.app.nix_command); by_command command

  unfoldable pub rebuild : Act (World D H) Str
  unfolding rebuild_with
  rebuild = rebuild_with H.rebuilder

  unfoldable pub point_in : Str → Option Str → Act (World D H) (Unit {0})
  unfolding point_steps run_steps
  point_in services none = output (log no_runtime_dir)
  point_in services (some runtime) = on_host (run_steps H (point_steps H runtime services))

  unfoldable pub point_at : Str → Act (World D H) (Unit {0})
  unfolding point_in
  point_at services = do runtime ← gets (λ w. w.app.runtime_dir); point_in services runtime

  -- A call of the client that may raise a `DinitError`, which is logged; whether it returned.
  unfoldable pub attempt : Act (World D H) (Unit {0}) → (Exception → Line) → Act (World D H) Bool
  attempt m line = try is_dinit_error (m >> pure true) (λ e. output (log (line e)) >> pure false)

  -- The loop over the names of the build: those that are not known are loaded.
  unfoldable pub load_new : List Str → List Str → Act (World D H) (Unit {0})
  unfolding contains
  load_new known [] = pure tt
  load_new known (name ∷ names) = do
    if contains known name
        then pure tt
        else (do r ← on_dinit (D.load name); remember r name; output (log (loaded_new name)))
    load_new known names

  -- The loop that reloads, with the count so far.
  unfoldable pub reload_each : List Str → ℕ → Act (World D H) ℕ
  unfolding attempt
  reload_each [] count = pure count
  reload_each (name ∷ names) count = do
    done ← attempt (on_dinit (D.reload name)) (reload_failed name)
    reload_each names (if done then count + 1 else count)

  unfoldable pub restart_each : List Str → Act (World D H) (Unit {0})
  unfolding attempt
  restart_each [] = pure tt
  restart_each (name ∷ names) = do
    done ←
        attempt (on_dinit (D.restart name) >> output (log (restarted name))) (restart_failed name)
    restart_each names

-- The names of the services that are started.
abbrev is_started : ServiceState → Bool
is_started ServiceState.started = true
is_started _ = false

unfoldable pub started_names : List (Str × ServiceStatus) → List Str
started_names [] = []
started_names ((name, status) ∷ services) =
    if is_started status.state then name ∷ started_names services else started_names services

module _ {D : Dinit} {H : Host} where
  -- What a build has to have: its directory, with the services in it.
  unfoldable pub find_services : Act (World D H) (Str × Str)
  unfolding rebuild child
  find_services = do
    output (notify rebuilding)
    output (log running_rebuild)
    config_dir ← rebuild
    found ← gets (λ w. H.is_dir (child config_dir services_name) w.host)
    if found then pure (config_dir, child config_dir services_name) else raise rebuild_error

  unfoldable pub restart_started : Act (World D H) (Unit {0})
  unfolding started_names sorted restart_each
  restart_started = do
    services ← on_dinit D.list_services
    restart_each (sorted (started_names services))

  unfoldable pub nix_reload : Bool → Act (World D H) (Unit {0})
  unfolding find_services names_in load_new reload_each restart_started values sorted
  nix_reload restart_running = do
    build ← find_services
    point_at build.1
    output (log (adopted build.0))
    known ← gets (λ w. values w.app.handle_names)
    names ← names_in build.1
    load_new known (sorted names)
    all ← gets (λ w. values w.app.handle_names)
    count ← reload_each (sorted all) 0
    output (log (reloaded count))
    if restart_running then restart_started else pure tt
    output (notify reload_complete)
