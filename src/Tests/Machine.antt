-- ===== src/Tests/Machine.antt =====
-- A client and a host for the worker of tui/src/dinix_tui/app.py: a client that notes the names it is
-- called with, and a file system that maps paths to what stands under them.
use dinix.Shared.{refl, sym, ap, false, Option, none, some, List, [], ◌∷◌, if◌then◌else◌}
use dinix.Shared.Int.{pos}
use dinix.Shared.Dict.{key_eq}
use dinix.Exceptions.{Result, ok, err, service_not_found, file_not_found, file_exists}
use dinix.Utf8.{Str}
use dinix.Protocol.Enums.{ServiceState, StoppedReason, LoaderType}
use dinix.Protocol.Records.{ServiceStatus, LoaderMech}
use dinix.Tui.Interfaces.{Dinit, Process, Host}
use dinix.Tui.Text.{child}
use dinix.Tui.Directory.{Node, link, Directory}
use dinix.Tests.Daemon.{db_record}

-- "db" and "w"
abbrev pub db : Str
db = 100 ∷ 98 ∷ []

abbrev pub w_name : Str
w_name = 119 ∷ []

abbrev pub up_status : ServiceStatus
up_status = record {
  state = ServiceState.started;
  target_state = ServiceState.started;
  flags = 0x10;
  stop_reason = StoppedReason.normal;
  pid = some (pos 42);
  si_code = none;
  si_status = none;
  exit_status = none;
  exec_stage = none;
  exec_errno = none;
  mod_time = none;
}

abbrev mech : LoaderMech
mech = record { loader_type = LoaderType.dirload; cwd = []; dirs = [] }

-- Only `db` can be reloaded.
abbrev pub noting : Dinit
noting = record {
  State = List Str;
  query_load_mech = λ d. (ok mech, d);
  list_services = λ d. (ok ((db, up_status) ∷ []), d);
  load = λ name d. (ok db_record, name ∷ d);
  start = λ name d. (ok tt, name ∷ d);
  force_stop = λ name d. (ok tt, name ∷ d);
  restart = λ name d. (ok tt, name ∷ d);
  reload = λ name d. (if key_eq name db then ok tt else err service_not_found, name ∷ d);
  catlog = λ name clear d. (ok [], d);
}

abbrev pub Files : Type 0
Files = Str → Option Node

abbrev put : Str → Option Node → Files → Files
put path node files q = if key_eq q path then node else files q

abbrev unlinked : Str → Option Node → Files → Result (Unit {0}) × Files
unlinked path none files = (err file_not_found, files)
unlinked path (some node) files = (ok tt, put path none files)

abbrev linked : Str → Str → Option Node → Files → Result (Unit {0}) × Files
linked path target none files = (ok tt, put path (some (link target)) files)
linked path target (some node) files = (err file_exists, files)

abbrev renamed : Str → Str → Option Node → Files → Result (Unit {0}) × Files
renamed path target none files = (err file_not_found, files)
renamed path target (some node) files = (ok tt, put target (some node) (put path none files))

-- A host whose command has this outcome.
abbrev pub memory : Process → Host
memory process = record {
  State = Files;
  is_dir = λ path files. false;
  iterdir = λ path files. (ok [], files);
  is_file = λ directory name files. false;
  mkdir = λ path files. (ok tt, files);
  unlink = λ path files. unlinked path (files path) files;
  symlink_to = λ path target files. linked path target (files path) files;
  rename = λ path target files. renamed path target (files path) files;
  run = λ command files. (ok process, files);
  rebuilder = none;
  decode_replace = λ raw. raw;
}

-- "/r"
abbrev pub runtime : Str
runtime = b'/' ∷ b'r' ∷ []

unfoldable pub memory_Directory : (process : Process) → Directory (memory process) runtime
unfolding child key_eq
memory_Directory process = record {
  Exists = λ files. Unit {0};
  node = λ files name. files (child runtime name);
  makes =
      λ h h' e. (tt, λ q _. ap (λ (r : Result (Unit {0}) × Files). r.1 (child runtime q)) (sym e));
  unlinks = λ name target h x n e. (put (child runtime name) none h, rw e, tt, λ q _. refl);
  unlinks_none = λ name h x n e. rw e;
  links = λ name target h x n e.
      (put (child runtime name) (some (link target)) h, rw e, tt, λ q _. refl);
  renames = λ name to target h x n m e _. (
    put (child runtime to) (some (link target)) (put (child runtime name) none h),
    rw e,
    λ q _. refl,
  );
}
