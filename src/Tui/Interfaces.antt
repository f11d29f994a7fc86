-- ===== src/Tui/Interfaces.antt =====
-- What `DinixApp` (tui/src/dinix_tui/app.py) uses: a client of dinit, and its host, which has the file
-- system, the processes and the optional rebuilder. Both are parameters of the worker.
use dinix.Shared.{Bool, true, false, Option, List}
use dinix.Shared.Int.{ℤ}
use dinix.Exceptions.{
  Exception, Result, dinit_error, connection_closed, protocol_error, command_rejected, bad_request,
  out_of_memory, shutting_down, pinned, dependents, service_not_found, service_load_error,
  service_description_error, signal_not_delivered, rebuild_error, os_error, file_not_found,
  file_exists,
}
use dinix.Struct.{Bytes}
use dinix.Utf8.{Str}
use dinix.Protocol.Records.{ServiceRecord, ServiceStatus, LoaderMech}
use dinix.Tui.Act.{Act}
use dinix.Tui.State.{App}

-- The methods of `DinitClient` that the application awaits.
pub record Dinit : Type 1 where
  pub State : Type 0
  pub query_load_mech : Act State LoaderMech
  pub list_services : Act State (List (Str × ServiceStatus))
  pub load : Str → Act State ServiceRecord
  pub start : Str → Act State (Unit {0})
  -- `stop(service, force=True)`
  pub force_stop : Str → Act State (Unit {0})
  pub restart : Str → Act State (Unit {0})
  pub reload : Str → Act State (Unit {0})
  -- `catlog(service, clear=…)`
  pub catlog : Str → Bool → Act State Bytes

-- A finished process: the chunks of its two streams as they were received, and its exit code.
pub record Process : Type 0 where
  pub stdout : List Bytes
  pub stderr : List Bytes
  pub code : ℤ

pub record Host : Type 1 where
  pub State : Type 0
  pub is_dir : Str → State → Bool
  -- `iterdir`, the names of the entries, and `is_file` of an entry of a directory
  pub iterdir : Str → Act State (List Str)
  pub is_file : Str → Str → State → Bool
  -- `mkdir(parents=True, exist_ok=True)`
  pub mkdir : Str → Act State (Unit {0})
  pub unlink : Str → Act State (Unit {0})
  -- `path.symlink_to(target)` and `path.rename(target)`, path first
  pub symlink_to : Str → Str → Act State (Unit {0})
  pub rename : Str → Str → Act State (Unit {0})
  -- `sh -c command`
  pub run : Str → Act State Process
  -- the `rebuilder` that `DinixApp` was made with
  pub rebuilder : Option (Act State Str)
  -- `raw.decode("utf-8", "replace")`
  pub decode_replace : Bytes → Str

-- The application beside the client and the host.
pub record World (D : Dinit) (H : Host) : Type 0 where
  pub app : App
  pub dinit : D.State
  pub host : H.State

module _ {D : Dinit} {H : Host} {A : Type 0} where
  abbrev with_dinit : World D H → Result A × D.State → Result A × World D H
  with_dinit w (r, d) = (r, record w { dinit = d })

  abbrev with_host : World D H → Result A × H.State → Result A × World D H
  with_host w (r, h) = (r, record w { host = h })

  -- `await client.method(…)`, and the same on the host.
  unfoldable pub on_dinit : Act D.State A → Act (World D H) A
  on_dinit m w = with_dinit w (m w.dinit)

  unfoldable pub on_host : Act H.State A → Act (World D H) A
  on_host m w = with_host w (m w.host)

-- The exceptions that are a `DinitError`, an `OSError`.
abbrev pub is_dinit_error : Exception → Bool
is_dinit_error dinit_error = true
is_dinit_error connection_closed = true
is_dinit_error protocol_error = true
is_dinit_error command_rejected = true
is_dinit_error bad_request = true
is_dinit_error out_of_memory = true
is_dinit_error shutting_down = true
is_dinit_error pinned = true
is_dinit_error (dependents handles) = true
is_dinit_error service_not_found = true
is_dinit_error service_load_error = true
is_dinit_error service_description_error = true
is_dinit_error signal_not_delivered = true
is_dinit_error _ = false

abbrev pub is_os_error : Exception → Bool
is_os_error os_error = true
is_os_error file_not_found = true
is_os_error file_exists = true
is_os_error _ = false

abbrev pub is_file_not_found : Exception → Bool
is_file_not_found file_not_found = true
is_file_not_found _ = false

abbrev pub is_command_rejected : Exception → Bool
is_command_rejected command_rejected = true
is_command_rejected _ = false

abbrev pub is_rebuild_error : Exception → Bool
is_rebuild_error rebuild_error = true
is_rebuild_error _ = false
