-- ===== src/Protocol/Records.antt =====
-- The decoded values: the data classes of dinit-client/src/dinit_client/protocol.py.
use dinix.Shared.{ℕ, Bool, not, Option, List, ◌==◌, bit_and}
use dinix.Shared.Int.{ℤ}
use dinix.Struct.{Bytes}
use dinix.Utf8.{Str}
use dinix.Protocol.Enums.{ServiceState, StoppedReason, ServiceEvent, LoaderType}

abbrev pub flag_waiting_for_console : ℕ
flag_waiting_for_console = 0x01

abbrev pub flag_has_console : ℕ
flag_has_console = 0x02

abbrev pub flag_start_skipped : ℕ
flag_start_skipped = 0x04

abbrev pub flag_marked_active : ℕ
flag_marked_active = 0x08

abbrev pub flag_has_pid : ℕ
flag_has_pid = 0x10

-- `bool(flags & bit)`
abbrev pub has_flag : ℕ → ℕ → Bool
has_flag flags bit = not (bit_and flags bit == 0)

pub record Version : Type 0 where
  pub min_compat : ℕ
  pub protocol : ℕ

pub record ServiceRecord : Type 0 where
  pub state : ServiceState
  pub handle : ℕ
  pub target_state : ServiceState

-- The float `whole + part / divisor`, by what it is computed from; the rounding is not modelled.
pub record FloatSum : Type 0 where
  pub whole : ℤ
  pub part : ℤ
  pub divisor : ℕ

pub record ServiceStatus : Type 0 where
  pub state : ServiceState
  pub target_state : ServiceState
  pub flags : ℕ
  pub stop_reason : StoppedReason
  pub pid : Option ℤ
  pub si_code : Option ℤ
  pub si_status : Option ℤ
  pub exit_status : Option ℤ
  pub exec_stage : Option ℕ
  pub exec_errno : Option ℤ
  pub mod_time : Option FloatSum

unfoldable pub active : ServiceStatus → Bool
active status = has_flag status.flags flag_marked_active

unfoldable pub has_pid : ServiceStatus → Bool
has_pid status = has_flag status.flags flag_has_pid

pub record LoaderMech : Type 0 where
  pub loader_type : LoaderType
  pub cwd : Str
  pub dirs : List Str

pub record ServiceLog : Type 0 where
  pub flags : ℕ
  pub content : Bytes

pub record ServiceEventInfo : Type 0 where
  pub handle : ℕ
  pub event : ServiceEvent
  pub status : ServiceStatus

pub record EnvEvent : Type 0 where
  pub name : Str
  pub overridden : Bool

pub data Event : Type 0 where
  service_event : ServiceEventInfo → Event
  env_event : EnvEvent → Event
