-- ===== src/Protocol/Replies.antt =====
-- The decoders of reply and information packets: `decode_version` to `decode_env_event` of
-- dinit-client/src/dinit_client/protocol.py.
pub mod Status
pub mod Bounds
pub mod Loader
pub mod Environment
pub mod Events
pub mod Decoding
use dinix.Shared.{
  ℕ, zero, suc, ◌+◌, ◌-◌, ◌*◌, Bool, true, false, not, Option, none, some, List, [], ◌∷◌, ◌++◌,
  reverse, ltb, leb, ◌==◌, if◌then◌else◌, length, slice, drop,
}
use dinix.Shared.Int.{ℤ, pos, ◌+ℤ◌, scale}
use dinix.Shared.Dict.{Key, insert, key_eq}
use dinix.Exceptions.{Result, ok, err, ◌>>=◌, ◌>>◌}
use dinix.Struct.{Abi, Bytes, unpack_from, unpack_signed_from, byte_at}
use dinix.Utf8.{Str, decode}
use dinix.Protocol.Enums.{
  from_value, ServiceState, StoppedReason, ServiceEvent, LoaderType, service_state_enum,
  stopped_reason_enum, service_event_enum, loader_type_enum,
}
use dinix.Protocol.Records.{
  Version, ServiceRecord, ServiceStatus, LoaderMech, ServiceLog, ServiceEventInfo, EnvEvent,
  flag_has_pid, has_flag, FloatSum,
}
use dinix.Protocol.Requests.{status5_size}

-- The fields of a status whose presence depends on the state of the process.
pub record Process : Type 0 where
  pub pid : Option ℤ
  pub si_code : Option ℤ
  pub si_status : Option ℤ
  pub exit_status : Option ℤ
  pub exec_stage : Option ℕ
  pub exec_errno : Option ℤ

abbrev pub no_process : Process
no_process = record {
  pid = none;
  si_code = none;
  si_status = none;
  exit_status = none;
  exec_stage = none;
  exec_errno = none;
}

-- `stop_reason == StoppedReason.EXECFAILED`
unfoldable pub is_execfailed : StoppedReason → Bool
is_execfailed StoppedReason.execfailed = true
is_execfailed _ = false

abbrev pub nanoseconds_per_second : ℕ
nanoseconds_per_second = 1_000_000_000

-- `entry.decode().partition("=")`: the name and the value.
unfoldable pub partition : Str → Str × Str
partition [] = ([], [])
partition (c ∷ s) =
    let (name, value) = partition s in if c == b'=' then ([], s) else (c ∷ name, value)

-- `block.split(b"\0")`
prepend : ℕ → List Bytes → List Bytes
prepend b [] = (b ∷ []) ∷ []
prepend b (entry ∷ entries) = (b ∷ entry) ∷ entries

unfoldable pub split : Bytes → List Bytes
unfolding prepend
split [] = [] ∷ []
split (b ∷ bs) = let rest = split bs in if b == 0 then [] ∷ rest else prepend b rest

-- The loop over the entries of the block.
unfoldable pub add_entries : List Bytes → List (Str × Str) → Result (List (Str × Str))
add_entries [] env = ok env
add_entries ([] ∷ entries) env = add_entries entries env
add_entries ((b ∷ entry) ∷ entries) env = do
  text ← decode (b ∷ entry)
  let (name, value) = partition text
  add_entries entries (insert name value env)

-- `raw.rstrip(b"\0")`
strip_front : Bytes → Bytes
strip_front [] = []
strip_front (b ∷ bs) = if b == 0 then strip_front bs else b ∷ bs

unfoldable pub rstrip : Bytes → Bytes
unfolding strip_front
rstrip raw = reverse (strip_front (reverse raw))

module _ (abi : Abi) where
  unfoldable pub decode_version : Bytes → Result Version
  decode_version buf = do
    min_compat ← unpack_from abi 2 buf 0
    protocol ← unpack_from abi 2 buf 2
    ok (record { min_compat = min_compat; protocol = protocol })

  unfoldable pub decode_service_record : Bytes → Result ServiceRecord
  decode_service_record buf = do
    first ← byte_at buf 0
    state ← from_value first
    handle ← unpack_from abi 4 buf 1
    last ← byte_at buf 5
    target_state ← from_value last
    ok (record { state = state; handle = handle; target_state = target_state })

  -- The branches on the stop reason, the flags and the version.
  unfoldable pub decode_process : Bytes → ℕ → Bool → Bool → Result Process
  decode_process buf version true running = do
    exec_stage ← unpack_from abi 2 buf 4
    exec_errno ← unpack_signed_from abi abi.sizeof_int buf 6
    ok (record no_process { exec_stage = some exec_stage; exec_errno = some exec_errno })
  decode_process buf version false true = do
    pid ← unpack_signed_from abi abi.sizeof_int buf 6
    ok (record no_process { pid = some pid })
  decode_process buf version false false =
      if leb 5 version
      then (do
        si_code ← unpack_signed_from abi abi.sizeof_int buf 6
        si_status ← unpack_signed_from abi abi.sizeof_int buf 10
        ok (record no_process { si_code = some si_code; si_status = some si_status }))
      else (do
        exit_status ← unpack_signed_from abi abi.sizeof_int buf 6
        ok (record no_process { exit_status = some exit_status }))

  unfoldable pub decode_mod_time : Bytes → ℕ → Result (Option FloatSum)
  decode_mod_time buf version =
      if leb 6 version
      then (do
        seconds ← unpack_signed_from abi abi.sizeof_long buf (status5_size abi)
        nanoseconds ←
            unpack_signed_from abi abi.sizeof_long buf (status5_size abi + abi.sizeof_long)
        ok (
            some
              (record { whole = seconds; part = nanoseconds; divisor = nanoseconds_per_second })))
      else ok none

  unfoldable pub decode_status : Bytes → ℕ → Result ServiceStatus
  decode_status buf version = do
    first ← byte_at buf 0
    state ← from_value first
    second ← byte_at buf 1
    target_state ← from_value second
    flags ← byte_at buf 2
    fourth ← byte_at buf 3
    stop_reason ← from_value fourth
    process ← decode_process buf version (is_execfailed stop_reason) (has_flag flags flag_has_pid)
    mod_time ← decode_mod_time buf version
    ok (record {
      state = state;
      target_state = target_state;
      flags = flags;
      stop_reason = stop_reason;
      pid = process.pid;
      si_code = process.si_code;
      si_status = process.si_status;
      exit_status = process.exit_status;
      exec_stage = process.exec_stage;
      exec_errno = process.exec_errno;
      mod_time = mod_time;
    })

  -- The loop over the directories, with the number of rounds left.
  unfoldable pub decode_dirs : ℕ → Bytes → ℕ → Result (List Str)
  decode_dirs zero packet at = ok []
  decode_dirs (suc count) packet at = do
    size ← unpack_from abi 4 packet at
    dir ← decode (slice packet (at + 4) size)
    dirs ← decode_dirs count packet (at + 4 + size)
    ok (dir ∷ dirs)

  unfoldable pub decode_loader_mech : Bytes → Result LoaderMech
  decode_loader_mech packet = do
    loader_type ← unpack_from abi 1 packet 1
    size ← unpack_from abi 4 packet 2
    count ← unpack_from abi 4 packet 6
    cwd_len ← unpack_from abi 4 packet 10
    cwd ← decode (slice packet 14 cwd_len)
    dirs ← decode_dirs count packet (14 + cwd_len)
    loader ← from_value loader_type
    ok (record { loader_type = loader; cwd = cwd; dirs = dirs })

  unfoldable pub decode_log : Bytes → Result ServiceLog
  decode_log payload = do
    flags ← byte_at payload 0
    size ← unpack_from abi 4 payload 1
    ok (record { flags = flags; content = slice payload 5 size })

  unfoldable pub decode_allenv : Bytes → Result (List (Str × Str))
  decode_allenv payload = do
    size ← unpack_from abi abi.sizeof_long payload 0
    add_entries (split (slice payload abi.sizeof_long size)) []

  unfoldable pub decode_service_name : Bytes → Result Str
  decode_service_name payload = do size ← unpack_from abi 2 payload 0; decode (slice payload 2 size)

  unfoldable pub decode_service_event : ℕ → Bytes → Result ServiceEventInfo
  decode_service_event version payload = do
    handle ← unpack_from abi 4 payload 0
    kind ← byte_at payload 4
    event ← from_value kind
    status ← decode_status (drop 5 payload) version
    ok (record { handle = handle; event = event; status = status })

  unfoldable pub decode_service_event5 : Bytes → Result ServiceEventInfo
  decode_service_event5 = decode_service_event 5

  unfoldable pub decode_legacy_event : Bytes → Result ServiceEventInfo
  decode_legacy_event = decode_service_event 4

  unfoldable pub unpack_u32 : Bytes → ℕ → Result ℕ
  unpack_u32 buf offset = unpack_from abi 4 buf offset

  unfoldable pub unpack_size_t : Bytes → ℕ → Result ℕ
  unpack_size_t buf offset = unpack_from abi abi.sizeof_long buf offset

  unfoldable pub decode_env_event : Bytes → Result EnvEvent
  decode_env_event payload = do
    first ← byte_at payload 0
    size ← unpack_from abi 2 payload 1
    name ← decode (rstrip (slice payload 3 size))
    ok (record { name = name; overridden = not (first == 0) })
