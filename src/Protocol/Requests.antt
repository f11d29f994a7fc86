-- ===== src/Protocol/Requests.antt =====
-- The request packets: `query_version` to `close_handle` of
-- dinit-client/src/dinit_client/protocol.py, and its sizes.
pub mod Layout
pub mod Names
pub mod Flags
use dinix.Shared.{
  ℕ, ◌+◌, ◌-◌, ◌*◌, max, bit_or, Bool, true, false, List, [], ◌∷◌, ◌++◌, ltb, leb, ◌==◌, ◌||◌,
  if◌then◌else◌, length,
}
use dinix.Shared.Int.{ℤ}
use dinix.Exceptions.{Result, ok, err, value_error, ◌>>=◌, ◌>>◌, raise_if}
use dinix.Struct.{Abi, Bytes, pack, pack_signed}
use dinix.Utf8.{Str, encode}
use dinix.Protocol.Enums.{Command, command_value}

abbrev pub max_protocol : ℕ
max_protocol = 7

-- `_SERVICE_NAME_MAX`
abbrev pub service_name_max : ℕ
service_name_max = 1024 - 3

module _ (abi : Abi) where
  -- `_SIZEOF_UNION`: the larger of `int` and `pid_t`, which `struct` both reads as "@i".
  abbrev pub sizeof_union : ℕ
  sizeof_union = max abi.sizeof_int abi.sizeof_int

  -- `struct.calcsize("@ll")`
  abbrev pub sizeof_timespec : ℕ
  sizeof_timespec = 2 * abi.sizeof_long

  abbrev pub status_size : ℕ
  status_size = 6 + sizeof_union

  abbrev pub status5_size : ℕ
  status5_size = 6 + 2 * abi.sizeof_int

  abbrev pub status6_size : ℕ
  status6_size = status5_size + sizeof_timespec

-- `not raw`
unfoldable pub is_empty : Bytes → Bool
is_empty [] = true
is_empty (b ∷ bs) = false

-- `not raw or raw[0] == ord("=")`
unfoldable pub is_malformed : Bytes → Bool
is_malformed [] = true
is_malformed (b ∷ bs) = b == b'='

unfoldable pub service_name : Str → Result Bytes
unfolding is_empty
service_name name = do
  raw ← encode name
  raise_if (is_empty raw) value_error
  raise_if (ltb service_name_max (length raw)) value_error
  ok raw

unfoldable pub query_version : Bytes
unfolding command_value
query_version = command_value Command.queryversion ∷ []

unfoldable pub list_services : ℕ → Bytes
unfolding command_value
list_services version =
    (command_value (if leb 5 version then Command.listservices5 else Command.listservices)) ∷ []

unfoldable pub get_all_env : Bytes
unfolding command_value
get_all_env = command_value Command.getallenv ∷ 0 ∷ []

unfoldable pub query_load_mech : Bytes
unfolding command_value
query_load_mech = command_value Command.query_load_mech ∷ []

-- The flag byte of `start_stop`.
unfoldable pub start_stop_flags : Bool → Bool → Bool → Bool → ℕ
start_stop_flags pin gentle restart preack =
    bit_or
      (bit_or (bit_or (if pin then 0x01 else 0) (if gentle then 0x02 else 0))
        (if restart then 0x04 else 0))
      (if preack then 0x80 else 0)

module _ (abi : Abi) where
  unfoldable pub find_or_load : Str → Bool → Result Bytes
  unfolding command_value
  find_or_load name load = do
    raw ← service_name name
    let cmd = if load then Command.loadservice else Command.findservice
    size ← pack abi 2 (length raw)
    ok (command_value cmd ∷ (size ++ raw))

  unfoldable pub service_handle_command : Command → ℕ → Result Bytes
  unfolding command_value
  service_handle_command cmd handle = do packed ← pack abi 4 handle; ok (command_value cmd ∷ packed)

  unfoldable pub start_stop : Command → ℕ → Bool → Bool → Bool → Bool → Result Bytes
  unfolding command_value
  start_stop cmd handle pin gentle restart preack = do
    let flags = start_stop_flags pin gentle restart preack
    packed ← pack abi 4 handle
    ok (command_value cmd ∷ flags ∷ packed)

  unfoldable pub service_status : ℕ → ℕ → Result Bytes
  unfolding service_handle_command
  service_status handle version =
      service_handle_command
        (if leb 6 version
          then Command.servicestatus6
          else if leb 5 version
          then Command.servicestatus5
          else Command.servicestatus)
        handle

  unfoldable pub catlog : ℕ → Bool → Result Bytes
  unfolding command_value
  catlog handle clear = do
    packed ← pack abi 4 handle
    ok (command_value Command.catlog ∷ (if clear then 1 else 0) ∷ packed)

  unfoldable pub signal_service : ℕ → ℤ → Result Bytes
  unfolding command_value
  signal_service handle signum = do
    number ← pack_signed abi abi.sizeof_int signum
    packed ← pack abi 4 handle
    ok (command_value Command.signal ∷ (number ++ packed))

  unfoldable pub setenv : Str → Result Bytes
  unfolding command_value
  setenv variable = do
    raw ← encode variable
    raise_if (is_malformed raw) value_error
    raise_if (ltb service_name_max (length raw)) value_error
    size ← pack abi 2 (length raw)
    ok (command_value Command.setenv ∷ (size ++ raw))

  unfoldable pub unpin : ℕ → Result Bytes
  unfolding service_handle_command
  unpin handle = service_handle_command Command.unpinservice handle

  unfoldable pub close_handle : ℕ → Result Bytes
  unfolding service_handle_command
  close_handle handle = service_handle_command Command.closehandle handle
