-- ===== src/Client/Commands.antt =====
-- `_request`, `_negotiate` and the methods of `DinitClient`
-- (dinit-client/src/dinit_client/client.py). A request is made while the lock is held; the reader
-- task then runs until it has answered.
use dinix.Shared.{
  ℕ, zero, suc, Bool, true, false, not, Option, none, some, List, [], ◌∷◌, ◌++◌, ltb, leb,
  if◌then◌else◌,
}
use dinix.Shared.Int.{ℤ}
use dinix.Exceptions.{
  Result, ok, err, out_of_fuel, protocol_error, connection_closed, broken_resource, closed_resource,
  attribute_error,
}
use dinix.Struct.{Abi, Bytes}
use dinix.Utf8.{Str}
use dinix.Protocol.Enums.{Command}
use dinix.Protocol.Records.{Version}
use dinix.Protocol.Requests.{max_protocol, status_size, status5_size, status6_size}
use dinix.Protocol.Requests
use dinix.Stream.{SocketStream}
use dinix.Client.Task.{
  Handler, on_version, on_list, on_record, on_ack, on_stop, on_catlog, on_all_env, on_load_mech,
  on_status, Object, nothing, service, Pending, Client, Task, pure, raise, lift, gets, ◌>>=◌, ◌>>◌,
  modify,
}
use dinix.Client.Reader.{read_round, read_exit}

-- `DinitClient.__init__`
unfoldable pub init : {S : SocketStream} → S.State → Client S
init s = record {
  stream = s;
  pending = none;
  closed = false;
  version = 1;
  events = [];
  events_closed = false;
}

-- `_status_size`
unfoldable pub reply_status_size : Abi → ℕ → ℕ
reply_status_size abi version =
    if leb 6 version
    then status6_size abi
    else if leb 5 version
    then status5_size abi
    else status_size abi

-- `_Pending(handler)`
abbrev pub fresh : Handler → Pending
fresh h = record { handler = h; result = nothing; error = none; done = false }

-- What a pending command ends with.
abbrev pub outcome : Option Pending → Result Object
outcome none = ok nothing
outcome (some p) = elim p.error [ none ↦ ok p.result | some e ↦ err e ]

module _ {S : SocketStream} where
  unfoldable pub after_send : Result (Unit {0}) × S.State → Task S (Unit {0})
  after_send (ok x, s) c = (ok tt, record c { stream = s })
  after_send (err broken_resource, s) c =
      (err connection_closed, record c { stream = s; pending = none })
  after_send (err closed_resource, s) c =
      (err connection_closed, record c { stream = s; pending = none })
  after_send (err e, s) c = (err e, record c { stream = s })

  -- `_request` up to its `await`.
  unfoldable pub begin_request : Bytes → Handler → Task S (Unit {0})
  unfolding after_send
  begin_request payload h c =
      if c.closed
      then (err connection_closed, c)
      else after_send (S.send payload c.stream) (record c { pending = some (fresh h) })

  -- `_request` behind its `await`.
  unfoldable pub finish_request : Task S Object
  finish_request c = (outcome c.pending, record c { pending = none })

  unfoldable pub is_done : Client S → Bool
  is_done c = elim c.pending [ none ↦ true | some p ↦ p.done ]

-- An attribute of the result that only one kind of object has.
unfoldable pub as_version : Object → Result Version
as_version (Object.version v) = ok v
as_version _ = err protocol_error

unfoldable pub as_handle : Object → Result ℕ
as_handle (service r) = ok r.handle
as_handle _ = err attribute_error

-- A value of `None` leaves the name alone.
variable_text : Str → Option Str → Str
variable_text name none = name
variable_text name (some value) = name ++ (b'=' ∷ value)

module _ {S : SocketStream} (abi : Abi) (fuel : ℕ) where
  -- A round that raises ends the reader.
  unfoldable pub after_round : Result (Unit {0}) × Client S → Client S
  after_round (ok x, c) = c
  after_round (err e, c) = read_exit c

  -- The reader runs until the command in flight is answered, for at most so many rounds.
  unfoldable pub await_done : ℕ → Task S (Unit {0})
  unfolding after_round
  await_done zero c = if is_done c then (ok tt, c) else (err out_of_fuel, c)
  await_done (suc rounds) c = elim (is_done c) [
    | true ↦ (ok tt, c)
    | false ↦ await_done rounds (after_round (read_round abi fuel c))
  ]

  unfoldable pub request : Bytes → Handler → Task S Object
  request payload h = do begin_request payload h; await_done fuel; finish_request

  -- `_negotiate`, and the assignment of the version in `connect`.
  unfoldable pub negotiate : ℕ → Task S ℕ
  unfolding as_version
  negotiate min_version = do
    reply ← request Requests.query_version on_version
    v ← lift (as_version reply)
    if ltb max_protocol v.min_compat
        then raise protocol_error
        else if ltb v.protocol min_version
        then raise protocol_error
        else pure v.protocol

  unfoldable pub connect : ℕ → Task S (Unit {0})
  unfolding negotiate
  connect min_version = do
    version ← negotiate min_version
    modify (λ c. record c { version = version })

  unfoldable pub list_services : Task S Object
  list_services = do
    version ← gets (λ c. c.version)
    request (Requests.list_services version) on_list

  -- `load` and `find`, by way of `_record_request`.
  unfoldable pub find_or_load : Str → Bool → Task S Object
  find_or_load name load = do
    payload ← lift (Requests.find_or_load abi name load)
    request payload on_record

  unfoldable pub handle_for : Str → Task S ℕ
  unfolding as_handle
  handle_for name = do record' ← find_or_load name false; lift (as_handle record')

  -- A command on the handle of a service that the daemon has loaded.
  unfoldable pub on_handle : Command → Str → Task S Object
  on_handle cmd name = do
    h ← handle_for name
    payload ← lift (Requests.service_handle_command abi cmd h)
    request payload on_ack

  unfoldable pub reload : Str → Task S Object
  unfolding on_handle
  reload = on_handle Command.reloadservice

  unfoldable pub unload : Str → Task S Object
  unfolding on_handle
  unload = on_handle Command.unloadservice

  unfoldable pub start : Str → Bool → Task S Object
  unfolding as_handle
  start name pin = do
    record' ← find_or_load name true
    h ← lift (as_handle record')
    payload ← lift (Requests.start_stop abi Command.startservice h pin false false false)
    request payload on_ack

  unfoldable pub stop : Str → Bool → Bool → Task S Object
  stop name pin force = do
    h ← handle_for name
    payload ← lift (Requests.start_stop abi Command.stopservice h pin (not force) false false)
    request payload on_stop

  unfoldable pub restart : Str → Task S Object
  restart name = do
    h ← handle_for name
    payload ← lift (Requests.start_stop abi Command.stopservice h false false true false)
    request payload on_ack

  unfoldable pub wake : Str → Bool → Task S Object
  wake name pin = do
    h ← handle_for name
    payload ← lift (Requests.start_stop abi Command.wakeservice h pin false false false)
    request payload on_ack

  unfoldable pub release : Str → Task S Object
  release name = do
    h ← handle_for name
    payload ← lift (Requests.start_stop abi Command.releaseservice h false false false false)
    request payload on_ack

  unfoldable pub unpin : Str → Task S Object
  unpin name = do h ← handle_for name; payload ← lift (Requests.unpin abi h); request payload on_ack

  unfoldable pub status : Str → Task S Object
  status name = do
    h ← handle_for name
    size ← gets (λ c. reply_status_size abi c.version)
    version ← gets (λ c. c.version)
    payload ← lift (Requests.service_status abi h version)
    request payload (on_status size)

  unfoldable pub catlog : Str → Bool → Task S Object
  catlog name clear = do
    h ← handle_for name
    payload ← lift (Requests.catlog abi h clear)
    request payload on_catlog

  unfoldable pub signal : Str → ℤ → Task S Object
  signal name signum = do
    h ← handle_for name
    payload ← lift (Requests.signal_service abi h signum)
    request payload on_ack

  -- `setenv`: one request for each variable.
  unfoldable pub setenv : List (Str × Option Str) → Task S (Unit {0})
  unfolding variable_text
  setenv [] = pure tt
  setenv ((name, value) ∷ variables) = do
    payload ← lift (Requests.setenv abi (variable_text name value))
    reply ← request payload on_ack
    setenv variables

  unfoldable pub get_all_env : Task S Object
  get_all_env = request Requests.get_all_env on_all_env

  unfoldable pub query_load_mech : Task S Object
  query_load_mech = request Requests.query_load_mech on_load_mech
