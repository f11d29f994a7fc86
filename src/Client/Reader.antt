-- ===== src/Client/Reader.antt =====
-- The reader task of dinit-client/src/dinit_client/client.py: replies and information packets, and
-- the handlers that decode the reply of the command in flight.
use dinix.Shared.{
  ℕ, zero, suc, ◌-◌, min, Bool, true, false, ◌&&◌, ◌||◌, Option, none, some, List, [], ◌∷◌, ◌++◌,
  ltb, leb, ◌==◌, if◌then◌else◌, length,
}
use dinix.Shared.Dict.{insert}
use dinix.Exceptions.{
  Exception, out_of_fuel, protocol_error, connection_closed, command_rejected, bad_request,
  out_of_memory, shutting_down, pinned, dependents, service_not_found, service_load_error,
  service_description_error, signal_not_delivered,
}
use dinix.Struct.{Abi, Bytes, byte_at}
use dinix.Utf8.{Str, decode}
use dinix.Protocol.Enums.{Reply, reply_value, reply_enum, Info, info_value, from_value}
use dinix.Protocol.Records.{ServiceStatus, Event, service_event, env_event}
use dinix.Protocol.Requests.{status_size, status5_size}
use dinix.Protocol.Replies.{
  decode_version, decode_service_record, decode_status, decode_loader_mech, decode_allenv,
  decode_service_event5, decode_legacy_event, decode_env_event, unpack_u32, unpack_size_t,
}
use dinix.Stream.{SocketStream}
use dinix.Client.Task.{
  Handler, on_version, on_list, on_record, on_ack, on_stop, on_catlog, on_all_env, on_load_mech,
  on_status, Object, nothing, services, service, status, log, environment, mechanism, Pending,
  Client, Task, pure, raise, lift, gets, ◌>>=◌, ◌>>◌, modify, read,
}

abbrev pub event_buffer : ℕ
event_buffer = 64

-- `_SIMPLE_ERRORS.get(reply, ProtocolError(…))`
unfoldable pub simple_error : Reply → Exception
simple_error Reply.nak = command_rejected
simple_error Reply.badreq = bad_request
simple_error Reply.oom = out_of_memory
simple_error Reply.serviceoom = out_of_memory
simple_error Reply.shuttingdown = shutting_down
simple_error Reply.pinnedstopped = pinned
simple_error Reply.pinnedstarted = pinned
simple_error Reply.noservice = service_not_found
simple_error Reply.service_desc_err = service_description_error
simple_error Reply.service_load_err = service_load_error
simple_error Reply.serviceloaderr = service_load_error
simple_error Reply.signal_nopid = signal_not_delivered
simple_error Reply.signal_badsig = signal_not_delivered
simple_error Reply.signal_killerr = signal_not_delivered
simple_error _ = protocol_error

-- `reply == p.Reply.X`
unfoldable pub is_reply : Reply → ℕ → Bool
unfolding reply_value
is_reply r n = n == reply_value r

-- `pending.result = …; pending.done.set()`
abbrev pub with_result : Object → Option Pending → Option Pending
with_result obj none = none
with_result obj (some p) = some (record p { result = obj; done = true })

abbrev pub with_error : Exception → Option Pending → Option Pending
with_error e none = none
with_error e (some p) = some (record p { error = some e; done = true })

module _ {S : SocketStream} where
  unfoldable pub set_result : Object → Task S (Unit {0})
  set_result obj = modify (λ c. record c { pending = with_result obj c.pending })

  unfoldable pub set_error : Exception → Task S (Unit {0})
  set_error e = modify (λ c. record c { pending = with_error e c.pending })

  -- `_reject`: `Reply(reply)` raises for a number that is no reply.
  unfoldable pub reject : ℕ → Task S (Unit {0})
  reject reply = do r ← lift (from_value reply); set_error (simple_error r)

  -- `_Reader.byte`
  unfoldable pub read_byte : Task S ℕ
  read_byte = do bs ← read 1; lift (byte_at bs 0)

  -- `send_nowait` on the buffer, with `WouldBlock` suppressed.
  unfoldable pub push_event : Event → Task S (Unit {0})
  push_event event = modify (λ c. record c {
    events = if ltb (length c.events) event_buffer then c.events ++ (event ∷ []) else c.events;
  })

-- The `except` and `finally` of `_read_loop`. Whatever ended the loop, the command in flight gets
-- a `DinitConnectionClosed`.
unfoldable pub read_exit : {S : SocketStream} → Client S → Client S
read_exit c = record c {
  closed = true;
  pending = with_error connection_closed c.pending;
  events_closed = true;
}

-- `_list_status_size`
unfoldable pub list_status_size : Abi → ℕ → ℕ
list_status_size abi version = if leb 5 version then status5_size abi else status_size abi

module _ {S : SocketStream} (abi : Abi) where
  -- `_dispatch_info`
  unfoldable pub dispatch_info : ℕ → Bytes → Task S (Unit {0})
  unfolding info_value
  dispatch_info kind payload = do
    version ← gets (λ c. c.version)
    if kind == info_value Info.serviceevent5
        then (do e ← lift (decode_service_event5 abi payload); push_event (service_event e))
        else if kind == info_value Info.serviceevent && ltb version 5
        then (do e ← lift (decode_legacy_event abi payload); push_event (service_event e))
        else if kind == info_value Info.envevent
        then (do e ← lift (decode_env_event abi payload); push_event (env_event e))
        else pure tt

  -- An information packet of the given kind, and what is done behind it.
  unfoldable pub info_packet : Task S ℕ → ℕ → Task S ℕ
  info_packet behind kind = do
    size ← read_byte
    if ltb size 2
        then raise protocol_error
        else (do payload ← read (size - 2); dispatch_info kind payload; behind)

  -- `_next_reply`, with the number of packets that it may look at.
  unfoldable pub next_reply : ℕ → Task S ℕ
  next_reply zero = raise out_of_fuel
  next_reply (suc fuel) = do
    reply ← read_byte
    elim (ltb reply 100) [ true ↦ pure reply | false ↦ info_packet (next_reply fuel) reply ]

  -- One service of `list_services`, behind its `SVCINFO`.
  unfoldable pub list_item : Task S (Str × ServiceStatus)
  list_item = do
    namelen ← read_byte
    version ← gets (λ c. c.version)
    raw ← read (list_status_size abi version)
    found ← lift (decode_status abi raw (min version 5))
    text ← read namelen
    name ← lift (decode text)
    pure (name, found)

  -- The loop of `list_services`.
  unfoldable pub list_loop : ℕ → List (Str × ServiceStatus) → Task S (Unit {0})
  list_loop zero items = raise out_of_fuel
  list_loop (suc fuel) items = do
    item ← list_item
    reply ← next_reply fuel
    elim (is_reply Reply.listdone reply) [
      | true ↦ set_result (services (insert item.0 item.1 items))
      | false ↦ elim (is_reply Reply.svcinfo reply) [
        | true ↦ list_loop fuel (insert item.0 item.1 items)
        | false ↦ reject reply
      ]
    ]

  -- The handles behind `DEPENDENTS`.
  unfoldable pub read_handles : ℕ → Task S (List ℕ)
  read_handles zero = pure []
  read_handles (suc count) = do
    raw ← read 4
    handle ← lift (unpack_u32 abi raw 0)
    handles ← read_handles count
    pure (handle ∷ handles)

  unfoldable pub ack_handler : ℕ → Task S (Unit {0})
  ack_handler reply =
      if is_reply Reply.ack reply || is_reply Reply.alreadyss reply
      then set_result nothing
      else reject reply

  -- The handlers, by what the closure was made for.
  unfoldable pub handle : ℕ → Handler → ℕ → Task S (Unit {0})
  handle fuel on_version reply =
      if is_reply Reply.cpversion reply
      then (do raw ← read 4; v ← lift (decode_version abi raw); set_result (Object.version v))
      else set_error protocol_error
  handle fuel on_list reply =
      if is_reply Reply.svcinfo reply then list_loop fuel [] else reject reply
  handle fuel on_record reply =
      if is_reply Reply.servicerecord reply
      then (do raw ← read 6; r ← lift (decode_service_record abi raw); set_result (service r))
      else reject reply
  handle fuel on_ack reply = ack_handler reply
  handle fuel on_stop reply =
      if is_reply Reply.dependents reply
      then (do
        raw ← read abi.sizeof_long
        count ← lift (unpack_size_t abi raw 0)
        handles ← read_handles count
        set_error (dependents handles))
      else ack_handler reply
  handle fuel on_catlog reply =
      if is_reply Reply.service_log reply
      then (do
        head ← read 5
        size ← lift (unpack_u32 abi head 1)
        content ← read size
        set_result (log content))
      else reject reply
  handle fuel on_all_env reply =
      if is_reply Reply.allenv reply
      then (do
        head ← read abi.sizeof_long
        size ← lift (unpack_size_t abi head 0)
        block ← read size
        env ← lift (decode_allenv abi (head ++ block))
        set_result (environment env))
      else reject reply
  handle fuel on_load_mech reply =
      if is_reply Reply.loader_mech reply
      then (do
        head ← read 5
        size ← lift (unpack_u32 abi head 1)
        body ← read (size - 6)
        mech ← lift (decode_loader_mech abi (reply_value Reply.loader_mech ∷ (head ++ body)))
        set_result (mechanism mech))
      else reject reply
  handle fuel (on_status size) reply =
      if is_reply Reply.servicestatus reply
      then (do
        reserved ← read 1
        version ← gets (λ c. c.version)
        raw ← read size
        s ← lift (decode_status abi raw version)
        set_result (status s))
      else reject reply

  -- One round of `_read_loop`: the next reply goes to the command in flight.
  unfoldable pub answer : ℕ → Option Pending → ℕ → Task S (Unit {0})
  answer fuel none reply = raise protocol_error
  answer fuel (some p) reply = handle fuel p.handler reply

  unfoldable pub read_round : ℕ → Task S (Unit {0})
  unfolding answer
  read_round fuel = do
    reply ← next_reply fuel
    pending ← gets (λ c. c.pending)
    answer fuel pending reply
