-- ===== src/Protocol/Requests/Layout.antt =====
-- The layout of the request packets from the daemon's side, and that it reads back what the client
-- packs: a packet carries its own end, so the commands of a connection cannot run together.
use dinix.Shared.{
  ℕ, ◌+◌, ◌^◌, ◌≤◌, ◌<◌, ◌≡◌, refl, Bool, true, [], ◌∷◌, ◌++◌, append_assoc, arith, ltb, le→ltb,
  if◌then◌else◌, length, length-append, drop-append_eq, slice-append, slice, drop,
}
use dinix.Shared.Int.{ℤ}
use dinix.Exceptions.{Result, ok, err, value_error, struct_error, ◌>>=◌, ◌>>◌, raise_if}
use dinix.Struct.{
  Abi, Bytes, word, unpack_from, unpack_signed_from, byte_at, of_signed, fits_signed,
}
use dinix.Struct.RoundTrip.{
  length-word, pack_fits, pack_signed_fits, unpack_from-word, unpack_signed_from-word,
}
use dinix.Protocol.Enums.{Command, command_value, command_enum, from_value}
use dinix.Protocol.Enums.Values.{from_value-command}
use dinix.Protocol.Requests.{
  service_name_max, service_handle_command, start_stop, start_stop_flags, signal_service, catlog,
}

-- What stands behind the command byte.
pub data Shape : Type 0 where
  bare tagged named handled flagged signalled unused : Shape

abbrev pub shape : Command → Shape
shape Command.queryversion = bare
shape Command.findservice = named
shape Command.loadservice = named
shape Command.startservice = flagged
shape Command.stopservice = flagged
shape Command.wakeservice = flagged
shape Command.releaseservice = flagged
shape Command.unpinservice = handled
shape Command.listservices = bare
shape Command.unloadservice = handled
shape Command.query_load_mech = bare
shape Command.reloadservice = handled
shape Command.setenv = named
shape Command.servicestatus = handled
shape Command.catlog = flagged
shape Command.signal = signalled
shape Command.closehandle = handled
shape Command.getallenv = tagged
shape Command.listservices5 = bare
shape Command.servicestatus5 = handled
shape Command.servicestatus6 = handled
shape _ = unused

pub data Request : Type 0 where
  plain : Command → Request
  with_byte : Command → ℕ → Request
  with_name : Command → Bytes → Request
  with_handle : Command → ℕ → Request
  with_flags : Command → ℕ → ℕ → Request
  with_signal : Command → ℤ → ℕ → Request

module _ (abi : Abi) where
  -- The daemon reads a request of the given shape at the front of `buf`, and leaves the rest.
  pub read_body : Shape → Command → Bytes → Result (Request × Bytes)
  read_body bare cmd buf = ok (plain cmd, drop 1 buf)
  read_body tagged cmd buf = do b ← byte_at buf 1; ok (with_byte cmd b, drop 2 buf)
  read_body named cmd buf = do
    size ← unpack_from abi 2 buf 1
    raise_if (ltb (length buf) (3 + size)) struct_error
    ok (with_name cmd (slice buf 3 size), drop (3 + size) buf)
  read_body handled cmd buf = do
    handle ← unpack_from abi 4 buf 1
    ok (with_handle cmd handle, drop 5 buf)
  read_body flagged cmd buf = do
    flags ← byte_at buf 1
    handle ← unpack_from abi 4 buf 2
    ok (with_flags cmd flags handle, drop 6 buf)
  read_body signalled cmd buf = do
    signum ← unpack_signed_from abi abi.sizeof_int buf 1
    handle ← unpack_from abi 4 buf (1 + abi.sizeof_int)
    ok (with_signal cmd signum handle, drop (5 + abi.sizeof_int) buf)
  read_body unused cmd buf = err value_error

  pub read_request : Bytes → Result (Request × Bytes)
  read_request buf = do first ← byte_at buf 0; cmd ← from_value first; read_body (shape cmd) cmd buf

  flagged_body :
      (cmd : Command) (flags handle : ℕ) (rest : Bytes)
      → handle < 2 ^ 32
      → read_body flagged cmd (command_value cmd ∷ flags ∷ (word abi 4 handle ++ rest))
        ≡ ok (with_flags cmd flags handle, rest)
  unfolding read_body byte_at
  flagged_body cmd flags handle rest hh =
      rw (unpack_from-word abi 4 handle 2 (command_value cmd ∷ flags ∷ []) rest hh refl)
        (rw (drop-append_eq (word abi 4 handle) rest 4 (length-word abi 4 handle)))

  signalled_body :
      (cmd : Command) (signum : ℤ) (handle : ℕ) (rest : Bytes)
      → handle < 2 ^ 32
      → fits_signed abi.sizeof_int signum ≡ true
      → let number = word abi abi.sizeof_int (of_signed abi.sizeof_int signum) in
        read_body signalled cmd (command_value cmd ∷ (number ++ (word abi 4 handle ++ rest)))
        ≡ ok (with_signal cmd signum handle, rest)
  unfolding read_body
  signalled_body cmd signum handle rest hh hs =
      let number = word abi abi.sizeof_int (of_signed abi.sizeof_int signum) in
      let size = length-word abi abi.sizeof_int (of_signed abi.sizeof_int signum) in
      rw
        (unpack_signed_from-word abi abi.sizeof_int signum 1 (command_value cmd ∷ [])
          (word abi 4 handle ++ rest) hs refl)
        (rw
          (unpack_from-word abi 4 handle (1 + abi.sizeof_int) (command_value cmd ∷ number) rest hh
            (omega (arith, size)))
          (rw (← append_assoc number (word abi 4 handle) rest) (
            rw (
              drop-append_eq (command_value cmd ∷ (number ++ word abi 4 handle)) rest
                (5 + abi.sizeof_int)
                (omega (
                  arith,
                  size,
                  length-append number (word abi 4 handle),
                  length-word abi 4 handle,
                ))))))

  pub named_body :
      (cmd : Command) (raw rest : Bytes)
      → length raw ≤ service_name_max
      → read_body named cmd (command_value cmd ∷ ((word abi 2 (length raw) ++ raw) ++ rest))
        ≡ ok (with_name cmd raw, rest)
  unfolding read_body
  named_body cmd raw rest h =
      let size = word abi 2 (length raw) in
      let two = length-word abi 2 (length raw) in
      let front = command_value cmd ∷ size in
      rw (append_assoc size raw rest) (
        rw
          (unpack_from-word abi 2 (length raw) 1 (command_value cmd ∷ []) (raw ++ rest)
            (omega arith) refl)
          (rw
            (le→ltb (length (front ++ (raw ++ rest))) (3 + length raw)
              (omega (arith, two, length-append size (raw ++ rest), length-append raw rest)))
            (rw (slice-append front raw rest 3 (length raw) (omega (arith, two)) refl) (
              rw (← append_assoc size raw rest) (
                rw (
                  drop-append_eq (command_value cmd ∷ (size ++ raw)) rest (3 + length raw)
                    (omega (arith, two, length-append size raw))))))))

  -- `packet` is accepted, and read back as `request` with whatever follows it left over.
  abbrev pub IsPacket : Result Bytes → Request → Type 0
  IsPacket r request =
      (packet : Bytes) × (r ≡ ok packet)
      × ((rest : Bytes) → read_request (packet ++ rest) ≡ ok (request, rest))

  pub read_request-command :
      (cmd : Command) (body : Bytes)
      → read_request (command_value cmd ∷ body)
        ≡ read_body (shape cmd) cmd (command_value cmd ∷ body)
  unfolding read_request byte_at
  read_request-command cmd body = rw (from_value-command cmd)

  -- For a command that takes a handle alone, and a handle of 32 bits, `service_handle_command`
  -- gives a packet that the daemon's reader takes apart into the command and the handle, with
  -- whatever follows the packet left over.
  pub service_handle_command-IsPacket :
      (cmd : Command) (handle : ℕ)
      → shape cmd ≡ handled
      → handle < 2 ^ 32
      → IsPacket (service_handle_command abi cmd handle) (with_handle cmd handle)
  service_handle_command-IsPacket cmd handle hs hh = (
    command_value cmd ∷ word abi 4 handle,
    unfold service_handle_command in rw (pack_fits abi 4 handle hh),
    λ rest.
        rw (read_request-command cmd (word abi 4 handle ++ rest), hs)
          (unfold read_body in
            rw (unpack_from-word abi 4 handle 1 (command_value cmd ∷ []) rest hh refl)
              (rw (drop-append_eq (word abi 4 handle) rest 4 (length-word abi 4 handle)))),
  )

  -- For a command with flags and a handle of 32 bits, `start_stop` gives a packet that the
  -- daemon's reader takes apart into the command, the flag byte of the four options and the
  -- handle, with whatever follows the packet left over.
  pub start_stop-IsPacket :
      (cmd : Command) (handle : ℕ) (pin gentle restart preack : Bool)
      → shape cmd ≡ flagged
      → handle < 2 ^ 32
      → IsPacket
          (start_stop abi cmd handle pin gentle restart preack)
          (with_flags cmd (start_stop_flags pin gentle restart preack) handle)
  start_stop-IsPacket cmd handle pin gentle restart preack hs hh =
      let flags = start_stop_flags pin gentle restart preack in
      (
        command_value cmd ∷ flags ∷ word abi 4 handle,
        unfold start_stop in rw (pack_fits abi 4 handle hh),
        λ rest.
            rw (read_request-command cmd (flags ∷ (word abi 4 handle ++ rest)), hs)
              (flagged_body cmd flags handle rest hh),
      )

  -- For a handle of 32 bits, `catlog` gives a packet that the daemon's reader takes apart into 1
  -- or 0, as `clear` says, and the handle, with whatever follows the packet left over.
  pub catlog-IsPacket :
      (handle : ℕ) (clear : Bool)
      → handle < 2 ^ 32
      → IsPacket
          (catlog abi handle clear)
          (with_flags Command.catlog (if clear then 1 else 0) handle)
  catlog-IsPacket handle clear hh =
      let flags : ℕ = if clear then 1 else 0 in
      (
        command_value Command.catlog ∷ flags ∷ word abi 4 handle,
        unfold catlog in rw (pack_fits abi 4 handle hh),
        λ rest.
            rw (read_request-command Command.catlog (flags ∷ (word abi 4 handle ++ rest)))
              (flagged_body Command.catlog flags handle rest hh),
      )

  -- For a handle of 32 bits and a signal number that fits a C `int`, `signal_service` gives a
  -- packet that the daemon's reader takes apart into the signal number and the handle, with
  -- whatever follows the packet left over.
  pub signal_service-IsPacket :
      (handle : ℕ) (signum : ℤ)
      → handle < 2 ^ 32
      → fits_signed abi.sizeof_int signum ≡ true
      → IsPacket (signal_service abi handle signum) (with_signal Command.signal signum handle)
  signal_service-IsPacket handle signum hh hs =
      let number = word abi abi.sizeof_int (of_signed abi.sizeof_int signum) in
      let packed = word abi 4 handle in
      (
        command_value Command.signal ∷ (number ++ packed),
        unfold signal_service in
            rw (pack_signed_fits abi abi.sizeof_int signum hs) (rw (pack_fits abi 4 handle hh)),
        λ rest.
            rw
              (
                read_request-command Command.signal ((number ++ packed) ++ rest),
                append_assoc number packed rest,
              )
              (signalled_body Command.signal signum handle rest hh hs),
      )
