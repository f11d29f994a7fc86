-- ===== src/Protocol/Replies/Status.antt =====
-- What `decode_status` makes of the status buffers of the daemon. The layout of a buffer is written
-- down here once more, from the daemon's side: four bytes, a union whose content depends on the
-- state of the process, and from protocol 6 on the time of the last change.
use dinix.Shared.{
  ℕ, ◌+◌, ◌^◌, ◌≤◌, ◌<◌, ◌≡◌, refl, true, false, none, some, [], ◌∷◌, ◌++◌, append_assoc, arith,
  leb, le→leb, lt→leb, leb→le, if◌then◌else◌, length, length-append, Bool-cases, inl, inr,
}
use dinix.Shared.Int.{ℤ}
use dinix.Exceptions.{ok}
use dinix.Struct.{Abi, Bytes, word, fits_signed, of_signed, byte_at}
use dinix.Struct.RoundTrip.{length-word, unpack_from-word, unpack_signed_from-word}
use dinix.Protocol.Enums.{ServiceState, StoppedReason, service_state_enum, stopped_reason_enum}
use dinix.Protocol.Enums.Values.{from_value-service_state, from_value-stopped_reason}
use dinix.Protocol.Records.{ServiceStatus, has_flag, flag_has_pid}
use dinix.Protocol.Requests.{status5_size}
use dinix.Protocol.Replies.{
  Process, no_process, is_execfailed, nanoseconds_per_second, decode_process, decode_mod_time,
  decode_status,
}

pub data Detail : Type 0 where
  exec_failed : ℕ → ℤ → Bytes → Detail
  running : ℤ → Bytes → Detail
  exited : ℤ → ℤ → Detail
  exited_legacy : ℤ → Detail

pub record WireStatus : Type 0 where
  pub state : ServiceState
  pub target_state : ServiceState
  pub flags : ℕ
  pub stop_reason : StoppedReason
  pub detail : Detail
  pub seconds : ℤ
  pub nanoseconds : ℤ

abbrev pub process_of : Detail → Process
process_of (exec_failed stage errno fill) = record no_process {
  exec_stage = some stage;
  exec_errno = some errno;
}
process_of (running pid fill) = record no_process { pid = some pid }
process_of (exited code status) = record no_process { si_code = some code; si_status = some status }
process_of (exited_legacy status) = record no_process { exit_status = some status }

abbrev pub status_of : WireStatus → ℕ → ServiceStatus
status_of w version =
    let p = process_of w.detail in
    record {
      state = w.state;
      target_state = w.target_state;
      flags = w.flags;
      stop_reason = w.stop_reason;
      pid = p.pid;
      si_code = p.si_code;
      si_status = p.si_status;
      exit_status = p.exit_status;
      exec_stage = p.exec_stage;
      exec_errno = p.exec_errno;
      mod_time =
          if leb 6 version
          then some
              (record { whole = w.seconds; part = w.nanoseconds; divisor = nanoseconds_per_second })
          else none;
    }

module _ (abi : Abi) where
  -- A C `int` and a C `long`.
  abbrev int_bytes : ℤ → Bytes
  int_bytes i = word abi abi.sizeof_int (of_signed abi.sizeof_int i)

  abbrev long_bytes : ℤ → Bytes
  long_bytes i = word abi abi.sizeof_long (of_signed abi.sizeof_long i)

  abbrev pub detail_bytes : Detail → Bytes
  detail_bytes (exec_failed stage errno fill) = word abi 2 stage ++ (int_bytes errno ++ fill)
  detail_bytes (running pid fill) = 0 ∷ 0 ∷ (int_bytes pid ++ fill)
  detail_bytes (exited code status) = 0 ∷ 0 ∷ (int_bytes code ++ int_bytes status)
  detail_bytes (exited_legacy status) = 0 ∷ 0 ∷ int_bytes status

  abbrev pub time_bytes : WireStatus → ℕ → Bytes
  time_bytes w version =
      if leb 6 version then long_bytes w.seconds ++ (long_bytes w.nanoseconds ++ []) else []

  abbrev head_bytes : WireStatus → Bytes
  head_bytes w =
      service_state_enum.value w.state
      ∷ service_state_enum.value w.target_state
      ∷ w.flags
      ∷ stopped_reason_enum.value w.stop_reason
      ∷ []

  abbrev pub status_bytes : WireStatus → ℕ → Bytes
  status_bytes w version = head_bytes w ++ (detail_bytes w.detail ++ time_bytes w version)

  -- Up to protocol 4 the union ends behind one `int`.
  abbrev fill_size : ℕ → ℕ
  fill_size version = if leb 5 version then abi.sizeof_int else 0

  -- The numbers fit their C types, and the union has the content that the stop reason, the flags
  -- and the protocol version ask for.
  abbrev pub DetailFits : WireStatus → ℕ → Detail → Type 0
  DetailFits w version (exec_failed stage errno fill) =
      (is_execfailed w.stop_reason ≡ true)
      × (stage < 256 ^ 2)
      × (fits_signed abi.sizeof_int errno ≡ true)
      × (length fill ≡ fill_size version)
  DetailFits w version (running pid fill) =
      (is_execfailed w.stop_reason ≡ false)
      × (has_flag w.flags flag_has_pid ≡ true)
      × (fits_signed abi.sizeof_int pid ≡ true)
      × (length fill ≡ fill_size version)
  DetailFits w version (exited code status) =
      (is_execfailed w.stop_reason ≡ false)
      × (has_flag w.flags flag_has_pid ≡ false)
      × (5 ≤ version)
      × (abi.sizeof_int ≡ 4)
      × (fits_signed abi.sizeof_int code ≡ true)
      × (fits_signed abi.sizeof_int status ≡ true)
  DetailFits w version (exited_legacy status) =
      (is_execfailed w.stop_reason ≡ false)
      × (has_flag w.flags flag_has_pid ≡ false)
      × (version < 5)
      × (fits_signed abi.sizeof_int status ≡ true)

  abbrev pub TimesFit : WireStatus → Type 0
  TimesFit w =
      (fits_signed abi.sizeof_long w.seconds ≡ true)
      × (fits_signed abi.sizeof_long w.nanoseconds ≡ true)

  decode_process-detail_bytes :
      (w : WireStatus) (version : ℕ) (d : Detail) (rest : Bytes)
      → DetailFits w version d
      → decode_process abi
          (head_bytes w ++ (detail_bytes d ++ rest))
          version
          (is_execfailed w.stop_reason)
          (has_flag w.flags flag_has_pid)
        ≡ ok (process_of d)
  unfolding decode_process
  decode_process-detail_bytes w version (exec_failed stage errno fill) rest (hr, hs, he, hf) =
      rw (hr, append_assoc (word abi 2 stage) (int_bytes errno ++ fill) rest)
        (rw (append_assoc (int_bytes errno) fill rest) (
          rw
            (unpack_from-word abi 2 stage 4 (head_bytes w) (int_bytes errno ++ (fill ++ rest)) hs
              refl)
            (rw (
              unpack_signed_from-word abi abi.sizeof_int errno 6 (head_bytes w ++ word abi 2 stage)
                (fill ++ rest) he (omega (arith, length-word abi 2 stage))))))
  decode_process-detail_bytes w version (running pid fill) rest (hr, hp, hi, hf) =
      rw (hr, hp, append_assoc (int_bytes pid) fill rest)
        (rw (
          unpack_signed_from-word abi abi.sizeof_int pid 6 (head_bytes w ++ (0 ∷ 0 ∷ []))
            (fill ++ rest) hi refl))
  decode_process-detail_bytes w version (exited code status) rest (hr, hp, hv, h4, hc, hs) =
      rw (hr, hp, le→leb 5 version hv, append_assoc (int_bytes code) (int_bytes status) rest)
        (rw
          (unpack_signed_from-word abi abi.sizeof_int code 6 (head_bytes w ++ (0 ∷ 0 ∷ []))
            (int_bytes status ++ rest) hc refl)
          (rw (
            unpack_signed_from-word abi abi.sizeof_int status 10
              (head_bytes w ++ (0 ∷ 0 ∷ int_bytes code)) rest hs
              (omega (arith, h4, length-word abi abi.sizeof_int (of_signed abi.sizeof_int code))))))
  decode_process-detail_bytes w version (exited_legacy status) rest (hr, hp, hv, hs) =
      rw (hr, hp, lt→leb 5 version hv)
        (rw (
          unpack_signed_from-word abi abi.sizeof_int status 6 (head_bytes w ++ (0 ∷ 0 ∷ [])) rest hs
            refl))

  length-int_bytes : (i : ℤ) → length (int_bytes i) ≡ abi.sizeof_int
  length-int_bytes i = length-word abi abi.sizeof_int (of_signed abi.sizeof_int i)

  length-detail_bytes :
      (w : WireStatus) (version : ℕ) (d : Detail)
      → 5 ≤ version
      → DetailFits w version d
      → length (head_bytes w ++ detail_bytes d) ≡ status5_size abi
  length-detail_bytes w version (exec_failed stage errno fill) hv (hr, hs, he, hf) = ground (
    arith,
    length-append (word abi 2 stage) (int_bytes errno ++ fill),
    length-append (int_bytes errno) fill,
    length-word abi 2 stage,
    length-int_bytes errno,
  )
  length-detail_bytes w version (running pid fill) hv (hr, hp, hi, hf) =
      ground (arith, length-append (int_bytes pid) fill, length-int_bytes pid)
  length-detail_bytes w version (exited code status) hv (hr, hp, h5, h4, hc, hs) = ground (
    arith,
    length-append (int_bytes code) (int_bytes status),
    length-int_bytes code,
    length-int_bytes status,
  )
  length-detail_bytes w version (exited_legacy status) hv (hr, hp, h5, hs) = absurd (omega arith)

  decode_times :
      (w : WireStatus) (version : ℕ) (d : Detail)
      → 6 ≤ version
      → DetailFits w version d
      → TimesFit w
      → decode_mod_time abi
          (head_bytes w
            ++ (detail_bytes d ++ (long_bytes w.seconds ++ (long_bytes w.nanoseconds ++ []))))
          version
        ≡ ok (
            some (record {
              whole = w.seconds;
              part = w.nanoseconds;
              divisor = nanoseconds_per_second;
            }))
  unfolding decode_mod_time
  decode_times w version d hv hd (hs, hn) =
      let size = length-detail_bytes w version d (omega arith) hd in
      rw (le→leb 6 version hv) (
        rw
          (unpack_signed_from-word abi abi.sizeof_long w.seconds (status5_size abi)
            (head_bytes w ++ detail_bytes d) (long_bytes w.nanoseconds ++ []) hs size)
          (rw
            (← append_assoc (detail_bytes d) (long_bytes w.seconds)
              (long_bytes w.nanoseconds ++ []))
            (rw (
              unpack_signed_from-word abi abi.sizeof_long w.nanoseconds
                (status5_size abi + abi.sizeof_long)
                (head_bytes w ++ (detail_bytes d ++ long_bytes w.seconds)) [] hn
                (omega (
                  arith,
                  size,
                  length-append (detail_bytes d) (long_bytes w.seconds),
                  length-word abi abi.sizeof_long (of_signed abi.sizeof_long w.seconds),
                ))))))

  decode_mod_time-time_bytes :
      (w : WireStatus) (version : ℕ)
      → DetailFits w version w.detail
      → TimesFit w
      → decode_mod_time abi (status_bytes w version) version ≡ ok (status_of w version).mod_time
  decode_mod_time-time_bytes w version hd ht = elim (Bool-cases (leb 6 version)) [
    | inl late ↦ rw late (decode_times w version w.detail (leb→le 6 version late) hd ht)
    | inr early ↦ unfold decode_mod_time in rw early
  ]

  -- A status buffer of the daemon, laid out as the stop reason, the flags and the protocol version
  -- ask for, with numbers that fit their C types, is decoded to the fields that it was built from,
  -- where `mod_time` is the float sum of the seconds and the nanoseconds over 1000000000, by these
  -- three numbers and before any rounding; the fields that it does not carry are absent.
  pub decode_status-status_bytes :
      (w : WireStatus) (version : ℕ)
      → DetailFits w version w.detail
      → TimesFit w
      → decode_status abi (status_bytes w version) version ≡ ok (status_of w version)
  unfolding decode_status byte_at
  decode_status-status_bytes w version hd ht =
      rw (from_value-service_state w.state, from_value-service_state w.target_state)
        (rw (from_value-stopped_reason w.stop_reason) (
          rw (decode_process-detail_bytes w version w.detail (time_bytes w version) hd)
            (rw (decode_mod_time-time_bytes w version hd ht))))
