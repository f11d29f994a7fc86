-- ===== src/Protocol/Replies/Bounds.antt =====
-- The decoders stay within a buffer that has the size the protocol gives it: what is left to raise
-- is the `ValueError` of an unknown member of an enumeration.
use dinix.Shared.{
  ℕ, ◌+◌, ◌≤◌, ◌<◌, ◌≡◌, Bool, true, false, none, arith, leb, if◌then◌else◌, length, length-drop,
  drop, Bool-cases, inl, inr,
}
use dinix.Exceptions.{Exception, value_error}
use dinix.Exceptions.OnlyRaises.{OnlyRaises, returns, OnlyRaises-bind}
use dinix.Struct.{Abi, Bytes, unpack_from, unpack_signed_from, byte_at}
use dinix.Struct.RoundTrip.{unpack_from_total, unpack_signed_from_total, byte_at_total}
use dinix.Protocol.Enums.Interface.{from_value-OnlyRaises}
use dinix.Protocol.Enums.{service_state_enum, stopped_reason_enum, service_event_enum}
use dinix.Protocol.Requests.{status_size, status5_size, status6_size}
use dinix.Protocol.Replies.{
  decode_process, decode_mod_time, decode_status, decode_service_record, decode_service_event,
}

-- The size of a status buffer in protocol `version`.
abbrev pub size_of_status : Abi → ℕ → ℕ
size_of_status abi version =
    if leb 6 version
    then status6_size abi
    else if leb 5 version
    then status5_size abi
    else status_size abi

module _ (abi : Abi) where
  unpack_from-OnlyRaises :
      (e : Exception) (n : ℕ) (buf : Bytes) (k : ℕ)
      → k + n ≤ length buf
      → OnlyRaises e (unpack_from abi n buf k)
  unpack_from-OnlyRaises e n buf k h =
      let (w, p) = unpack_from_total abi n buf k h in rw p (returns w)

  unpack_signed_from-OnlyRaises :
      (e : Exception) (n : ℕ) (buf : Bytes) (k : ℕ)
      → k + n ≤ length buf
      → OnlyRaises e (unpack_signed_from abi n buf k)
  unpack_signed_from-OnlyRaises e n buf k h =
      let (w, p) = unpack_signed_from_total abi n buf k h in rw p (returns w)

  byte_at-OnlyRaises :
      (e : Exception) (buf : Bytes) (i : ℕ) → i < length buf → OnlyRaises e (byte_at buf i)
  byte_at-OnlyRaises e buf i h = let (b, p) = byte_at_total buf i h in rw p (returns b)

  abbrev int_at :
      (buf : Bytes) (k : ℕ)
      → k + abi.sizeof_int ≤ length buf
      → OnlyRaises value_error (unpack_signed_from abi abi.sizeof_int buf k)
  int_at = unpack_signed_from-OnlyRaises value_error abi.sizeof_int

  abbrev long_at :
      (buf : Bytes) (k : ℕ)
      → k + abi.sizeof_long ≤ length buf
      → OnlyRaises value_error (unpack_signed_from abi abi.sizeof_long buf k)
  long_at = unpack_signed_from-OnlyRaises value_error abi.sizeof_long

  -- Where the fields lie in a buffer of the right size.
  union_fits :
      (buf : Bytes) (version : ℕ)
      → size_of_status abi version ≤ length buf
      → 6 + abi.sizeof_int ≤ length buf
  union_fits buf version h = ground arith

  second_int_fits :
      (buf : Bytes) (version : ℕ)
      → leb 5 version ≡ true
      → 4 ≤ abi.sizeof_int
      → size_of_status abi version ≤ length buf
      → 10 + abi.sizeof_int ≤ length buf
  second_int_fits buf version late h4 h = ground arith

  first_long_fits :
      (buf : Bytes) (version : ℕ)
      → leb 6 version ≡ true
      → size_of_status abi version ≤ length buf
      → status5_size abi + abi.sizeof_long ≤ length buf
  first_long_fits buf version late h = ground arith

  second_long_fits :
      (buf : Bytes) (version : ℕ)
      → leb 6 version ≡ true
      → size_of_status abi version ≤ length buf
      → status5_size abi + abi.sizeof_long + abi.sizeof_long ≤ length buf
  second_long_fits buf version late h = ground arith

  decode_process-OnlyRaises :
      (buf : Bytes) (version : ℕ) (failed running : Bool)
      → 4 ≤ abi.sizeof_int
      → size_of_status abi version ≤ length buf
      → OnlyRaises value_error (decode_process abi buf version failed running)
  unfolding decode_process
  decode_process-OnlyRaises buf version true running h4 h =
      OnlyRaises-bind
        (unpack_from-OnlyRaises value_error 2 buf 4 (omega (arith, union_fits buf version h)))
        λ stage. OnlyRaises-bind (int_at buf 6 (union_fits buf version h)) λ errno. returns _
  decode_process-OnlyRaises buf version false true h4 h =
      OnlyRaises-bind (int_at buf 6 (union_fits buf version h)) λ pid. returns _
  decode_process-OnlyRaises buf version false false h4 h = elim (Bool-cases (leb 5 version)) [
    | inl late ↦ rw late (
        OnlyRaises-bind (int_at buf 6 (union_fits buf version h)) λ code.
          OnlyRaises-bind (int_at buf 10 (second_int_fits buf version late h4 h))
            λ status. returns _)
    | inr early ↦
        rw early (OnlyRaises-bind (int_at buf 6 (union_fits buf version h)) λ status. returns _)
  ]

  decode_mod_time-OnlyRaises :
      (buf : Bytes) (version : ℕ)
      → size_of_status abi version ≤ length buf
      → OnlyRaises value_error (decode_mod_time abi buf version)
  unfolding decode_mod_time
  decode_mod_time-OnlyRaises buf version h = elim (Bool-cases (leb 6 version)) [
    | inl late ↦ rw late (
        OnlyRaises-bind (long_at buf (status5_size abi) (first_long_fits buf version late h)) λ s.
          OnlyRaises-bind
            (long_at buf (status5_size abi + abi.sizeof_long) (second_long_fits buf version late h))
            λ n. returns _)
    | inr early ↦ rw early (returns none)
  ]

  -- Where a C `int` has at least four bytes, a status buffer of at least the size of its protocol
  -- version is decoded or raises a `ValueError`: no read leaves the buffer.
  pub decode_status-OnlyRaises :
      (buf : Bytes) (version : ℕ)
      → 4 ≤ abi.sizeof_int
      → size_of_status abi version ≤ length buf
      → OnlyRaises value_error (decode_status abi buf version)
  unfolding decode_status
  decode_status-OnlyRaises buf version h4 h =
      let long : 6 ≤ length buf = omega (arith, union_fits buf version h) in
      OnlyRaises-bind (byte_at-OnlyRaises value_error buf 0 (omega arith)) λ a.
        OnlyRaises-bind (from_value-OnlyRaises a) λ state.
          OnlyRaises-bind (byte_at-OnlyRaises value_error buf 1 (omega arith)) λ b.
            OnlyRaises-bind (from_value-OnlyRaises b) λ target.
              OnlyRaises-bind (byte_at-OnlyRaises value_error buf 2 (omega arith)) λ flags.
                OnlyRaises-bind (byte_at-OnlyRaises value_error buf 3 (omega arith)) λ c.
                  OnlyRaises-bind (from_value-OnlyRaises c) λ reason.
                    OnlyRaises-bind (decode_process-OnlyRaises buf version _ _ h4 h) λ process.
                      OnlyRaises-bind (decode_mod_time-OnlyRaises buf version h) λ time. returns _

  -- A service record of at least six bytes is decoded or raises a `ValueError`.
  pub decode_service_record-OnlyRaises :
      (buf : Bytes) → 6 ≤ length buf → OnlyRaises value_error (decode_service_record abi buf)
  unfolding decode_service_record
  decode_service_record-OnlyRaises buf h =
      OnlyRaises-bind (byte_at-OnlyRaises value_error buf 0 (omega arith)) λ a.
        OnlyRaises-bind (from_value-OnlyRaises a) λ state.
          OnlyRaises-bind (unpack_from-OnlyRaises value_error 4 buf 1 (omega arith)) λ handle.
            OnlyRaises-bind (byte_at-OnlyRaises value_error buf 5 (omega arith))
              λ b. OnlyRaises-bind (from_value-OnlyRaises b) λ target. returns _

  -- Where a C `int` has at least four bytes, an event payload with at least a whole status buffer
  -- of its protocol version behind the first five bytes is decoded or raises a `ValueError`.
  pub decode_service_event-OnlyRaises :
      (version : ℕ) (payload : Bytes)
      → 4 ≤ abi.sizeof_int
      → 5 + size_of_status abi version ≤ length payload
      → OnlyRaises value_error (decode_service_event abi version payload)
  unfolding decode_service_event
  decode_service_event-OnlyRaises version payload h4 h =
      OnlyRaises-bind (unpack_from-OnlyRaises value_error 4 payload 0 (omega arith)) λ handle.
        OnlyRaises-bind (byte_at-OnlyRaises value_error payload 4 (omega arith)) λ kind.
          OnlyRaises-bind (from_value-OnlyRaises kind) λ event.
            OnlyRaises-bind
              (decode_status-OnlyRaises (drop 5 payload) version h4
                (omega (arith, length-drop 5 payload)))
              λ status. returns _
