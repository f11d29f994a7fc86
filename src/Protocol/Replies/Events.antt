-- ===== src/Protocol/Replies/Events.antt =====
-- The information packets: service events of both kinds, and changes of the environment.
use dinix.Shared.{
  ℕ, zero, suc, ◌^◌, ◌<◌, ◌≡◌, ◌≢◌, refl, ap, not, [], ◌∷◌, ◌++◌, append_assoc, append-nil, arith,
  length, length-append, drop-append_eq, slice-append, reverse, ◌==◌,
}
use mathlib.Core.List.{reverse-append, reverse-reverse}
use dinix.Exceptions.{ok}
use dinix.Struct.{Abi, Bytes, word, byte_at}
use dinix.Struct.RoundTrip.{length-word, unpack_from-word}
use dinix.Utf8.{Str, encode}
use dinix.Utf8.RoundTrip.{decode-encode}
use dinix.Protocol.Enums.{ServiceEvent, service_event_enum, service_event_value}
use dinix.Protocol.Enums.Values.{from_value-service_event}
use dinix.Protocol.Replies.{
  rstrip, strip_front, decode_service_event, decode_env_event, decode_service_name,
}
use dinix.Protocol.Replies.Status.{
  WireStatus, status_of, status_bytes, DetailFits, TimesFit, decode_status-status_bytes,
}

byte_at-append :
    (pre : Bytes) (b : ℕ) (post : Bytes) (k : ℕ)
    → length pre ≡ k
    → byte_at (pre ++ (b ∷ post)) k ≡ ok b
unfolding byte_at
byte_at-append [] b post zero h = refl
byte_at-append (a ∷ pre) b post (suc k) h = byte_at-append pre b post k (omega arith)
byte_at-append [] b post (suc k) h = absurd (omega arith)
byte_at-append (a ∷ pre) b post zero h = absurd (omega arith)

-- Texts behind a length, and NUL bytes at the end.
abbrev pub zeros : ℕ → Bytes
zeros zero = []
zeros (suc n) = 0 ∷ zeros n

strip_front-zeros : (n : ℕ) (bs : Bytes) → strip_front (zeros n ++ bs) ≡ strip_front bs
unfolding strip_front
strip_front-zeros zero bs = refl
strip_front-zeros (suc n) bs = strip_front-zeros n bs

zeros_snoc : (n : ℕ) (bs : Bytes) → zeros n ++ (0 ∷ bs) ≡ 0 ∷ (zeros n ++ bs)
zeros_snoc zero bs = refl
zeros_snoc (suc n) bs = ap (λ (t : Bytes). 0 ∷ t) (zeros_snoc n bs)

reverse-zeros : (n : ℕ) → reverse (zeros n) ≡ zeros n
reverse-zeros zero = refl
reverse-zeros (suc n) =
    rw (reverse-append (0 ∷ []) (zeros n))
      (rw (reverse-zeros n) (rw (zeros_snoc n []) (rw append-nil)))

strip_front-ne : (b : ℕ) (bs : Bytes) → b ≢ 0 → strip_front (b ∷ bs) ≡ b ∷ bs
unfolding strip_front
strip_front-ne b bs h = ground arith

reverse-cons : (b : ℕ) (bs : Bytes) → reverse (b ∷ bs) ≡ reverse bs ++ (b ∷ [])
reverse-cons b bs = reverse-append (b ∷ []) bs

rstrip-zeros :
    (front : Bytes) (b n : ℕ) → b ≢ 0 → rstrip ((front ++ (b ∷ [])) ++ zeros n) ≡ front ++ (b ∷ [])
unfolding rstrip
rstrip-zeros front b n h =
    rw (reverse-append (front ++ (b ∷ [])) (zeros n), reverse-zeros n)
      (rw (strip_front-zeros n (reverse (front ++ (b ∷ [])))) (
        rw (reverse-append front (b ∷ [])) (
          rw (strip_front-ne b (reverse front) h)
            (rw (reverse-cons b (reverse front), reverse-reverse front)))))

-- An environment event whose text is the encoding of a name, the last byte not NUL, and any number
-- of NUL bytes, together shorter than 2 ^ 16 bytes, is decoded to that name, with `overridden` set
-- exactly if the first byte is not zero, whatever follows the text.
pub decode_env_event-zeros :
    (abi : Abi) (flag : ℕ) (name : Str) (front : Bytes) (b n : ℕ) (rest : Bytes)
    → b ≢ 0
    → encode name ≡ ok (front ++ (b ∷ []))
    → let raw = (front ++ (b ∷ [])) ++ zeros n in
      length raw < 2 ^ 16
      → decode_env_event abi (flag ∷ (word abi 2 (length raw) ++ (raw ++ rest)))
        ≡ ok (record { name = name; overridden = not (flag == 0) })
unfolding decode_env_event byte_at
decode_env_event-zeros abi flag name front b n rest h e small =
    let raw = (front ++ (b ∷ [])) ++ zeros n in
    let w = word abi 2 (length raw) in
    rw (unpack_from-word abi 2 (length raw) 1 (flag ∷ []) (raw ++ rest) small refl) (
      rw
        (slice-append (flag ∷ w) raw rest 3 (length raw)
          (omega (arith, length-word abi 2 (length raw))) refl)
        (rw (rstrip-zeros front b n h) (rw (decode-encode name (front ++ (b ∷ [])) e))))

-- A service name behind the length of its encoding, which is below 2 ^ 16, is decoded to that
-- name, whatever follows it.
pub decode_service_name-encode :
    (abi : Abi) (name : Str) (raw rest : Bytes)
    → encode name ≡ ok raw
    → length raw < 2 ^ 16
    → decode_service_name abi (word abi 2 (length raw) ++ (raw ++ rest)) ≡ ok name
unfolding decode_service_name
decode_service_name-encode abi name raw rest e small =
    rw (unpack_from-word abi 2 (length raw) 0 [] (raw ++ rest) small refl) (
      rw
        (slice-append (word abi 2 (length raw)) raw rest 2 (length raw)
          (length-word abi 2 (length raw)) refl)
        (decode-encode name raw e))

-- A service event with a handle of 32 bits and a status in the layout of the given protocol
-- version is decoded to the handle, the event and the status that it was built from.
pub decode_service_event-bytes :
    (abi : Abi) (version handle : ℕ) (event : ServiceEvent) (w : WireStatus)
    → handle < 2 ^ 32
    → DetailFits abi w version w.detail
    → TimesFit abi w
    → decode_service_event abi version
        (word abi 4 handle ++ (service_event_value event ∷ status_bytes abi w version))
      ≡ ok (record { handle = handle; event = event; status = status_of w version })
unfolding decode_service_event
decode_service_event-bytes abi version handle event w hh hd ht =
    let four = length-word abi 4 handle in
    let status = status_bytes abi w version in
    let code = service_event_value event in
    rw (unpack_from-word abi 4 handle 0 [] (code ∷ status) hh refl) (
      rw (byte_at-append (word abi 4 handle) code status 4 four, from_value-service_event event)
        (rw (← append_assoc (word abi 4 handle) (code ∷ []) status) (
          rw
            (drop-append_eq (word abi 4 handle ++ (code ∷ [])) status 5
              (omega (arith, four, length-append (word abi 4 handle) (code ∷ []))))
            (rw (decode_status-status_bytes abi w version hd ht)))))
