-- ===== src/Client/Answers/Handlers.antt =====
-- The handlers of dinit-client/src/dinit_client/client.py on the replies that they are made for.
use dinix.Shared.{
  ℕ, zero, suc, ◌^◌, ◌<◌, ◌≡◌, refl, ◌∙◌, true, none, some, List, [], ◌∷◌, ◌++◌, append_assoc,
  append-nil, arith, length, length-append, All, get_elem?, ◌⊎◌, inl, inr,
}
use dinix.Exceptions.{Exception, Result, ok, err, dependents}
use dinix.Struct.{Abi, Bytes, word, byte_at, unpack_from}
use dinix.Struct.RoundTrip.{length-word, unpack_from-word}
use dinix.Protocol.Enums.{Reply, reply_value, service_state_enum, service_state_value}
use dinix.Protocol.Enums.Values.{from_value-service_state}
use dinix.Protocol.Records.{ServiceRecord}
use dinix.Protocol.Replies.{decode_service_record, unpack_u32, unpack_size_t}
use dinix.Protocol.Replies.Status.{
  WireStatus, status_of, status_bytes, DetailFits, TimesFit, decode_status-status_bytes,
}
use dinix.Stream.{SocketStream, IsStream}
use dinix.Client.Task.{
  Handler, on_record, on_ack, on_stop, on_status, Object, nothing, service, status, Pending, Client,
  read,
}
use dinix.Client.Reader.{handle, ack_handler, is_reply, set_result, set_error, read_handles}
use dinix.Client.Commands.{fresh, request}
use dinix.Client.Framing.{Packet, buffered, Yields, Yields-bind, read-front}
use dinix.Client.Answers.{Answered, Completes, answering_client, request-Completes}

-- The reply `SERVICERECORD` behind its code.
abbrev pub record_bytes : Abi → ServiceRecord → Bytes
record_bytes abi r =
    service_state_value r.state ∷ (word abi 4 r.handle ++ (service_state_value r.target_state ∷ []))

get_elem?-append :
    (pre : Bytes) (b : ℕ) (post : Bytes) (k : ℕ)
    → length pre ≡ k
    → get_elem? (pre ++ (b ∷ post)) k ≡ some b
get_elem?-append [] b post zero h = refl
get_elem?-append (a ∷ pre) b post (suc k) h = get_elem?-append pre b post k (omega arith)
get_elem?-append [] b post (suc k) h = absurd (omega arith)
get_elem?-append (a ∷ pre) b post zero h = absurd (omega arith)

decode_service_record-record_bytes :
    (abi : Abi) (r : ServiceRecord)
    → r.handle < 2 ^ 32
    → decode_service_record abi (record_bytes abi r) ≡ ok r
unfolding decode_service_record byte_at
decode_service_record-record_bytes abi r h =
    let state = service_state_value r.state in
    let target = service_state_value r.target_state in
    rw (from_value-service_state r.state) (
      rw (unpack_from-word abi 4 r.handle 1 (state ∷ []) (target ∷ []) h refl) (
        rw
          (get_elem?-append (state ∷ word abi 4 r.handle) target [] 5
            (omega (arith, length-word abi 4 r.handle)))
          (rw (from_value-service_state r.target_state))))

module _ (S : SocketStream) (L : IsStream S) (abi : Abi) where
  -- What is in flight once a result, or an error, has been set.
  abbrev pub finished : Handler → Object → Pending
  finished h obj = record { handler = h; result = obj; error = none; done = true }

  abbrev pub refused : Handler → Exception → Pending
  refused h e = record { handler = h; result = nothing; error = some e; done = true }

  ack_handler-acked :
      (r : Reply) (c : Client S) {p : Pending}
      → (r ≡ Reply.ack) ⊎ (r ≡ Reply.alreadyss)
      → c.pending ≡ some p
      → ack_handler abi (reply_value r) c
        ≡ (ok tt, record c { pending = some (record p { result = nothing; done = true }) })
  unfolding ack_handler is_reply set_result
  ack_handler-acked r c (inl e) h = rw (e) (rw h)
  ack_handler-acked r c (inr e) h = rw (e) (rw h)

  -- A request with the acknowledgement handler that is answered with `ACK` or `ALREADYSS` behind
  -- information packets returns `None`; the packets' events are buffered in order, no command is
  -- in flight, and the bytes behind the answer are still to be read.
  pub request-ack :
      (fuel : ℕ) (c : Client S) (payload : Bytes) (ps : List Packet) (r : Reply) (rest : Bytes)
      → (r ≡ Reply.ack) ⊎ (r ≡ Reply.alreadyss)
      → Answered S L abi c payload fuel ps (reply_value r) rest
      → (s' : S.State) × (request abi fuel payload on_ack c
          ≡ (ok nothing, record c { stream = s'; pending = none; events = buffered c.events ps }))
        × (L.incoming s' ≡ rest)
  request-ack fuel c payload ps r rest which a =
      request-Completes S L abi fuel c payload on_ack ps (reply_value r) rest rest
        (finished on_ack nothing) a
        (λ s left. (
          s,
          unfold handle in ack_handler-acked r (answering_client S L abi c on_ack ps s) which refl,
          left,
          refl,
        ))

  on_record-record :
      (fuel : ℕ) (c : Client S) (r : ServiceRecord) (rest : Bytes)
      → r.handle < 2 ^ 32
      → c.pending ≡ some (fresh on_record)
      → L.incoming c.stream ≡ record_bytes abi r ++ rest
      → Completes S L abi fuel on_record
          (reply_value Reply.servicerecord)
          c
          (finished on_record (service r))
          rest
  on_record-record fuel c r rest hr hp h =
      unfold handle is_reply set_result in
      Yields-bind S L (read 6) _ c
        (λ x.
          (s' : S.State) × (x
            ≡ (ok tt, record c { stream = s'; pending = some (finished on_record (service r)) }))
          × (L.incoming s' ≡ rest)
          × (true ≡ true))
        (read-front S L 6 c (record_bytes abi r) rest h (
          omega (
            arith,
            length-append (word abi 4 r.handle) (service_state_value r.target_state ∷ []),
            length-word abi 4 r.handle,
          )))
        (λ s left. (s, rw (decode_service_record-record_bytes abi r hr) (rw hp), left, refl))

  -- A request with the record handler that is answered with `SERVICERECORD` and the six bytes of a
  -- record, whose handle fits 32 bits, returns that record; the packets' events are buffered in
  -- order, no command is in flight, and the bytes behind the record are still to be read.
  pub request-record :
      (fuel : ℕ) (c : Client S) (payload : Bytes) (ps : List Packet) (r : ServiceRecord)
      (rest : Bytes)
      → r.handle < 2 ^ 32
      → Answered S L abi c payload fuel ps
          (reply_value Reply.servicerecord)
          (record_bytes abi r ++ rest)
      → (s' : S.State) × (request abi fuel payload on_record c ≡ (
        ok (service r),
        record c { stream = s'; pending = none; events = buffered c.events ps },
      ))
        × (L.incoming s' ≡ rest)
  request-record fuel c payload ps r rest hr a =
      request-Completes S L abi fuel c payload on_record ps (reply_value Reply.servicerecord)
        (record_bytes abi r ++ rest) rest (finished on_record (service r)) a
        (λ s left.
          on_record-record fuel (answering_client S L abi c on_record ps s) r rest hr refl left)

  -- The handles of the dependents, one after the other.
  abbrev pub handles_bytes : List ℕ → Bytes
  handles_bytes [] = []
  handles_bytes (h ∷ hs) = word abi 4 h ++ handles_bytes hs

  read_handles-handles_bytes :
      (handles : List ℕ) (c : Client S) (rest : Bytes)
      → All (λ h. h < 2 ^ 32) handles
      → L.incoming c.stream ≡ handles_bytes handles ++ rest
      → Yields S L (read_handles abi (length handles)) c handles rest
  unfolding read_handles unpack_u32
  read_handles-handles_bytes [] c rest hs e = (c.stream, refl, e)
  read_handles-handles_bytes (h ∷ handles) c rest (small, hs) e =
      Yields-bind S L (read 4) _ c Goal
        (read-front S L 4 c (word abi 4 h) (handles_bytes handles ++ rest)
          (e ∙ append_assoc (word abi 4 h) (handles_bytes handles) rest) (length-word abi 4 h))
        (λ s1 left1.
          rw (← append-nil (word abi 4 h), unpack_from-word abi 4 h 0 [] [] small refl)
            (Yields-bind S L (read_handles abi (length handles)) _ (record c { stream = s1 }) Goal
              (read_handles-handles_bytes handles (record c { stream = s1 }) rest hs left1)
              (λ s2 left2. (s2, refl, left2))))
    where
      Goal : Result (List ℕ) × Client S → Type 0
      Goal r =
          (s' : S.State) × (r ≡ (ok (h ∷ handles), record c { stream = s' }))
          × (L.incoming s' ≡ rest)

  on_stop-dependents :
      (fuel : ℕ) (c : Client S) (handles : List ℕ) (rest : Bytes)
      → length handles < 256 ^ abi.sizeof_long
      → All (λ h. h < 2 ^ 32) handles
      → c.pending ≡ some (fresh on_stop)
      → L.incoming c.stream
        ≡ word abi abi.sizeof_long (length handles) ++ (handles_bytes handles ++ rest)
      → Completes S L abi fuel on_stop
          (reply_value Reply.dependents)
          c
          (refused on_stop (dependents handles))
          rest
  on_stop-dependents fuel c handles rest hl hs hp e =
      unfold handle is_reply set_error unpack_size_t in
      Yields-bind S L (read abi.sizeof_long) _ c Goal
        (read-front S L abi.sizeof_long c count (handles_bytes handles ++ rest) e
          (length-word abi abi.sizeof_long (length handles)))
        (λ s1 left1. rw (counted) (
          Yields-bind S L (read_handles abi (length handles)) _ (record c { stream = s1 }) Goal
            (read_handles-handles_bytes handles (record c { stream = s1 }) rest hs left1)
            (λ s2 left2. (s2, rw hp, left2, refl))))
    where
      count : Bytes
      count = word abi abi.sizeof_long (length handles)

      counted : unpack_from abi abi.sizeof_long count 0 ≡ ok (length handles)
      counted =
          rw append-nil at (unpack_from-word abi abi.sizeof_long (length handles) 0 [] [] hl refl)

      Goal : Result (Unit {0}) × Client S → Type 0
      Goal r =
          (s' : S.State) × (r ≡ (
            ok tt,
            record c { stream = s'; pending = some (refused on_stop (dependents handles)) },
          ))
          × (L.incoming s' ≡ rest)
          × (true ≡ true)

  -- `DEPENDENTS`: a stop raises with the handles of the services that still need this one.
  pub request-dependents :
      (fuel : ℕ) (c : Client S) (payload : Bytes) (ps : List Packet) (handles : List ℕ)
      (rest : Bytes)
      → length handles < 256 ^ abi.sizeof_long
      → All (λ h. h < 2 ^ 32) handles
      → Answered S L abi c payload fuel ps
          (reply_value Reply.dependents)
          (word abi abi.sizeof_long (length handles) ++ (handles_bytes handles ++ rest))
      → (s' : S.State) × (request abi fuel payload on_stop c ≡ (
        err (dependents handles),
        record c { stream = s'; pending = none; events = buffered c.events ps },
      ))
        × (L.incoming s' ≡ rest)
  request-dependents fuel c payload ps handles rest hl hs a =
      request-Completes S L abi fuel c payload on_stop ps (reply_value Reply.dependents) _ rest
        (refused on_stop (dependents handles)) a
        (λ s left.
          on_stop-dependents fuel (answering_client S L abi c on_stop ps s) handles rest hl hs refl
            left)

  on_status-status :
      (fuel size : ℕ) (c : Client S) (w : WireStatus) (reserved : ℕ) (rest : Bytes)
      → length (status_bytes abi w c.version) ≡ size
      → DetailFits abi w c.version w.detail
      → TimesFit abi w
      → c.pending ≡ some (fresh (on_status size))
      → L.incoming c.stream ≡ reserved ∷ (status_bytes abi w c.version ++ rest)
      → Completes S L abi fuel
          (on_status size)
          (reply_value Reply.servicestatus)
          c
          (finished (on_status size) (status (status_of w c.version)))
          rest
  on_status-status fuel size c w reserved rest hz hd ht hp e =
      unfold handle is_reply set_result in
      Yields-bind S L (read 1) _ c Goal
        (read-front S L 1 c (reserved ∷ []) (status_bytes abi w c.version ++ rest) e refl)
        (λ s1 left1.
          Yields-bind S L (read size) _ (record c { stream = s1 }) Goal
            (read-front S L size (record c { stream = s1 }) (status_bytes abi w c.version) rest
              left1 hz)
            (λ s2 left2.
              (s2, rw (decode_status-status_bytes abi w c.version hd ht) (rw hp), left2, refl)))
    where
      Goal : Result (Unit {0}) × Client S → Type 0
      Goal r =
          (s' : S.State) × (r ≡ (
            ok tt,
            record c {
              stream = s';
              pending = some (finished (on_status size) (status (status_of w c.version)));
            },
          ))
          × (L.incoming s' ≡ rest)
          × (true ≡ true)

  -- A request with the status handler that is answered with `SERVICESTATUS`, a reserved byte and a
  -- status in the layout of the client's protocol version returns the fields of that status, if
  -- the handler was made for the size of that layout; the packets' events are buffered in order,
  -- no command is in flight, and the bytes behind the status are still to be read.
  pub request-status :
      (fuel size : ℕ) (c : Client S) (payload : Bytes) (ps : List Packet) (w : WireStatus)
      (reserved : ℕ) (rest : Bytes)
      → length (status_bytes abi w c.version) ≡ size
      → DetailFits abi w c.version w.detail
      → TimesFit abi w
      → Answered S L abi c payload fuel ps
          (reply_value Reply.servicestatus)
          (reserved ∷ (status_bytes abi w c.version ++ rest))
      → (s' : S.State) × (request abi fuel payload (on_status size) c ≡ (
        ok (status (status_of w c.version)),
        record c { stream = s'; pending = none; events = buffered c.events ps },
      ))
        × (L.incoming s' ≡ rest)
  request-status fuel size c payload ps w reserved rest hz hd ht a =
      request-Completes S L abi fuel c payload (on_status size) ps (reply_value Reply.servicestatus)
        _ rest (finished (on_status size) (status (status_of w c.version))) a
        (λ s left.
          on_status-status fuel size (answering_client S L abi c (on_status size) ps s) w reserved
            rest hz hd ht refl left)
