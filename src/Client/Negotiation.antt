-- ===== src/Client/Negotiation.antt =====
-- `_negotiate` and the version that `connect` sets (dinit-client/src/dinit_client/client.py).
use dinix.Shared.{
  ℕ, ◌^◌, ◌≤◌, ◌<◌, ◌≡◌, refl, true, none, some, List, [], ◌++◌, arith, lt→ltb, le→ltb,
  length-append, ◌⊎◌, inl, inr,
}
use dinix.Exceptions.{ok, err, protocol_error}
use dinix.Struct.{Abi, Bytes, word}
use dinix.Struct.RoundTrip.{length-word, unpack_from-word}
use dinix.Protocol.Enums.{Reply, reply_value}
use dinix.Protocol.Records.{Version}
use dinix.Protocol.Requests.{max_protocol}
use dinix.Protocol.Requests
use dinix.Protocol.Replies.{decode_version}
use dinix.Stream.{SocketStream, IsStream}
use dinix.Client.Task.{on_version, Object, Pending, Client, read}
use dinix.Client.Reader.{handle, is_reply, set_result}
use dinix.Client.Commands.{fresh, request, as_version, negotiate, connect}
use dinix.Client.Framing.{Packet, buffered, Yields-bind, read-front}
use dinix.Client.Answers.{Answered, Completes, answering_client, request-Completes}

le_or_lt : (a b : ℕ) → (a ≤ b) ⊎ (b < a)
le_or_lt a b = ground arith

-- The reply `CPVERSION` behind its code.
abbrev pub version_bytes : Abi → Version → Bytes
version_bytes abi v = word abi 2 v.min_compat ++ (word abi 2 v.protocol ++ [])

decode_version-version_bytes :
    (abi : Abi) (v : Version)
    → v.min_compat < 2 ^ 16
    → v.protocol < 2 ^ 16
    → decode_version abi (version_bytes abi v) ≡ ok v
unfolding decode_version
decode_version-version_bytes abi v hc hp =
    rw (unpack_from-word abi 2 v.min_compat 0 [] (word abi 2 v.protocol ++ []) hc refl) (
      rw (
        unpack_from-word abi 2 v.protocol 2 (word abi 2 v.min_compat) [] hp
          (length-word abi 2 v.min_compat)))

module _ (S : SocketStream) (L : IsStream S) (abi : Abi) where
  abbrev known : Version → Pending
  known v = record { handler = on_version; result = Object.version v; error = none; done = true }

  on_version-version :
      (fuel : ℕ) (c : Client S) (v : Version) (rest : Bytes)
      → v.min_compat < 2 ^ 16
      → v.protocol < 2 ^ 16
      → c.pending ≡ some (fresh on_version)
      → L.incoming c.stream ≡ version_bytes abi v ++ rest
      → Completes S L abi fuel on_version (reply_value Reply.cpversion) c (known v) rest
  on_version-version fuel c v rest hc hv hp h =
      unfold handle is_reply set_result in
      Yields-bind S L (read 4) _ c
        (λ x.
          (s' : S.State) × (x ≡ (ok tt, record c { stream = s'; pending = some (known v) }))
          × (L.incoming s' ≡ rest)
          × (true ≡ true))
        (read-front S L 4 c (version_bytes abi v) rest h (
          omega (
            arith,
            length-append (word abi 2 v.min_compat) (word abi 2 v.protocol ++ []),
            length-append (word abi 2 v.protocol) [],
            length-word abi 2 v.min_compat,
            length-word abi 2 v.protocol,
          )))
        (λ s left. (s, rw (decode_version-version_bytes abi v hc hv) (rw hp), left, refl))

  -- The daemon answers the question for its version with `v`.
  pub record Offered (c : Client S) (fuel : ℕ) (ps : List Packet) (v : Version) (rest : Bytes)
      : Type 0 where
    pub compat_fits : v.min_compat < 2 ^ 16
    pub protocol_fits : v.protocol < 2 ^ 16
    pub answered :
        Answered S L abi c Requests.query_version fuel ps
          (reply_value Reply.cpversion)
          (version_bytes abi v ++ rest)

  -- The client once the version has been told, whatever is made of it.
  abbrev pub told : Client S → List Packet → S.State → Client S
  told c ps s = record c { stream = s; pending = none; events = buffered c.events ps }

  request-version :
      (fuel : ℕ) (c : Client S) (ps : List Packet) (v : Version) (rest : Bytes)
      → Offered c fuel ps v rest
      → (s' : S.State) × (request abi fuel Requests.query_version on_version c
          ≡ (ok (Object.version v), told c ps s'))
        × (L.incoming s' ≡ rest)
  request-version fuel c ps v rest o =
      request-Completes S L abi fuel c Requests.query_version on_version ps
        (reply_value Reply.cpversion) (version_bytes abi v ++ rest) rest (known v) o.answered
        (λ s left.
          on_version-version fuel (answering_client S L abi c on_version ps s) v rest o.compat_fits
            o.protocol_fits refl left)

  -- If the daemon answers the question for its version, behind information packets, with two
  -- numbers of 16 bits, asks for protocol 7 at most and speaks at least `min_version`, `connect`
  -- sets the client's version to the daemon's protocol; the events are buffered in order, no
  -- command is in flight, and the bytes behind the answer are still to be read.
  pub connect-accepts :
      (fuel min_version : ℕ) (c : Client S) (ps : List Packet) (v : Version) (rest : Bytes)
      → Offered c fuel ps v rest
      → v.min_compat ≤ max_protocol
      → min_version ≤ v.protocol
      → (s' : S.State) × (connect abi fuel min_version c
          ≡ (ok tt, record (told c ps s') { version = v.protocol }))
        × (L.incoming s' ≡ rest)
  unfolding connect negotiate as_version
  connect-accepts fuel min_version c ps v rest o hc hm =
      let (s, e, left) = request-version fuel c ps v rest o in
      (
        s,
        rw e (rw (le→ltb max_protocol v.min_compat hc) (rw (le→ltb v.protocol min_version hm))),
        left,
      )

  -- If the daemon answers the question for its version, behind information packets of which the
  -- client has rounds enough to look at all, with two numbers of 16 bits, and asks for a protocol
  -- above 7 or speaks one below `min_version`, `connect` raises `ProtocolError` and the client
  -- keeps its version; the events are buffered in order, no command is in flight, and the bytes
  -- behind the answer are still to be read.
  pub connect-refuses :
      (fuel min_version : ℕ) (c : Client S) (ps : List Packet) (v : Version) (rest : Bytes)
      → Offered c fuel ps v rest
      → (max_protocol < v.min_compat) ⊎ (v.protocol < min_version)
      → (s' : S.State) × (connect abi fuel min_version c ≡ (err protocol_error, told c ps s'))
        × (L.incoming s' ≡ rest)
  unfolding connect negotiate as_version
  connect-refuses fuel min_version c ps v rest o h =
      let (s, e, left) = request-version fuel c ps v rest o in
      (
        s,
        rw e (elim (le_or_lt v.min_compat max_protocol) [
          | inl fits ↦ rw (le→ltb max_protocol v.min_compat fits) (
              rw (
                lt→ltb v.protocol min_version
                  (elim h [ inl newer ↦ absurd (omega (arith, newer, fits)) | inr older ↦ older ])))
          | inr newer ↦ rw (lt→ltb max_protocol v.min_compat newer)
        ]),
        left,
      )
