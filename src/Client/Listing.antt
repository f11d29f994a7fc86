-- ===== src/Client/Listing.antt =====
-- The handler of `list_services` (dinit-client/src/dinit_client/client.py) on the services that the
-- daemon sends one after the other, with information packets between them.
use dinix.Shared.{
  ℕ, zero, suc, ◌+◌, ◌≤◌, ◌≡◌, refl, true, none, List, [], ◌∷◌, ◌++◌, arith, length, min, All,
}
use dinix.Shared.Dict.{insert}
use dinix.Exceptions.{Result, ok}
use dinix.Struct.{Abi, Bytes}
use dinix.Utf8.{Str, encode}
use dinix.Utf8.RoundTrip.{decode-encode}
use dinix.Protocol.Enums.{Reply, reply_value}
use dinix.Protocol.Records.{ServiceStatus, Event}
use dinix.Protocol.Replies.Status.{
  WireStatus, status_of, status_bytes, DetailFits, TimesFit, decode_status-status_bytes,
}
use dinix.Stream.{SocketStream, IsStream}
use dinix.Client.Task.{Client, on_list, services, read}
use dinix.Client.Reader.{
  list_status_size, list_item, list_loop, is_reply, set_result, with_result, read_byte, handle,
}
use dinix.Protocol.Requests
use dinix.Client.Commands.{list_services}
use dinix.Client.Answers.{Answered, answering_client, request-CompletesWith}
use dinix.Client.Framing.{
  Packet, packet_bytes, buffered, IsPacket, Yields, Yields-bind, read-front, read_byte-front,
  next_reply-packets,
}

-- A service as the daemon sends it, and the packets behind it.
pub record Entry : Type 0 where
  pub name : Str
  pub raw : Bytes
  pub info : WireStatus
  pub behind : List Packet

-- The dictionary that the entries make, the later ones winning.
abbrev pub entered : ℕ → List Entry → List (Str × ServiceStatus) → List (Str × ServiceStatus)
entered version [] items = items
entered version (e ∷ es) items =
    entered version es (insert e.name (status_of e.info (min version 5)) items)

abbrev pub rounds : List Entry → ℕ
rounds [] = 0
rounds (e ∷ es) = 2 + length e.behind + rounds es

abbrev pub all_buffered : List Event → List Entry → List Event
all_buffered events [] = events
all_buffered events (e ∷ es) = all_buffered (buffered events e.behind) es

module _ (S : SocketStream) (abi : Abi) where
  pub record IsEntry (version : ℕ) (e : Entry) : Type 0 where
    pub encoded : encode e.name ≡ ok e.raw
    pub sized : length (status_bytes abi e.info (min version 5)) ≡ list_status_size abi version
    pub fits : DetailFits abi e.info (min version 5) e.info.detail
    pub times : TimesFit abi e.info
    pub packets : All (IsPacket S abi version) e.behind

  -- A service, behind its `SVCINFO`: the length of its name, its status, its name.
  abbrev pub entry_bytes : ℕ → Entry → Bytes → Bytes
  entry_bytes version e rest =
      length e.raw
      ∷ (status_bytes abi e.info (min version 5) ++ (e.raw ++ (packet_bytes e.behind ++ rest)))

  -- The services, each but the first behind a `SVCINFO`, and `LISTDONE`.
  abbrev pub entries_bytes : ℕ → Entry → List Entry → Bytes → Bytes
  entries_bytes version e [] rest = entry_bytes version e (reply_value Reply.listdone ∷ rest)
  entries_bytes version e (f ∷ es) rest =
      entry_bytes version e (reply_value Reply.svcinfo ∷ entries_bytes version f es rest)

module _ (S : SocketStream) (L : IsStream S) (abi : Abi) where
  list_item-entry_bytes :
      (c : Client S) (e : Entry) (rest : Bytes)
      → IsEntry S abi c.version e
      → L.incoming c.stream ≡ entry_bytes S abi c.version e rest
      → Yields S L
          (list_item abi)
          c
          (e.name, status_of e.info (min c.version 5))
          (packet_bytes e.behind ++ rest)
  unfolding list_item
  list_item-entry_bytes c e rest h at_front =
      let v = min c.version 5 in
      let sent = packet_bytes e.behind ++ rest in
      Yields-bind S L read_byte _ c Goal
        (read_byte-front S L c (length e.raw) (status_bytes abi e.info v ++ (e.raw ++ sent))
          at_front)
        (λ s1 left1.
          Yields-bind S L (read (list_status_size abi c.version)) _ (record c { stream = s1 }) Goal
            (read-front S L (list_status_size abi c.version) (record c { stream = s1 })
              (status_bytes abi e.info v) (e.raw ++ sent) left1 h.sized)
            (λ s2 left2. rw (decode_status-status_bytes abi e.info v h.fits h.times) (
              Yields-bind S L (read (length e.raw)) _ (record c { stream = s2 }) Goal
                (read-front S L (length e.raw) (record c { stream = s2 }) e.raw sent left2 refl)
                (λ s3 left3. rw (decode-encode e.name e.raw h.encoded) (s3, refl, left3)))))
    where
      Goal : Result (Str × ServiceStatus) × Client S → Type 0
      Goal r =
          (s' : S.State) × (r
            ≡ (ok (e.name, status_of e.info (min c.version 5)), record c { stream = s' }))
          × (L.incoming s' ≡ packet_bytes e.behind ++ rest)

  -- What the loop comes to: the dictionary is the result, and the events are in the buffer.
  abbrev Listed :
      Client S
      → List Entry
      → List (Str × ServiceStatus)
      → Bytes
      → Result (Unit {0}) × Client S
      → Type 0
  Listed c es items rest r =
      (s' : S.State) × (r ≡ (
        ok tt,
        record c {
          stream = s';
          pending = with_result (services (entered c.version es items)) c.pending;
          events = all_buffered c.events es;
        },
      ))
      × (L.incoming s' ≡ rest)

  -- The loop reads every service and every packet.
  list_loop-entries :
      (fuel : ℕ) (items : List (Str × ServiceStatus)) (c : Client S) (e : Entry) (es : List Entry)
      (rest : Bytes)
      → rounds (e ∷ es) ≤ fuel
      → All (IsEntry S abi c.version) (e ∷ es)
      → L.incoming c.stream ≡ entries_bytes S abi c.version e es rest
      → Listed c (e ∷ es) items rest (list_loop abi fuel items c)
  unfolding list_loop is_reply reply_value set_result
  list_loop-entries zero items c e es rest hf hs h = absurd (omega arith)
  list_loop-entries (suc fuel) items c e [] rest hf (he, hs) h =
      Yields-bind S L (list_item abi) _ c (Listed c (e ∷ []) items rest)
        (list_item-entry_bytes c e (reply_value Reply.listdone ∷ rest) he h)
        (λ s1 left1.
          let (s2, e2, left2) =
            next_reply-packets S L abi e.behind fuel (record c { stream = s1 })
              (reply_value Reply.listdone) rest (omega arith) (omega arith) he.packets left1 in
          (s2, rw e2, left2))
  list_loop-entries (suc fuel) items c e (f ∷ es) rest hf (he, hs) h =
      let behind = entries_bytes S abi c.version f es rest in
      Yields-bind S L (list_item abi) _ c (Listed c (e ∷ f ∷ es) items rest)
        (list_item-entry_bytes c e (reply_value Reply.svcinfo ∷ behind) he h)
        (λ s1 left1.
          let (s2, e2, left2) =
            next_reply-packets S L abi e.behind fuel (record c { stream = s1 })
              (reply_value Reply.svcinfo) behind (omega arith) (omega arith) he.packets left1 in
          let (s3, e3, left3) =
            list_loop-entries fuel (insert e.name (status_of e.info (min c.version 5)) items)
              (record c { stream = s2; events = buffered c.events e.behind }) f es rest
              (omega arith) hs left2 in
          (s3, rw e2 e3, left3))

  -- If the daemon answers `list_services`, behind information packets, with one service or more,
  -- each with its name, its status in the layout that the list has under the client's protocol
  -- version and further information packets, and with `LISTDONE`, and the client has rounds enough
  -- to look at all of this, `list_services` returns the dictionary that the services make one
  -- after the other; the events of all packets are buffered in order, no command is in flight, and
  -- the bytes behind `LISTDONE` are still to be read.
  pub list_services-entries :
      (fuel : ℕ) (c : Client S) (ps : List Packet) (e : Entry) (es : List Entry) (rest : Bytes)
      → rounds (e ∷ es) ≤ fuel
      → All (IsEntry S abi c.version) (e ∷ es)
      → Answered S L abi c
          (Requests.list_services c.version)
          fuel
          ps
          (reply_value Reply.svcinfo)
          (entries_bytes S abi c.version e es rest)
      → (s' : S.State) × (list_services abi fuel c ≡ (
        ok (services (entered c.version (e ∷ es) [])),
        record c {
          stream = s';
          pending = none;
          events = all_buffered (buffered c.events ps) (e ∷ es);
        },
      ))
        × (L.incoming s' ≡ rest)
  unfolding list_services handle is_reply reply_value
  list_services-entries fuel c ps e es rest hf hs a =
      request-CompletesWith S L abi fuel c (Requests.list_services c.version) on_list ps
        (reply_value Reply.svcinfo) (entries_bytes S abi c.version e es rest) rest
        (record {
          handler = on_list;
          result = services (entered c.version (e ∷ es) []);
          error = none;
          done = true;
        })
        (all_buffered (buffered c.events ps) (e ∷ es)) a
        (λ s left.
          let (s', r, rest_left) =
            list_loop-entries fuel [] (answering_client S L abi c on_list ps s) e es rest hf hs
              left in
          (s', r, rest_left, refl))
