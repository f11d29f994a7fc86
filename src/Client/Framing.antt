-- ===== src/Client/Framing.antt =====
-- How the reader of dinit-client/src/dinit_client/client.py cuts the stream into replies and
-- information packets.
pub mod Packets
use dinix.Shared.{
  ℕ, zero, suc, ◌+◌, ◌-◌, ◌≤◌, ◌<◌, ◌≡◌, refl, sym, ap, ◌∙◌, Bool, true, false, Option, none, some,
  List, [], ◌∷◌, ◌++◌, append-nil, append_assoc, arith, ltb, le→ltb, lt→ltb, if◌then◌else◌, length,
  length-append, take, drop, take-append, drop-append_eq, All, subst,
}
use dinix.Exceptions.{Result, ok, err}
use dinix.Struct.{Abi, Bytes, byte_at}
use dinix.Protocol.Records.{Event}
use dinix.Stream.{SocketStream, IsStream, exactly}
use dinix.Stream.Exact.{exactly-Reads}
use dinix.Client.Task.{Client, Task, pure, ◌>>=◌, ◌>>◌, continue, read}
use dinix.Client.Reader.{event_buffer, read_byte, dispatch_info, info_packet, next_reply}

-- One information packet, and the event that it stands for.
pub record Packet : Type 0 where
  pub kind : ℕ
  pub payload : Bytes
  pub event : Option Event

abbrev pub packet_bytes : List Packet → Bytes
packet_bytes [] = []
packet_bytes (p ∷ ps) = p.kind ∷ (2 + length p.payload) ∷ (p.payload ++ packet_bytes ps)

-- What the buffer holds once an event has arrived: a full buffer drops it.
abbrev pub add_event : List Event → Option Event → List Event
add_event events none = events
add_event events (some e) = if ltb (length events) event_buffer then events ++ (e ∷ []) else events

abbrev pub buffered : List Event → List Packet → List Event
buffered events [] = events
buffered events (p ∷ ps) = buffered (add_event events p.event) ps

-- The packet is one that the client reads as its event, or as none.
pub record IsPacket (S : SocketStream) (abi : Abi) (version : ℕ) (p : Packet) : Type 0 where
  pub is_info : 100 ≤ p.kind
  pub dispatched :
      (c : Client S)
      → c.version ≡ version
      → dispatch_info abi p.kind p.payload c
        ≡ (ok tt, record c { events = add_event c.events p.event })

module _ (S : SocketStream) (L : IsStream S) where
  -- The task returns `a`, reads up to `rest`, and changes nothing but the stream.
  abbrev pub Yields : {A : Type 0} → Task S A → Client S → A → Bytes → Type 0
  Yields m c a rest =
      (s' : S.State) × (m c ≡ (ok a, record c { stream = s' })) × (L.incoming s' ≡ rest)

  -- What follows such a task is judged from where it leaves the client.
  pub Yields-bind :
      {A B : Type 0} (m : Task S A) (f : A → Task S B) (c : Client S) {a : A} {rest : Bytes}
      (P : Result B × Client S → Type 0)
      → Yields m c a rest
      → ((s' : S.State) → L.incoming s' ≡ rest → P (f a (record c { stream = s' })))
      → P ((m >>= f) c)
  Yields-bind m f c P (s', e, left) k = subst (λ r. P (continue f r)) (sym e) (k s' left)

  take_front : (n : ℕ) (bs rest : Bytes) → length bs ≡ n → take n (bs ++ rest) ≡ bs
  take_front n bs rest h = rw (← h) (take-append bs rest)

  -- The bytes that stand at the front of the stream are read.
  pub read-front :
      (n : ℕ) (c : Client S) (bs rest : Bytes)
      → L.incoming c.stream ≡ bs ++ rest
      → length bs ≡ n
      → Yields (read n) c bs rest
  read-front n c bs rest h size = go (exactly-Reads S L n c.stream fits)
    where
      fits : n ≤ length (L.incoming c.stream)
      fits = rw h (omega (arith, length-append bs rest))

      go :
          ((s' : S.State) × (exactly S n c.stream ≡ (ok (take n (L.incoming c.stream)), s'))
            × (L.incoming s' ≡ drop n (L.incoming c.stream)))
          → Yields (read n) c bs rest
      go (s', e, left) = (
        s',
        unfold read in rw (e) (rw h (rw (take_front n bs rest size))),
        left ∙ rw h (drop-append_eq bs rest n size),
      )

  pub read_byte-front :
      (c : Client S) (b : ℕ) (rest : Bytes)
      → L.incoming c.stream ≡ b ∷ rest
      → Yields read_byte c b rest
  read_byte-front c b rest h =
      unfold read_byte byte_at in
      Yields-bind (read 1) _ c
        (λ r. (s' : S.State) × (r ≡ (ok b, record c { stream = s' })) × (L.incoming s' ≡ rest))
        (read-front 1 c (b ∷ []) rest h refl) (λ s' left. (s', refl, left))

module _ (S : SocketStream) (L : IsStream S) (abi : Abi) where
  -- A byte below 100 is the reply.
  pub next_reply-reply :
      (fuel : ℕ) (c : Client S) (reply : ℕ) (rest : Bytes)
      → reply < 100
      → L.incoming c.stream ≡ reply ∷ rest
      → Yields S L (next_reply abi (suc fuel)) c reply rest
  next_reply-reply fuel c reply rest hr h =
      unfold next_reply in
      Yields-bind S L read_byte _ c
        (λ r. (s' : S.State) × (r ≡ (ok reply, record c { stream = s' })) × (L.incoming s' ≡ rest))
        (read_byte-front S L c reply rest h) (λ s' left. rw (lt→ltb reply 100 hr) (s', refl, left))

  -- What stands behind an information packet is read with its event in the buffer.
  info_packet-packet :
      (behind : Task S ℕ) (c : Client S) (p : Packet) (rest : Bytes)
      → IsPacket S abi c.version p
      → L.incoming c.stream ≡ (2 + length p.payload) ∷ (p.payload ++ rest)
      → (s' : S.State) × (info_packet abi behind p.kind c
          ≡ behind (record c { stream = s'; events = add_event c.events p.event }))
        × (L.incoming s' ≡ rest)
  info_packet-packet behind c p rest hp h =
      unfold info_packet in
      Yields-bind S L read_byte _ c Goal
        (read_byte-front S L c (2 + length p.payload) (p.payload ++ rest) h)
        (λ s1 left1. rw (le→ltb (2 + length p.payload) 2 (omega arith)) (
          Yields-bind S L (read (2 + length p.payload - 2)) _ (record c { stream = s1 }) Goal
            (read-front S L (2 + length p.payload - 2) (record c { stream = s1 }) p.payload rest
              left1 (omega arith))
            (λ s2 left2. (s2, rw (hp.dispatched (record c { stream = s2 }) refl), left2))))
    where
      Goal : Result ℕ × Client S → Type 0
      Goal r =
          (s' : S.State) × (r
            ≡ behind (record c { stream = s'; events = add_event c.events p.event }))
          × (L.incoming s' ≡ rest)

  next_reply-packet :
      (fuel : ℕ) (c : Client S) (p : Packet) (rest : Bytes)
      → IsPacket S abi c.version p
      → L.incoming c.stream ≡ p.kind ∷ (2 + length p.payload) ∷ (p.payload ++ rest)
      → (s' : S.State) × (next_reply abi (suc fuel) c
          ≡ next_reply abi fuel (record c { stream = s'; events = add_event c.events p.event }))
        × (L.incoming s' ≡ rest)
  next_reply-packet fuel c p rest hp h =
      unfold next_reply in
      Yields-bind S L read_byte _ c Goal
        (read_byte-front S L c p.kind ((2 + length p.payload) ∷ (p.payload ++ rest)) h)
        (λ s1 left1.
          rw (le→ltb p.kind 100 hp.is_info)
            (info_packet-packet (next_reply abi fuel) (record c { stream = s1 }) p rest hp left1))
    where
      Goal : Result ℕ × Client S → Type 0
      Goal r =
          (s' : S.State) × (r
            ≡ next_reply abi fuel (record c { stream = s'; events = add_event c.events p.event }))
          × (L.incoming s' ≡ rest)

  -- With a round for each information packet and one for the reply, `_next_reply` turns the
  -- packets in front of a reply below 100 into their events, in order, and returns the reply; a
  -- full buffer drops an event, and the bytes behind the reply are still to be read.
  pub next_reply-packets :
      (ps : List Packet) (fuel : ℕ) (c : Client S) (reply : ℕ) (rest : Bytes)
      → length ps < fuel
      → reply < 100
      → All (IsPacket S abi c.version) ps
      → L.incoming c.stream ≡ packet_bytes ps ++ (reply ∷ rest)
      → (s' : S.State) × (next_reply abi fuel c
          ≡ (ok reply, record c { stream = s'; events = buffered c.events ps }))
        × (L.incoming s' ≡ rest)
  next_reply-packets ps zero c reply rest hf hr hs h = absurd (omega arith)
  next_reply-packets [] (suc fuel) c reply rest hf hr hs h = next_reply-reply fuel c reply rest hr h
  next_reply-packets (p ∷ ps) (suc fuel) c reply rest hf hr hs h =
      let (s1, e1, left1) = next_reply-packet fuel c p (packet_bytes ps ++ (reply ∷ rest)) hs.0 (
        h
        ∙ ap (λ (t : Bytes). p.kind ∷ (2 + length p.payload) ∷ t)
            (append_assoc p.payload (packet_bytes ps) (reply ∷ rest))) in
      let (s2, e2, left2) =
        next_reply-packets ps fuel (record c { stream = s1; events = add_event c.events p.event })
          reply rest (omega arith) hr hs.1 left1 in
      (s2, e1 ∙ e2, left2)
