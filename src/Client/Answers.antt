-- ===== src/Client/Answers.antt =====
-- What a request of dinit-client/src/dinit_client/client.py comes to, from the bytes that the daemon
-- answers with: `_request`, the reader's rounds and the handlers together.
pub mod Handlers
pub mod Refusals
pub mod Environment
use dinix.Shared.{
  ℕ, zero, suc, ◌+◌, ◌≤◌, ◌<◌, ◌≡◌, refl, sym, ap, ◌∙◌, subst, Bool, true, false, Option, none,
  some, List, [], ◌∷◌, ◌++◌, arith, if◌then◌else◌, length, All, ◌⊎◌, inl, inr, ◌||◌,
}
use dinix.Exceptions.{Exception, Result, ok, err}
use dinix.Struct.{Abi, Bytes}
use dinix.Protocol.Records.{Event}
use dinix.Stream.{SocketStream, IsStream}
use dinix.Client.Task.{Handler, Object, Pending, Client, Task, ◌>>=◌, continue}
use dinix.Client.Reader.{next_reply, answer, handle, read_round}
use dinix.Client.Commands.{
  fresh, after_send, begin_request, outcome, finish_request, is_done, after_round, await_done,
  request,
}
use dinix.Client.Framing.{Packet, IsPacket, packet_bytes, buffered, next_reply-packets}

-- What the daemon does about a request: it takes the payload, and then sends information packets and
-- an answer, of which the first byte is the reply.
module _ (S : SocketStream) (L : IsStream S) (abi : Abi) where
  pub record Answered (c : Client S) (payload : Bytes) (fuel : ℕ) (ps : List Packet) (reply : ℕ)
      (rest : Bytes) : Type 0 where
    pub is_open : c.closed ≡ false
    pub sent : S.State
    pub sending : S.send payload c.stream ≡ (ok tt, sent)
    pub answering : L.incoming sent ≡ packet_bytes ps ++ (reply ∷ rest)
    pub is_reply : reply < 100
    pub packets : All (IsPacket S abi c.version) ps
    pub enough : length ps + 1 ≤ fuel

  -- The client while the handler of the reply runs.
  abbrev pub answering_client : Client S → Handler → List Packet → S.State → Client S
  answering_client c h ps s = record c {
    stream = s;
    pending = some (fresh h);
    events = buffered c.events ps;
  }

  -- The handler leaves the command done, with `p` for its result, and the given events.
  abbrev pub CompletesWith : ℕ → Handler → ℕ → Client S → Pending → List Event → Bytes → Type 0
  CompletesWith fuel h reply c p events rest =
      (s' : S.State) × (handle abi fuel h reply c
        ≡ (ok tt, record c { stream = s'; pending = some p; events = events }))
      × (L.incoming s' ≡ rest)
      × (p.done ≡ true)

  -- The same, of a handler that takes no events in.
  abbrev pub Completes : ℕ → Handler → ℕ → Client S → Pending → Bytes → Type 0
  Completes fuel h reply c p rest = CompletesWith fuel h reply c p c.events rest

  begin_request-sent :
      (c : Client S) (payload : Bytes) (h : Handler) (s : S.State)
      → c.closed ≡ false
      → S.send payload c.stream ≡ (ok tt, s)
      → begin_request payload h c ≡ (ok tt, record c { stream = s; pending = some (fresh h) })
  begin_request-sent c payload h s o e = unfold begin_request in rw o (rw e)

  await_done-done :
      (fuel rounds : ℕ) (c : Client S)
      → is_done c ≡ true
      → await_done abi fuel rounds c ≡ (ok tt, c)
  await_done-done fuel zero c h = unfold await_done in rw h
  await_done-done fuel (suc rounds) c h = unfold await_done in rw (h, await_done)

  await_done-round :
      (fuel rounds : ℕ) (c c' : Client S)
      → is_done c ≡ false
      → read_round abi fuel c ≡ (ok tt, c')
      → is_done c' ≡ true
      → await_done abi fuel (suc rounds) c ≡ (ok tt, c')
  await_done-round fuel rounds c c' h e d =
      unfold await_done in
      rw (h, await_done) (rw e (unfold after_round in await_done-done fuel rounds c' d))

  read_round-answer :
      (fuel : ℕ) (c c' : Client S) (reply : ℕ) (p : Pending)
      → next_reply abi fuel c ≡ (ok reply, c')
      → c'.pending ≡ some p
      → read_round abi fuel c ≡ handle abi fuel p.handler reply c'
  read_round-answer fuel c c' reply p e hp = unfold read_round in rw e (rw hp)

  -- A request is answered: its result is what the handler left, the events are those behind the
  -- handler, and no command is in flight.
  pub request-CompletesWith :
      (fuel : ℕ) (c : Client S) (payload : Bytes) (h : Handler) (ps : List Packet) (reply : ℕ)
      (rest rest' : Bytes) (p : Pending) (events : List Event)
      → Answered c payload fuel ps reply rest
      → ((s : S.State)
          → L.incoming s ≡ rest
          → CompletesWith fuel h reply (answering_client c h ps s) p events rest')
      → (s' : S.State) × (request abi fuel payload h c
          ≡ (outcome (some p), record c { stream = s'; pending = none; events = events }))
        × (L.incoming s' ≡ rest')
  unfolding is_done
  request-CompletesWith zero c payload h ps reply rest rest' p events a k =
      absurd (omega (arith, a.enough))
  request-CompletesWith (suc fuel) c payload h ps reply rest rest' p events a k =
      let sent_client = record c { stream = a.sent; pending = some (fresh h) } in
      let (s1, e1, left1) =
        next_reply-packets S L abi ps (suc fuel) sent_client reply rest (omega (arith, a.enough))
          a.is_reply a.packets a.answering in
      let (s2, e2, left2, d) = k s1 left1 in
      let e3 =
        read_round-answer (suc fuel) sent_client (answering_client c h ps s1) reply (fresh h) e1
          refl
        ∙ e2 in
      (
        s2,
        unfold request finish_request in
            rw (begin_request-sent c payload h a.sent a.is_open a.sending)
              (rw (await_done-round (suc fuel) fuel sent_client _ refl e3 d)),
        left2,
      )

  -- The same, of a handler that takes no events in.
  pub request-Completes :
      (fuel : ℕ) (c : Client S) (payload : Bytes) (h : Handler) (ps : List Packet) (reply : ℕ)
      (rest rest' : Bytes) (p : Pending)
      → Answered c payload fuel ps reply rest
      → ((s : S.State)
          → L.incoming s ≡ rest
          → Completes fuel h reply (answering_client c h ps s) p rest')
      → (s' : S.State) × (request abi fuel payload h c ≡ (
        outcome (some p),
        record c { stream = s'; pending = none; events = buffered c.events ps },
      ))
        × (L.incoming s' ≡ rest')
  request-Completes fuel c payload h ps reply rest rest' p a k =
      request-CompletesWith fuel c payload h ps reply rest rest' p (buffered c.events ps) a k
