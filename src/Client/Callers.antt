-- ===== src/Client/Callers.antt =====
-- Several callers of `_request` (dinit-client/src/dinit_client/client.py), the reader and the lock: who
-- waits for an answer, and whose handler gets it.
use dinix.Shared.{
  ◌≤◌, ◌<◌, arith, ℕ, ◌≡◌, refl, ◌∙◌, Bool, true, false, Option, none, some, List, [], ◌∷◌,
  if◌then◌else◌, inl, inr, subst, ◌⊎◌,
}
use dinix.Exceptions.{
  Exception, Result, ok, err, broken_resource, closed_resource, connection_closed, protocol_error,
}
use dinix.Struct.{Abi, Bytes}
use dinix.Protocol.Enums.{Reply, reply_value}
use dinix.Stream.{SocketStream, IsStream}
use dinix.Client.Task.{Handler, on_ack, nothing, Pending, Client, Task, raise}
use dinix.Client.Reader.{read_exit, read_round, handle, answer}
use dinix.Client.Commands.{
  fresh, begin_request, after_send, finish_request, is_done, after_round, request,
}
use dinix.Client.Framing.{Packet, buffered, next_reply-packets}
use dinix.Client.Answers.{Answered}
use dinix.Client.Answers.Handlers.{request-ack}
use dinix.Client.Invariant.{handler_of, handler_of-error, read_round-Grows}

-- The client and its lock: the handler that the caller inside `async with self._lock` waits with.
pub record Callers (S : SocketStream) : Type 0 where
  pub client : Client S
  pub holder : Option Handler

-- A request whose packet is sent waits; any other leaves the lock at once.
abbrev pub begun : {S : SocketStream} → Handler → Result (Unit {0}) × Client S → Callers S
begun h (ok x, c) = record { client = c; holder = some h }
begun h (err e, c) = record { client = c; holder = none }

module _ {S : SocketStream} (abi : Abi) (fuel : ℕ) (cancelling : Bool) where
  pub data Step (s : Callers S) : Callers S → Type 0 where
    begins :
        (payload : Bytes) (h : Handler)
        → s.holder ≡ none
        → Step s (begun h (begin_request payload h s.client))
    reads :
        s.client.closed ≡ false
        → Step s (record s { client = after_round abi fuel (read_round abi fuel s.client) })
    finishes :
        (h : Handler)
        → s.holder ≡ some h
        → is_done s.client ≡ true
        → Step s (record { client = (finish_request s.client).1; holder = none })
    -- the caller is cancelled at its `await`, which leaves the lock and nothing else
    cancels : cancelling ≡ true → Step s (record s { holder = none })

  pub data Reach (s : Callers S) : Callers S → Type 0 where
    here : Reach s s
    next : {t u : Callers S} → Reach s t → Step t u → Reach s u

-- anyio documents these two exceptions of `send`.
abbrev pub SendBreaks : SocketStream → Type 0
SendBreaks S =
    (payload : Bytes) (s s' : S.State) (e : Exception)
    → S.send payload s ≡ (err e, s')
    → (e ≡ broken_resource) ⊎ (e ≡ closed_resource)

-- The command in flight is that of the caller in the lock.
abbrev pub IsOwned : {S : SocketStream} → Callers S → Type 0
IsOwned s = handler_of s.client.pending ≡ s.holder

module _ {S : SocketStream} (breaks : SendBreaks S) where
  sent-IsOwned :
      (h : Handler) (c : Client S) (payload : Bytes) (s : S.State) (r : Result (Unit {0}))
      (s' : S.State)
      → S.send payload s ≡ (r, s')
      → IsOwned (begun h (after_send (r, s') (record c { pending = some (fresh h) })))
  unfolding after_send
  sent-IsOwned h c payload s (ok x) s' e = refl
  sent-IsOwned h c payload s (err x) s' e = elim (breaks payload s s' x e) [
    | inl broken ↦ rw broken
    | inr closed ↦ rw closed
  ]

  chosen-IsOwned :
      (closed : Bool) (payload : Bytes) (h : Handler) (c : Client S)
      → handler_of c.pending ≡ none
      → IsOwned (
          begun h (
            if closed
            then (err connection_closed, c)
            else after_send (S.send payload c.stream) (record c { pending = some (fresh h) })))
  chosen-IsOwned true payload h c free = free
  chosen-IsOwned false payload h c free = sent-IsOwned h c payload c.stream _ _ refl

  begins-IsOwned :
      (payload : Bytes) (h : Handler) (c : Client S)
      → handler_of c.pending ≡ none
      → IsOwned (begun h (begin_request payload h c))
  unfolding begin_request
  begins-IsOwned payload h c = chosen-IsOwned c.closed payload h c

module _ {S : SocketStream} (abi : Abi) (fuel : ℕ) where
  -- A round of the reader, however it ends, leaves the handler of the command in flight.
  pub round-handler :
      (r : Result (Unit {0})) (c : Client S)
      → handler_of (after_round abi fuel (r, c)).pending ≡ handler_of c.pending
  unfolding after_round read_exit
  round-handler (ok x) c = refl
  round-handler (err e) c = handler_of-error _ c.pending

  Step-IsOwned : {s t : Callers S} → SendBreaks S → Step abi fuel false s t → IsOwned s → IsOwned t
  Step-IsOwned {s} breaks (begins payload h free) own =
      begins-IsOwned breaks payload h s.client (own ∙ free)
  Step-IsOwned {s} breaks (reads open_client) own =
      round-handler _ _ ∙ (read_round-Grows abi fuel s.client).same_handler ∙ own
  Step-IsOwned breaks (finishes h held done) own = unfold finish_request in refl
  Step-IsOwned breaks (cancels h) own = cc

  Reach-IsOwned :
      {s t : Callers S} → SendBreaks S → Reach abi fuel false s t → IsOwned s → IsOwned t
  Reach-IsOwned breaks here own = own
  Reach-IsOwned breaks (next r step) own = Step-IsOwned breaks step (Reach-IsOwned breaks r own)

  -- What is done about a reply for the caller in the lock.
  abbrev pub for_holder : Option Handler → ℕ → Task S (Unit {0})
  for_holder none reply = raise protocol_error
  for_holder (some h) reply = handle abi fuel h reply

  answer-handler :
      (p : Option Pending) (h : Option Handler) (reply : ℕ)
      → handler_of p ≡ h
      → answer {S = S} abi fuel p reply ≡ for_holder h reply
  unfolding answer
  answer-handler none h reply e = rw (← e)
  answer-handler (some p) h reply e = rw (← e)

  -- If `send` raises nothing but the two exceptions that anyio documents, the command in flight is
  -- at first that of the caller in the lock, and no caller is cancelled, then after any sequence
  -- of requests that begin, rounds of the reader and requests that end a reply goes to the handler
  -- of the caller in the lock, and with nobody in the lock it is a `ProtocolError`.
  pub answer-holder :
      {s t : Callers S}
      → SendBreaks S
      → handler_of s.client.pending ≡ s.holder
      → Reach abi fuel false s t
      → (reply : ℕ) → answer abi fuel t.client.pending reply ≡ for_holder t.holder reply
  answer-holder breaks own r reply = answer-handler _ _ reply (Reach-IsOwned breaks r own)

-- A caller that is cancelled while it waits leaves `_pending` and the reply that is still to come.
module _ (S : SocketStream) (L : IsStream S) (abi : Abi) where
  -- The round that a reply without a command ends in.
  stray_reply :
      (fuel : ℕ) (c : Client S) (reply : ℕ) (rest : Bytes)
      → 1 ≤ fuel
      → c.pending ≡ none
      → reply < 100
      → L.incoming c.stream ≡ reply ∷ rest
      → (read_round abi fuel c).0 ≡ err protocol_error
  unfolding read_round answer
  stray_reply fuel c reply rest hf free small left =
      let (s', e, _) =
        next_reply-packets S L abi [] fuel c reply rest (omega arith) small tt left in
      rw e (rw free)

  ended_by :
      (fuel : ℕ) (r : Result (Unit {0})) (c : Client S) (e : Exception)
      → r ≡ err e
      → (after_round abi fuel (r, c)).closed ≡ true
  unfolding after_round read_exit
  ended_by fuel r c e h = rw h

  -- A caller that sends its request and is cancelled.
  gives_up :
      (fuel : ℕ) (c c1 : Client S) (payload : Bytes) (h : Handler)
      → begin_request payload h c ≡ (ok tt, c1)
      → Reach abi fuel true
          (record { client = c; holder = none })
          (record { client = c1; holder = none })
  gives_up fuel c c1 payload h e =
      let s : Callers S = record { client = c; holder = none } in
      next (next here (subst (λ x. Step abi fuel true s (begun h x)) e (begins payload h refl)))
        (cancels refl)

  -- If a caller has sent its request and is cancelled while it waits, and the daemon answers that
  -- request with `ACK` or `ALREADYSS`, behind information packets of which the client has rounds
  -- enough to look at all, then the next request for which one of these is a success, once its
  -- packet is sent, returns on the answer to the cancelled one, and its own answer, below 100,
  -- ends the reader, which closes the client.
  pub cancelled-misdelivers :
      (fuel : ℕ) (c c1 : Client S) (first second : Bytes) (h : Handler) (ps : List Packet)
      (r : Reply) (own : ℕ) (rest : Bytes)
      → begin_request first h c ≡ (ok tt, c1)
      → (r ≡ Reply.ack) ⊎ (r ≡ Reply.alreadyss)
      → own < 100
      → Answered S L abi c1 second fuel ps (reply_value r) (own ∷ rest)
      → (c2 : Client S) × Reach abi fuel true
          (record { client = c; holder = none })
          (record { client = c1; holder = none })
        × (request abi fuel second on_ack c1 ≡ (ok nothing, c2))
        × ((after_round abi fuel (read_round abi fuel c2)).closed ≡ true)
  cancelled-misdelivers fuel c c1 first second h ps r own rest e which small a =
      let (s', done, left) = request-ack S L abi fuel c1 second ps r (own ∷ rest) which a in
      let c2 : Client S = record c1 {
        stream = s';
        pending = none;
        events = buffered c1.events ps;
      } in
      (
        c2,
        gives_up fuel c c1 first h e,
        done,
        ended_by fuel _ _ protocol_error
            (stray_reply fuel c2 own rest (omega (arith, a.enough)) refl small left),
      )
