-- ===== src/Client/Waking.antt =====
-- The rounds of the reader and the caller that waits (dinit-client/src/dinit_client/client.py), by the
-- bytes that are still to come.
use dinix.Shared.{
  ℕ, zero, suc, ◌≤◌, ◌<◌, ◌≡◌, ◌≢◌, refl, ap, ◌∙◌, Bool, true, false, Option, none, some, List,
  arith, ltb, length, Bool-cases, inl, inr,
}
use dinix.Exceptions.{Exception, Result, ok, err, out_of_fuel, connection_closed}
use dinix.Struct.{Abi, Bytes}
use dinix.Shared.Dict.{insert}
use dinix.Utf8.{Str}
use dinix.Protocol.Enums.{Reply}
use dinix.Protocol.Records.{ServiceStatus}
use dinix.Stream.{SocketStream, IsStream}
use dinix.Client.Task.{
  Handler, on_version, on_list, on_record, on_ack, on_stop, on_catlog, on_all_env, on_load_mech,
  on_status, Object, Pending, Client, gets, lift, read,
}
use dinix.Client.Reader.{
  with_error, read_byte, next_reply, list_item, list_loop, is_reply, read_handles, ack_handler,
  handle, answer, read_round, read_exit,
}
use dinix.Client.Commands.{
  after_round, await_done, is_done, request, begin_request, after_send, finish_request, outcome,
  fresh,
}
use dinix.Client.Invariant.{handler_of, read_round-Grows}
use dinix.Client.Callers.{round-handler}
use dinix.Client.Spending.{
  to_come, Spent, returns, raises, Spends, spending_rules, Spends-pure, Spends-lift, Spends-gets,
  Spends-strict, Spends-bind, Spends-weaken, Spends-read, Spends-read_byte, Spends-set_result,
  Spends-reject, Spends-refuse, Spends-info_packet, Spends-elim,
}
use dinix.Protocol.Replies.Decoding.{Ends-unpack_u32}

module _ {S : SocketStream} {L : IsStream S} (quiet : L.ending ≢ out_of_fuel) (abi : Abi) where
  Spends-next_reply : (n fuel : ℕ) → n < fuel → Spends S L n 1 (next_reply abi fuel)
  unfolding next_reply
  Spends-next_reply n zero h = absurd (omega arith)
  Spends-next_reply n (suc fuel) h =
      Spends-strict n 1 read_byte _ (Spends-read_byte quiet n) λ reply j few.
        Spends-elim quiet abi j (ltb reply 100) _ _ (Spends-pure j reply) (
          Spends-info_packet quiet abi j _ reply
            (Spends-weaken (Spends-next_reply j fuel (omega arith))))

  Spends-list_item : (n : ℕ) → Spends S L n 1 (list_item abi)
  unfolding list_item
  Spends-list_item n =
      Spends-strict n 1 read_byte _ (Spends-read_byte quiet n)
        λ namelen j few. search spending_rules depth 12

  Spends-list_loop :
      (n fuel : ℕ) (items : List (Str × ServiceStatus))
      → n < fuel
      → Spends S L n 0 (list_loop abi fuel items)
  unfolding list_loop
  Spends-list_loop n zero items h = absurd (omega arith)
  Spends-list_loop n (suc fuel) items h = Spends-weaken (
      Spends-strict n 1 (list_item abi) _ (Spends-list_item n) λ item j few.
        Spends-bind j (next_reply abi fuel) _
          (Spends-weaken (Spends-next_reply j fuel (omega arith)))
          λ reply.
            let behind = Spends-list_loop j fuel (insert item.0 item.1 items) (omega arith) in
            Spends-elim quiet abi j (is_reply Reply.listdone reply) _ _ (Spends-set_result j _) (
              Spends-elim quiet abi j (is_reply Reply.svcinfo reply) _ _ behind
                (Spends-reject quiet abi j reply)))

  Spends-read_handles : (n count : ℕ) → Spends S L n 0 (read_handles abi count)
  unfolding read_handles
  Spends-read_handles n zero = Spends-pure n _
  Spends-read_handles n (suc count) =
      let rest = Spends-read_handles n count in
      Spends-bind n (read 4) _ (Spends-read quiet n 4) λ raw.
        Spends-bind n (lift _) _ (Spends-lift n _ (Ends-unpack_u32 abi raw 0))
          λ handle. Spends-bind n (read_handles abi count) _ rest λ handles. Spends-pure n _

  Spends-ack_handler : (n reply : ℕ) → Spends S L n 0 (ack_handler abi reply)
  unfolding ack_handler
  Spends-ack_handler n reply = search (spending_rules, Spends-reject)

ruleset waking_rules =
    (spending_rules, Spends-reject, Spends-read_handles, Spends-ack_handler, Spends-list_loop)

module _ {S : SocketStream} {L : IsStream S} (quiet : L.ending ≢ out_of_fuel) (abi : Abi)
    (n fuel : ℕ) (enough : n < fuel) where
  Spends-handle : (h : Handler) (reply : ℕ) → Spends S L n 0 (handle abi fuel h reply)
  unfolding handle
  Spends-handle on_version reply = search waking_rules depth 9
  Spends-handle on_list reply = search waking_rules depth 9
  Spends-handle on_record reply = search waking_rules depth 9
  Spends-handle on_ack reply = search waking_rules depth 9
  Spends-handle on_stop reply = search waking_rules depth 9
  Spends-handle on_catlog reply = search waking_rules depth 9
  Spends-handle on_all_env reply = search waking_rules depth 9
  Spends-handle on_load_mech reply = search waking_rules depth 9
  Spends-handle (on_status size) reply = search waking_rules depth 9

  Spends-answer : (p : Option Pending) (reply : ℕ) → Spends S L n 0 (answer abi fuel p reply)
  unfolding answer
  Spends-answer none reply = Spends-refuse quiet abi n
  Spends-answer (some p) reply = Spends-handle p.handler reply

module _ {S : SocketStream} {L : IsStream S} (quiet : L.ending ≢ out_of_fuel) (abi : Abi) where
  -- On a stream with fewer bytes to come than rounds and an ending that is an exception of its
  -- own, a round of the reader comes to an end whatever these bytes are, with no loop of it cut
  -- short: it returns with at least one byte taken, or raises an exception of the program, and
  -- never leaves more bytes to come than it found.
  pub read_round-Spends : (n fuel : ℕ) → n < fuel → Spends S L n 1 (read_round abi fuel)
  unfolding read_round
  read_round-Spends n fuel h =
      Spends-strict n 1 (next_reply abi fuel) _ (Spends-next_reply quiet abi n fuel h)
        λ reply j few.
          Spends-bind j (gets _) _ (Spends-gets j _)
            λ p. Spends-answer quiet abi j fuel (omega arith) p reply

-- The command in flight of a handler that is known, which is done.
in_flight :
    (o : Option Pending) (h : Handler)
    → handler_of o ≡ some h
    → (elim o [ none ↦ true | some p ↦ p.done ]) ≡ true
    → (p : Pending) × (o ≡ some p) × (p.handler ≡ h) × (p.done ≡ true)
in_flight none h e done = cc
in_flight (some p) h e done = (p, refl, cc, done)

-- What a command that is done is to its caller.
abbrev pub told : Option Exception → Object → Result Object
told none result = ok result
told (some e) result = err e

error-told :
    (e : Option Exception) (result : Object)
    → (elim e [ none ↦ ok result | some x ↦ err x ]) ≡ told e result
error-told none result = refl
error-told (some x) result = refl

module _ {S : SocketStream} (abi : Abi) (fuel : ℕ) where
  -- Behind a round that raises, the caller is awake.
  exit-done : (c : Client S) → is_done (read_exit c) ≡ true
  unfolding is_done read_exit
  exit-done c = awake c.pending
    where
      awake :
          (p : Option Pending)
          → (elim (with_error connection_closed p) [ none ↦ true | some q ↦ q.done ]) ≡ true
      awake none = refl
      awake (some p) = refl

  -- Rounds of the reader, each with the caller still waiting in front of it, up to the client `c'`.
  pub data Rounds (c' : Client S) : Client S → Type 0 where
    no_round : Rounds c' c'
    round :
        {c : Client S}
        → is_done c ≡ false
        → Rounds c' (after_round abi fuel (read_round abi fuel c))
        → Rounds c' c

  Rounds-handler : (c' c : Client S) → Rounds c' c → handler_of c'.pending ≡ handler_of c.pending
  Rounds-handler c' c no_round = refl
  Rounds-handler c' c (round waits rounds) =
      Rounds-handler c' (after_round abi fuel (read_round abi fuel c)) rounds
      ∙ round-handler abi fuel _ _
      ∙ (read_round-Grows abi fuel c).same_handler

  -- One round of the wait.
  abbrev awaited : ℕ → Client S → Bool → Result (Unit {0}) × Client S
  awaited rounds c true = (ok tt, c)
  awaited rounds c false = await_done abi fuel rounds (after_round abi fuel (read_round abi fuel c))

  await_done-suc :
      (rounds : ℕ) (c : Client S)
      → await_done abi fuel (suc rounds) c ≡ awaited rounds c (is_done c)
  unfolding await_done
  await_done-suc rounds c = refl

  awake_at_once :
      (rounds : ℕ) (c : Client S) → is_done c ≡ true → await_done abi fuel rounds c ≡ (ok tt, c)
  awake_at_once zero c h = unfold await_done in rw h
  awake_at_once (suc rounds) c h = await_done-suc rounds c ∙ ap (awaited rounds c) h

  -- The wait comes to an end with the command answered.
  abbrev Wakes : ℕ → Client S → Type 0
  Wakes rounds c =
      (c' : Client S) × Rounds c' c
      × (await_done abi fuel rounds c ≡ (ok tt, c'))
      × (is_done c' ≡ true)

  round-Wakes :
      (L : IsStream S) (rounds before : ℕ) (r : Result (Unit {0}) × Client S)
      → ((d : Client S) → to_come S L d < before → Wakes rounds d)
      → Spent S L 1 before r
      → Wakes rounds (after_round abi fuel r)
  unfolding after_round
  round-Wakes L rounds before r ih (returns a d left) = ih d (omega arith)
  round-Wakes L rounds before r ih (raises e d other left) =
      (read_exit d, no_round, awake_at_once rounds (read_exit d) (exit-done d), exit-done d)

  await_done-Wakes :
      (L : IsStream S) (rounds : ℕ) (c : Client S)
      → L.ending ≢ out_of_fuel
      → to_come S L c < fuel
      → to_come S L c < rounds
      → Wakes rounds c
  await_done-Wakes L zero c quiet hf hr = absurd (omega arith)
  await_done-Wakes L (suc rounds) c quiet hf hr =
      let same : to_come S L c ≤ to_come S L c = omega arith in
      let spent = (read_round-Spends quiet abi (to_come S L c) fuel hf).at c same in
      let later =
        round-Wakes L rounds (to_come S L c) (read_round abi fuel c)
          (λ d few.
            await_done-Wakes L rounds d quiet (omega (arith, few, hf)) (omega (arith, few, hr)))
          spent in
      elim (Bool-cases (is_done c)) [
        | inl done ↦ (c, no_round, awake_at_once (suc rounds) c done, done)
        | inr waits ↦
            let (c', behind, woken, done) = later in
            (
              c',
              round waits behind,
              await_done-suc rounds c ∙ ap (awaited rounds c) waits ∙ woken,
              done,
            )
      ]

  -- The client of a caller whose packet is sent.
  abbrev waiting : Handler → Client S → S.State → Client S
  waiting h c sent = record c { stream = sent; pending = some (fresh h) }

  begin_request-sent :
      (payload : Bytes) (h : Handler) (c : Client S) (sent : S.State)
      → c.closed ≡ false
      → S.send payload c.stream ≡ (ok tt, sent)
      → begin_request payload h c ≡ (ok tt, waiting h c sent)
  unfolding begin_request after_send
  begin_request-sent payload h c sent open_client sending = rw open_client (rw sending)

  -- A request of an open client, whose packet is sent on a stream with fewer bytes to come than
  -- rounds and an ending that is an exception of its own, comes to an end whatever these bytes
  -- are: rounds of the reader, with the caller still waiting in front of each, lead from the
  -- client that has sent the packet to one in which the command in flight is still that of the
  -- caller's handler and is done; the caller then gets the error of this command if it has one,
  -- and its result if not, and no command is in flight.
  pub request-Wakes :
      (L : IsStream S) (payload : Bytes) (h : Handler) (c : Client S) (sent : S.State)
      → L.ending ≢ out_of_fuel
      → c.closed ≡ false
      → S.send payload c.stream ≡ (ok tt, sent)
      → length (L.incoming sent) < fuel
      → (c' : Client S) × (p : Pending) × Rounds c' (waiting h c sent)
        × (c'.pending ≡ some p)
        × (p.handler ≡ h)
        × (p.done ≡ true)
        × (request abi fuel payload h c ≡ (told p.error p.result, record c' { pending = none }))
  unfolding request finish_request
  request-Wakes L payload h c sent quiet open_client sending few =
      let (c', behind, woken, done) = await_done-Wakes L fuel (waiting h c sent) quiet few few in
      let (p, flying, same, p_done) =
        in_flight c'.pending h (Rounds-handler c' (waiting h c sent) behind)
          (unfold is_done in done) in
      (
        c',
        p,
        behind,
        flying,
        same,
        p_done,
        rw (begin_request-sent payload h c sent open_client sending) (
            rw woken (
              ap (λ r. (r, record c' { pending = none }))
                (ap outcome flying ∙ error-told p.error p.result))),
      )
