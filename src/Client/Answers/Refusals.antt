-- ===== src/Client/Answers/Refusals.antt =====
-- The replies that a command of dinit-client/src/dinit_client/client.py is not made for, and the end
-- of the connection.
use dinix.Shared.{
  ℕ, zero, suc, ◌≡◌, ◌≢◌, refl, sym, ap, ◌∙◌, true, false, none, some, List, arith, ==_iff,
  Bool-cases, inl, inr,
}
use dinix.Exceptions.{Exception, Result, ok, err, value_error, protocol_error, connection_closed}
use dinix.Struct.{Abi, Bytes}
use dinix.Protocol.Enums.{Reply, reply_value, reply_enum, from_value}
use dinix.Protocol.Enums.Values.{from_value-reply}
use dinix.Stream.{SocketStream, IsStream}
use dinix.Client.Task.{
  Handler, on_version, on_list, on_record, on_ack, on_stop, on_catlog, on_all_env, on_load_mech,
  on_status, nothing, Pending, Client,
}
use dinix.Client.Reader.{
  handle, ack_handler, is_reply, reject, set_error, simple_error, read_round, read_exit,
}
use dinix.Client.Commands.{
  fresh, begin_request, after_round, await_done, finish_request, is_done, request,
}
use dinix.Client.Framing.{Packet, buffered, next_reply-packets}
use dinix.Client.Answers.{
  Answered, answering_client, begin_request-sent, await_done-done, read_round-answer,
  request-Completes,
}

-- The replies that a handler has no use for.
abbrev pub Unexpected : Handler → Reply → Type 0
Unexpected on_version r = r ≢ Reply.cpversion
Unexpected on_list r = r ≢ Reply.svcinfo
Unexpected on_record r = r ≢ Reply.servicerecord
Unexpected on_ack r = (r ≢ Reply.ack) × (r ≢ Reply.alreadyss)
Unexpected on_stop r = (r ≢ Reply.dependents) × (r ≢ Reply.ack) × (r ≢ Reply.alreadyss)
Unexpected on_catlog r = r ≢ Reply.service_log
Unexpected on_all_env r = r ≢ Reply.allenv
Unexpected on_load_mech r = r ≢ Reply.loader_mech
Unexpected (on_status size) r = r ≢ Reply.servicestatus

-- The exception that the caller gets for it.
abbrev pub refusal : Handler → Reply → Exception
refusal on_version r = protocol_error
refusal _ r = simple_error r

is_reply_self : (a : Reply) (n : ℕ) → is_reply a n ≡ true → n ≡ reply_value a
unfolding is_reply
is_reply_self a n h = (==_iff n (reply_value a)).0 h

is_reply-ne : (a r : Reply) → r ≢ a → is_reply a (reply_value r) ≡ false
is_reply-ne a r h = elim (Bool-cases (is_reply a (reply_value r))) [
  | inl same ↦ absurd (
      h (
        ok_injective (
          sym (from_value-reply r)
          ∙ ap (λ (n : ℕ). from_value {A = Reply} n) (is_reply_self a (reply_value r) same)
          ∙ from_value-reply a)))
  | inr other ↦ other
]
  where
    ok_injective : {x y : Reply} → ◌≡◌ {A = Result Reply} (ok x) (ok y) → x ≡ y
    ok_injective e = cc

module _ {S : SocketStream} (abi : Abi) where
  reject-reply :
      (r : Reply) (c : Client S) (p : Pending)
      → c.pending ≡ some p
      → reject (reply_value r) c ≡ (
        ok tt,
        record c { pending = some (record p { error = some (simple_error r); done = true }) },
      )
  unfolding reject set_error
  reject-reply r c p h = rw (from_value-reply r) (rw h)

  -- The handler of a command leaves it with the exception, and reads nothing.
  handle-Unexpected :
      (fuel : ℕ) (h : Handler) (r : Reply) (c : Client S) (p : Pending)
      → Unexpected h r
      → c.pending ≡ some p
      → handle abi fuel h (reply_value r) c ≡ (
        ok tt,
        record c { pending = some (record p { error = some (refusal h r); done = true }) },
      )
  unfolding handle ack_handler
  handle-Unexpected fuel on_version r c p u e =
      rw (is_reply-ne Reply.cpversion r u) (unfold set_error in rw e)
  handle-Unexpected fuel on_list r c p u e =
      rw (is_reply-ne Reply.svcinfo r u) (reject-reply r c p e)
  handle-Unexpected fuel on_record r c p u e =
      rw (is_reply-ne Reply.servicerecord r u) (reject-reply r c p e)
  handle-Unexpected fuel on_ack r c p u e =
      rw (is_reply-ne Reply.ack r u.0, is_reply-ne Reply.alreadyss r u.1) (reject-reply r c p e)
  handle-Unexpected fuel on_stop r c p u e =
      rw (is_reply-ne Reply.dependents r u.0)
        (rw (is_reply-ne Reply.ack r u.1, is_reply-ne Reply.alreadyss r u.2) (reject-reply r c p e))
  handle-Unexpected fuel on_catlog r c p u e =
      rw (is_reply-ne Reply.service_log r u) (reject-reply r c p e)
  handle-Unexpected fuel on_all_env r c p u e =
      rw (is_reply-ne Reply.allenv r u) (reject-reply r c p e)
  handle-Unexpected fuel on_load_mech r c p u e =
      rw (is_reply-ne Reply.loader_mech r u) (reject-reply r c p e)
  handle-Unexpected fuel (on_status size) r c p u e =
      rw (is_reply-ne Reply.servicestatus r u) (reject-reply r c p e)

module _ (S : SocketStream) (L : IsStream S) (abi : Abi) where
  -- A request that the daemon answers with a reply its handler has no use for raises the exception
  -- of the table `_SIMPLE_ERRORS`, or `ProtocolError` where the table or the version handler has
  -- none; nothing behind the reply is read, the client stays open, and no command is in flight.
  pub request-Unexpected :
      (fuel : ℕ) (c : Client S) (payload : Bytes) (h : Handler) (ps : List Packet) (r : Reply)
      (rest : Bytes)
      → Unexpected h r
      → Answered S L abi c payload fuel ps (reply_value r) rest
      → (s' : S.State) × (request abi fuel payload h c ≡ (
        err (refusal h r),
        record c { stream = s'; pending = none; events = buffered c.events ps },
      ))
        × (L.incoming s' ≡ rest)
  request-Unexpected fuel c payload h ps r rest u a =
      request-Completes S L abi fuel c payload h ps (reply_value r) rest rest
        (record { handler = h; result = nothing; error = some (refusal h r); done = true }) a
        (λ s left. (
          s,
          handle-Unexpected abi fuel h r (answering_client S L abi c h ps s) (fresh h) u refl,
          left,
          refl,
        ))

  -- On a closed client a request raises `DinitConnectionClosed`, sends nothing and changes
  -- nothing.
  pub request-closed :
      (fuel : ℕ) (c : Client S) (payload : Bytes) (h : Handler)
      → c.closed ≡ true
      → request abi fuel payload h c ≡ (err connection_closed, c)
  unfolding request begin_request
  request-closed fuel c payload h closed = rw closed

  -- A byte that is no reply raises a `ValueError` in the handler.
  reject-unknown :
      (n : ℕ) (c : Client S)
      → from_value {A = Reply} n ≡ err value_error
      → reject n c ≡ (err value_error, c)
  unfolding reject
  reject-unknown n c h = rw h

  is_reply-unknown :
      (a : Reply) (n : ℕ) → from_value {A = Reply} n ≡ err value_error → is_reply a n ≡ false
  is_reply-unknown a n h = elim (Bool-cases (is_reply a n)) [
    | inl same ↦ cc (
        sym h
        ∙ ap (λ (m : ℕ). from_value {A = Reply} m) (is_reply_self a n same)
        ∙ from_value-reply a)
    | inr other ↦ other
  ]

  handle-unknown :
      (fuel : ℕ) (h : Handler) (n : ℕ) (c : Client S)
      → h ≢ on_version
      → from_value {A = Reply} n ≡ err value_error
      → handle abi fuel h n c ≡ (err value_error, c)
  unfolding handle ack_handler
  handle-unknown fuel on_version n c v u = absurd (v refl)
  handle-unknown fuel on_list n c v u =
      rw (is_reply-unknown Reply.svcinfo n u) (reject-unknown n c u)
  handle-unknown fuel on_record n c v u =
      rw (is_reply-unknown Reply.servicerecord n u) (reject-unknown n c u)
  handle-unknown fuel on_ack n c v u =
      rw (is_reply-unknown Reply.ack n u, is_reply-unknown Reply.alreadyss n u)
        (reject-unknown n c u)
  handle-unknown fuel on_stop n c v u = rw (is_reply-unknown Reply.dependents n u) (
      rw (is_reply-unknown Reply.ack n u, is_reply-unknown Reply.alreadyss n u)
        (reject-unknown n c u))
  handle-unknown fuel on_catlog n c v u =
      rw (is_reply-unknown Reply.service_log n u) (reject-unknown n c u)
  handle-unknown fuel on_all_env n c v u =
      rw (is_reply-unknown Reply.allenv n u) (reject-unknown n c u)
  handle-unknown fuel on_load_mech n c v u =
      rw (is_reply-unknown Reply.loader_mech n u) (reject-unknown n c u)
  handle-unknown fuel (on_status size) n c v u =
      rw (is_reply-unknown Reply.servicestatus n u) (reject-unknown n c u)

  await_done-dead :
      (fuel rounds : ℕ) (c c' : Client S) (e : Exception) (p : Pending)
      → is_done c ≡ false
      → read_round abi fuel c ≡ (err e, c')
      → c'.pending ≡ some p
      → await_done abi fuel (suc rounds) c ≡ (ok tt, read_exit c')
  await_done-dead fuel rounds c c' e p d r hp =
      unfold await_done in
      rw (d, await_done)
        (rw r (
          unfold after_round in
          await_done-done S L abi fuel rounds (read_exit c') (unfold is_done read_exit in rw hp)))

  -- An answer below 100 that is no member of `Reply` ends the reader, unless the version is being
  -- asked for: the request gets `DinitConnectionClosed`, and the client and its event stream are
  -- closed.
  pub request-unknown_reply :
      (fuel : ℕ) (c : Client S) (payload : Bytes) (h : Handler) (ps : List Packet) (n : ℕ)
      (rest : Bytes)
      → h ≢ on_version
      → from_value {A = Reply} n ≡ err value_error
      → Answered S L abi c payload fuel ps n rest
      → (s' : S.State) × (request abi fuel payload h c ≡ (
        err connection_closed,
        record c {
          stream = s';
          pending = none;
          closed = true;
          events = buffered c.events ps;
          events_closed = true;
        },
      ))
        × (L.incoming s' ≡ rest)
  unfolding is_done
  request-unknown_reply zero c payload h ps n rest v u a = absurd (omega (arith, a.enough))
  request-unknown_reply (suc fuel) c payload h ps n rest v u a =
      let sent_client = record c { stream = a.sent; pending = some (fresh h) } in
      let (s1, e1, left1) =
        next_reply-packets S L abi ps (suc fuel) sent_client n rest (omega (arith, a.enough))
          a.is_reply a.packets a.answering in
      let e2 =
        read_round-answer S L abi (suc fuel) sent_client (answering_client S L abi c h ps s1) n
          (fresh h) e1 refl
        ∙ handle-unknown (suc fuel) h n (answering_client S L abi c h ps s1) v u in
      (
        s1,
        unfold request finish_request in
            rw (begin_request-sent S L abi c payload h a.sent a.is_open a.sending) (
              rw (await_done-dead (suc fuel) fuel sent_client _ value_error (fresh h) refl e2 refl)
                (unfold read_exit in refl)),
        left1,
      )
