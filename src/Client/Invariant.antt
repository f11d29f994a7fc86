-- ===== src/Client/Invariant.antt =====
-- What no action of the reader changes, whatever the daemon sends
-- (dinit-client/src/dinit_client/client.py): events are only added behind the others, there are never
-- more than the buffer holds, and the version, the
-- end of the connection and the handler of the command in flight stay as they are.
use dinix.Shared.{
  ℕ, zero, suc, ◌≤◌, ◌≡◌, refl, sym, ap, ◌∙◌, Bool, true, false, Option, none, some, List, [], ◌∷◌,
  ◌++◌, append-nil, append_assoc, arith, ltb, ltb→lt, if◌then◌else◌, length, length-append,
  Bool-cases, inl, inr,
}
use dinix.Exceptions.{Exception, Result, ok, err}
use dinix.Struct.{Abi, Bytes}
use dinix.Shared.Dict.{insert}
use dinix.Utf8.{Str}
use dinix.Protocol.Enums.{Reply}
use dinix.Protocol.Records.{Event, ServiceStatus}
use dinix.Stream.{SocketStream, exactly}
use dinix.Client.Task.{
  Handler, on_version, on_list, on_record, on_ack, on_stop, on_catlog, on_all_env, on_load_mech,
  on_status, Object, Pending, Client, Task, pure, raise, lift, gets, continue, ◌>>=◌, read,
}
use dinix.Client.Reader.{
  event_buffer, with_result, with_error, set_result, set_error, reject, read_byte, push_event,
  dispatch_info, info_packet, next_reply, list_item, list_loop, is_reply, read_handles, ack_handler,
  handle, answer, read_round,
}

-- The handler of the command in flight.
abbrev pub handler_of : Option Pending → Option Handler
handler_of none = none
handler_of (some p) = some p.handler

pub record Grows {S : SocketStream} (c c' : Client S) : Type 0 where
  pub added : List Event
  pub appended : c'.events ≡ c.events ++ added
  pub bounded : length c.events ≤ event_buffer → length c'.events ≤ event_buffer
  pub same_version : c'.version ≡ c.version
  pub same_closed : c'.closed ≡ c.closed
  pub same_handler : handler_of c'.pending ≡ handler_of c.pending

Grows-refl : {S : SocketStream} (c : Client S) → Grows c c
Grows-refl c = record {
  added = [];
  appended = sym (append-nil c.events);
  bounded = λ h. h;
  same_version = refl;
  same_closed = refl;
  same_handler = refl;
}

Grows-trans : {S : SocketStream} {a b c : Client S} → Grows a b → Grows b c → Grows a c
Grows-trans {a} g h = record {
  added = g.added ++ h.added;
  appended =
      h.appended
      ∙ ap (λ (t : List Event). t ++ h.added) g.appended
      ∙ append_assoc a.events g.added h.added;
  bounded = λ x. h.bounded (g.bounded x);
  same_version = h.same_version ∙ g.same_version;
  same_closed = h.same_closed ∙ g.same_closed;
  same_handler = h.same_handler ∙ g.same_handler;
}

handler_of-result :
    (obj : Object) (p : Option Pending) → handler_of (with_result obj p) ≡ handler_of p
handler_of-result obj none = refl
handler_of-result obj (some p) = refl

pub handler_of-error :
    (e : Exception) (p : Option Pending) → handler_of (with_error e p) ≡ handler_of p
handler_of-error e none = refl
handler_of-error e (some p) = refl

-- A task that keeps to `Grows`, whether it returns or raises.
pub record Gentle {S : SocketStream} {A : Type 0} (m : Task S A) : Type 0 where
  pub at : (c : Client S) → Grows c (m c).1

module _ {S : SocketStream} {A : Type 0} where
  Gentle-pure : (a : A) → Gentle {S = S} (pure a)
  Gentle-pure a = record { at = Grows-refl }

  Gentle-raise : (e : Exception) → Gentle {S = S} {A = A} (raise e)
  Gentle-raise e = record { at = Grows-refl }

  Gentle-lift : (r : Result A) → Gentle {S = S} (lift r)
  Gentle-lift r = record { at = Grows-refl }

  Gentle-gets : (f : Client S → A) → Gentle (gets f)
  Gentle-gets f = record { at = Grows-refl }

  Gentle-if : (b : Bool) (m n : Task S A) → Gentle m → Gentle n → Gentle (if b then m else n)
  Gentle-if true m n gm gn = gm
  Gentle-if false m n gm gn = gn

module _ {S : SocketStream} {A B : Type 0} where
  continue-Grows :
      (c : Client S) (f : A → Task S B) (r : Result A × Client S)
      → ((a : A) → Gentle (f a))
      → Grows c r.1
      → Grows c (continue f r).1
  continue-Grows c f (ok a, c') gf g = Grows-trans g ((gf a).at c')
  continue-Grows c f (err e, c') gf g = g

  Gentle-bind :
      (m : Task S A) (f : A → Task S B) → Gentle m → ((a : A) → Gentle (f a)) → Gentle (m >>= f)
  Gentle-bind m f gm gf = record { at = λ c. continue-Grows c f (m c) gf (gm.at c) }

module _ {S : SocketStream} where
  Gentle-read : (n : ℕ) → Gentle {S = S} (read n)
  unfolding read
  Gentle-read n = record {
    at = λ c.
        let (r, s) = exactly S n c.stream in
        record {
          added = [];
          appended = sym (append-nil c.events);
          bounded = λ h. h;
          same_version = refl;
          same_closed = refl;
          same_handler = refl;
        };
  }

  Gentle-set_result : (obj : Object) → Gentle {S = S} (set_result obj)
  unfolding set_result
  Gentle-set_result obj = record {
    at = λ c. record {
      added = [];
      appended = sym (append-nil c.events);
      bounded = λ h. h;
      same_version = refl;
      same_closed = refl;
      same_handler = handler_of-result obj c.pending;
    };
  }

  Gentle-set_error : (e : Exception) → Gentle {S = S} (set_error e)
  unfolding set_error
  Gentle-set_error e = record {
    at = λ c. record {
      added = [];
      appended = sym (append-nil c.events);
      bounded = λ h. h;
      same_version = refl;
      same_closed = refl;
      same_handler = handler_of-error e c.pending;
    };
  }

  Grows-push : (event : Event) (c : Client S) → Grows c (push_event event c).1
  unfolding push_event
  Grows-push event c = elim (Bool-cases (ltb (length c.events) event_buffer)) [
    | inl room ↦ record {
      added = event ∷ [];
      appended = rw room;
      bounded = λ h. rw room (
          omega (
            arith,
            ltb→lt (length c.events) event_buffer room,
            length-append c.events (event ∷ []),
          ));
      same_version = refl;
      same_closed = refl;
      same_handler = refl;
    }
    | inr full ↦ record {
      added = [];
      appended = rw full (sym (append-nil c.events));
      bounded = λ h. rw full h;
      same_version = refl;
      same_closed = refl;
      same_handler = refl;
    }
  ]

  Gentle-push_event : (event : Event) → Gentle {S = S} (push_event event)
  Gentle-push_event event = record { at = Grows-push event }

ruleset gentle_rules = (
  Gentle-pure, Gentle-raise, Gentle-lift, Gentle-gets, Gentle-if, Gentle-bind, Gentle-read,
  Gentle-set_result, Gentle-set_error, Gentle-push_event,
)

module _ {S : SocketStream} where
  Gentle-reject : (n : ℕ) → Gentle {S = S} (reject n)
  unfolding reject
  Gentle-reject n = search gentle_rules

  Gentle-read_byte : Gentle {S = S} read_byte
  unfolding read_byte
  Gentle-read_byte = search gentle_rules

module _ {S : SocketStream} (abi : Abi) where
  Gentle-dispatch_info :
      (kind : ℕ) (payload : Bytes) → Gentle {S = S} (dispatch_info abi kind payload)
  unfolding dispatch_info
  Gentle-dispatch_info kind payload = search gentle_rules depth 9

  Gentle-info_packet :
      (behind : Task S ℕ) (kind : ℕ) → Gentle behind → Gentle (info_packet abi behind kind)
  unfolding info_packet
  Gentle-info_packet behind kind g =
      search (gentle_rules, Gentle-read_byte, Gentle-dispatch_info) depth 9

  Gentle-elim :
      {A : Type 0} (b : Bool) (m n : Task S A)
      → Gentle m
      → Gentle n
      → Gentle {S = S} (elim b [ true ↦ m | false ↦ n ])
  Gentle-elim true m n gm gn = gm
  Gentle-elim false m n gm gn = gn

  Gentle-next_reply : (fuel : ℕ) → Gentle {S = S} (next_reply abi fuel)
  unfolding next_reply
  Gentle-next_reply zero = Gentle-raise _
  Gentle-next_reply (suc fuel) =
      let rest = Gentle-next_reply fuel in
      Gentle-bind read_byte _ Gentle-read_byte λ reply.
        Gentle-elim (ltb reply 100) _ _ (Gentle-pure reply) (Gentle-info_packet _ reply rest)

  Gentle-list_item : Gentle {S = S} (list_item abi)
  unfolding list_item
  Gentle-list_item = search (gentle_rules, Gentle-read_byte) depth 14

  Gentle-list_loop :
      (fuel : ℕ) (items : List (Str × ServiceStatus)) → Gentle {S = S} (list_loop abi fuel items)
  unfolding list_loop
  Gentle-list_loop zero items = Gentle-raise _
  Gentle-list_loop (suc fuel) items = Gentle-bind (list_item abi) _ Gentle-list_item λ item.
      Gentle-bind (next_reply abi fuel) _ (Gentle-next_reply fuel) λ reply.
        let behind = Gentle-list_loop fuel (insert item.0 item.1 items) in
        Gentle-elim (is_reply Reply.listdone reply) _ _ (Gentle-set_result _)
          (Gentle-elim (is_reply Reply.svcinfo reply) _ _ behind (Gentle-reject reply))

  Gentle-read_handles : (count : ℕ) → Gentle {S = S} (read_handles abi count)
  unfolding read_handles
  Gentle-read_handles zero = Gentle-pure []
  Gentle-read_handles (suc count) =
      let rest = Gentle-read_handles count in
      Gentle-bind (read 4) _ (Gentle-read 4) λ raw.
        Gentle-bind (lift _) _ (Gentle-lift _)
          λ handle. Gentle-bind (read_handles abi count) _ rest λ handles. Gentle-pure _

  Gentle-ack_handler : (reply : ℕ) → Gentle {S = S} (ack_handler abi reply)
  unfolding ack_handler
  Gentle-ack_handler reply = search (gentle_rules, Gentle-reject)

ruleset handler_rules =
    (gentle_rules, Gentle-reject, Gentle-read_handles, Gentle-ack_handler, Gentle-list_loop)

module _ {S : SocketStream} (abi : Abi) where
  Gentle-handle : (fuel : ℕ) (h : Handler) (reply : ℕ) → Gentle {S = S} (handle abi fuel h reply)
  unfolding handle
  Gentle-handle fuel on_version reply = search handler_rules depth 9
  Gentle-handle fuel on_list reply = search handler_rules depth 9
  Gentle-handle fuel on_record reply = search handler_rules depth 9
  Gentle-handle fuel on_ack reply = search handler_rules depth 9
  Gentle-handle fuel on_stop reply = search handler_rules depth 9
  Gentle-handle fuel on_catlog reply = search handler_rules depth 9
  Gentle-handle fuel on_all_env reply = search handler_rules depth 9
  Gentle-handle fuel on_load_mech reply = search handler_rules depth 9
  Gentle-handle fuel (on_status size) reply = search handler_rules depth 9

  Gentle-answer :
      (fuel : ℕ) (p : Option Pending) (reply : ℕ) → Gentle {S = S} (answer abi fuel p reply)
  unfolding answer
  Gentle-answer fuel none reply = Gentle-raise _
  Gentle-answer fuel (some p) reply = Gentle-handle fuel p.handler reply

  -- A round of the reader, whatever the stream does and however the round ends, only adds events
  -- behind those in the buffer, keeps a buffer of at most 64 events within 64, and leaves the
  -- protocol version, `closed` and the handler of the command in flight as they are.
  pub read_round-Grows : (fuel : ℕ) (c : Client S) → Grows c (read_round abi fuel c).1
  unfolding read_round
  read_round-Grows fuel c =
      (Gentle-bind (next_reply abi fuel) _ (Gentle-next_reply abi fuel)
          λ reply. Gentle-bind (gets _) _ (Gentle-gets _) λ p. Gentle-answer fuel p reply).at
        c
