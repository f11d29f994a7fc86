-- ===== src/Client/Flows.antt =====
-- Whole methods of `DinitClient` (dinit-client/src/dinit_client/client.py): the handle of the service
-- is resolved, and the command is made on it.
use dinix.Shared.{ℕ, ◌^◌, ◌<◌, ◌≡◌, Bool, true, false, not, none, List, ◌++◌, length, ◌⊎◌, All}
use dinix.Exceptions.{Result, ok, err, dependents}
use dinix.Struct.{Abi, Bytes, word}
use dinix.Utf8.{Str}
use dinix.Protocol.Enums.{Reply, reply_value, Command}
use dinix.Protocol.Records.{ServiceRecord}
use dinix.Protocol.Requests
use dinix.Stream.{SocketStream, IsStream}
use dinix.Client.Task.{nothing, service, Client}
use dinix.Client.Commands.{as_handle, find_or_load, handle_for, on_handle, reload, start, stop}
use dinix.Client.Framing.{Packet, buffered}
use dinix.Client.Answers.{Answered}
use dinix.Client.Answers.Handlers.{
  record_bytes, handles_bytes, request-record, request-ack, request-dependents,
}

module _ (S : SocketStream) (L : IsStream S) (abi : Abi) where
  -- The client once a request has been answered with events of `ps` in front.
  abbrev pub after : Client S → List Packet → S.State → Client S
  after c ps s = record c { stream = s; pending = none; events = buffered c.events ps }

  -- The service `name` is found, or loaded, with the record `r`.
  pub record Resolved (c : Client S) (fuel : ℕ) (name : Str) (load : Bool) (ps : List Packet)
      (r : ServiceRecord) (rest : Bytes) : Type 0 where
    pub payload : Bytes
    pub encoded : Requests.find_or_load abi name load ≡ ok payload
    pub small : r.handle < 2 ^ 32
    pub answered :
        Answered S L abi c payload fuel ps
          (reply_value Reply.servicerecord)
          (record_bytes abi r ++ rest)

  pub find_or_load-Resolved :
      (fuel : ℕ) (c : Client S) (name : Str) (load : Bool) (ps : List Packet) (r : ServiceRecord)
      (rest : Bytes)
      → Resolved c fuel name load ps r rest
      → (s' : S.State) × (find_or_load abi fuel name load c ≡ (ok (service r), after c ps s'))
        × (L.incoming s' ≡ rest)
  find_or_load-Resolved fuel c name load ps r rest h =
      let (s', e, left) = request-record S L abi fuel c h.payload ps r rest h.small h.answered in
      (s', unfold find_or_load in rw (h.encoded) e, left)

  handle_for-Resolved :
      (fuel : ℕ) (c : Client S) (name : Str) (ps : List Packet) (r : ServiceRecord) (rest : Bytes)
      → Resolved c fuel name false ps r rest
      → (s' : S.State) × (handle_for abi fuel name c ≡ (ok r.handle, after c ps s'))
        × (L.incoming s' ≡ rest)
  handle_for-Resolved fuel c name ps r rest h =
      let (s', e, left) = find_or_load-Resolved fuel c name false ps r rest h in
      (s', unfold handle_for as_handle in rw e, left)

  -- The command on the handle is accepted with `ACK` or `ALREADYSS`.
  pub record Acked (c : Client S) (fuel : ℕ) (packet : Result Bytes) (ps : List Packet)
      (reply : Reply) (rest before : Bytes) : Type 0 where
    pub payload : Bytes
    pub encoded : packet ≡ ok payload
    pub is_ack : (reply ≡ Reply.ack) ⊎ (reply ≡ Reply.alreadyss)
    pub answered :
        (s : S.State)
        → L.incoming s ≡ before
        → Answered S L abi (record c { stream = s }) payload fuel ps (reply_value reply) rest

  -- The client once both requests have been answered.
  abbrev pub after_both : Client S → List Packet → List Packet → S.State → Client S
  after_both c ps qs s = record c {
    stream = s;
    pending = none;
    events = buffered (buffered c.events ps) qs;
  }

  on_handle-Acked :
      (fuel : ℕ) (cmd : Command) (c : Client S) (name : Str) (ps qs : List Packet)
      (r : ServiceRecord) (reply : Reply) (rest rest' : Bytes)
      → Resolved c fuel name false ps r rest
      → Acked
          (record c { pending = none; events = buffered c.events ps })
          fuel
          (Requests.service_handle_command abi cmd r.handle)
          qs
          reply
          rest'
          rest
      → (s' : S.State) × (on_handle abi fuel cmd name c ≡ (ok nothing, after_both c ps qs s'))
        × (L.incoming s' ≡ rest')
  on_handle-Acked fuel cmd c name ps qs r reply rest rest' h k =
      let (s1, e1, left1) = handle_for-Resolved fuel c name ps r rest h in
      let (s2, e2, left2) =
        request-ack S L abi fuel (after c ps s1) k.payload qs reply rest' k.is_ack
          (k.answered s1 left1) in
      (s2, unfold on_handle in rw e1 (rw (k.encoded) e2), left2)

  -- If the daemon answers the search for the service with its record and the reload packet with
  -- `ACK` or `ALREADYSS`, each behind information packets of which the client has rounds enough to
  -- look at all, `reload` returns `None`; the events of both runs of packets are buffered in
  -- order, no command is in flight, and the bytes behind the second answer are still to be read.
  pub reload-Acked :
      (fuel : ℕ) (c : Client S) (name : Str) (ps qs : List Packet) (r : ServiceRecord)
      (reply : Reply) (rest rest' : Bytes)
      → Resolved c fuel name false ps r rest
      → Acked
          (record c { pending = none; events = buffered c.events ps })
          fuel
          (Requests.service_handle_command abi Command.reloadservice r.handle)
          qs
          reply
          rest'
          rest
      → (s' : S.State) × (reload abi fuel name c ≡ (ok nothing, after_both c ps qs s'))
        × (L.incoming s' ≡ rest')
  unfolding reload
  reload-Acked fuel = on_handle-Acked fuel Command.reloadservice

  -- If the daemon answers the load of the service with its record and the start packet, which
  -- carries `pin` as its only flag, with `ACK` or `ALREADYSS`, each behind information packets of
  -- which the client has rounds enough to look at all, `start` returns `None`; the events are
  -- buffered in order, no command is in flight, and the bytes behind the second answer are still
  -- to be read.
  pub start-Acked :
      (fuel : ℕ) (c : Client S) (name : Str) (pin : Bool) (ps qs : List Packet) (r : ServiceRecord)
      (reply : Reply) (rest rest' : Bytes)
      → Resolved c fuel name true ps r rest
      → Acked
          (record c { pending = none; events = buffered c.events ps })
          fuel
          (Requests.start_stop abi Command.startservice r.handle pin false false false)
          qs
          reply
          rest'
          rest
      → (s' : S.State) × (start abi fuel name pin c ≡ (ok nothing, after_both c ps qs s'))
        × (L.incoming s' ≡ rest')
  start-Acked fuel c name pin ps qs r reply rest rest' h k =
      let (s1, e1, left1) = find_or_load-Resolved fuel c name true ps r rest h in
      let (s2, e2, left2) =
        request-ack S L abi fuel (after c ps s1) k.payload qs reply rest' k.is_ack
          (k.answered s1 left1) in
      (s2, unfold start as_handle in rw e1 (rw (k.encoded) e2), left2)

  -- If the daemon answers the search for the service with its record and the stop packet, which is
  -- gentle exactly without `force`, with `DEPENDENTS` and a list of handles that fit 32 bits,
  -- `stop` raises `Dependents` with those handles in order; the events are buffered, no command is
  -- in flight, and the bytes behind the list are still to be read.
  pub stop-dependents :
      (fuel : ℕ) (c : Client S) (name : Str) (pin force : Bool) (ps qs : List Packet)
      (r : ServiceRecord) (handles : List ℕ) (payload rest rest' : Bytes)
      → Resolved c fuel name false ps r rest
      → Requests.start_stop abi Command.stopservice r.handle pin (not force) false false
        ≡ ok payload
      → length handles < 256 ^ abi.sizeof_long
      → All (λ h. h < 2 ^ 32) handles
      → ((s : S.State)
          → L.incoming s ≡ rest
          → Answered S L abi (after c ps s) payload fuel qs (reply_value Reply.dependents) (
              word abi abi.sizeof_long (length handles)
              ++ (handles_bytes S L abi handles ++ rest')))
      → (s' : S.State) × (stop abi fuel name pin force c
          ≡ (err (dependents handles), after_both c ps qs s'))
        × (L.incoming s' ≡ rest')
  stop-dependents fuel c name pin force ps qs r handles payload rest rest' h e hl hs k =
      let (s1, e1, left1) = handle_for-Resolved fuel c name ps r rest h in
      let (s2, e2, left2) =
        request-dependents S L abi fuel (after c ps s1) payload qs handles rest' hl hs
          (k s1 left1) in
      (s2, unfold stop in rw e1 (rw e e2), left2)
