-- ===== src/Tui/Connected.antt =====
-- The worker of tui/src/dinix_tui/app.py on the client of dinit-client/src/dinit_client/client.py: the
-- methods that it awaits, on one connection.
use dinix.Shared.{
  ◌≤◌, refl, ap, ◌∙◌, ◌∷◌, All, ◌<◌, ◌^◌, length, some, none, not, ℕ, ◌≡◌, false, true, List, [],
  ◌++◌,
}
use dinix.Exceptions.{Result, ok, err, attribute_error, dependents}
use dinix.Struct.{Abi, Bytes, word}
use dinix.Utf8.{Str}
use dinix.Protocol.Enums.{Reply, reply_value, Command}
use dinix.Protocol.Records.{ServiceRecord, ServiceStatus, LoaderMech}
use dinix.Protocol.Requests
use dinix.Stream.{SocketStream, IsStream}
use dinix.Client.Task.{Object, Client, Task, lift, pure, ◌>>=◌}
use dinix.Client.Commands
use dinix.Client.Framing.{Packet, buffered}
use dinix.Client.Listing.{
  Entry, IsEntry, rounds, entered, entries_bytes, all_buffered, list_services-entries,
}
use dinix.Shared.Dict.{insert}
use dinix.Tui.Act.{for_each}
use dinix.Tui.Table.{Rows, Shows, set_row-Shows}
use dinix.Client.Answers.{Answered}
use dinix.Client.Answers.Handlers.{handles_bytes}
use dinix.Client.Flows.{Resolved, after, after_both, stop-dependents}
use dinix.Tui.State.{stop, refresh, set_row, cells_of, log, emit, command_failed}
use dinix.Tui.Keys.{command}
use dinix.Tui.Interfaces.{Dinit, Host, World, on_dinit}
use dinix.Tui.Worker.{effect, row, run_action, service_effect, refresh_table, consume_command}

-- The result of a method, as its annotation has it.
abbrev pub as_record : Object → Result ServiceRecord
as_record (Object.service r) = ok r
as_record _ = err attribute_error

abbrev pub as_services : Object → Result (List (Str × ServiceStatus))
as_services (Object.services s) = ok s
as_services _ = err attribute_error

abbrev pub as_mechanism : Object → Result LoaderMech
as_mechanism (Object.mechanism m) = ok m
as_mechanism _ = err attribute_error

abbrev pub as_log : Object → Result Bytes
as_log (Object.log content) = ok content
as_log _ = err attribute_error

module _ (S : SocketStream) (abi : Abi) (fuel : ℕ) where
  abbrev quietly : Task S Object → Task S (Unit {0})
  quietly m = m >>= λ _. pure tt

  -- The client, as the worker calls it.
  abbrev pub connected : Dinit
  connected = record {
    State = Client S;
    query_load_mech = Commands.query_load_mech abi fuel >>= λ o. lift (as_mechanism o);
    list_services = Commands.list_services abi fuel >>= λ o. lift (as_services o);
    load = λ name. Commands.find_or_load abi fuel name true >>= λ o. lift (as_record o);
    start = λ name. quietly (Commands.start abi fuel name false);
    force_stop = λ name. quietly (Commands.stop abi fuel name false true);
    restart = λ name. quietly (Commands.restart abi fuel name);
    reload = λ name. quietly (Commands.reload abi fuel name);
    catlog = λ name clear. Commands.catlog abi fuel name clear >>= λ o. lift (as_log o);
  }

module _ {S : SocketStream} (L : IsStream S) (abi : Abi) {H : Host} where
  -- If the daemon answers the search for the service with its record and the stop packet of a
  -- `stop` command, which is forced, with `DEPENDENTS` and a list of handles that fit 32 bits, the
  -- worker logs that the command failed with `Dependents` of those handles and goes on: no
  -- exception leaves the command, nothing else of the application and the host is changed, and the
  -- bytes behind the list are still to be read.
  pub consume_command-dependents :
      (fuel : ℕ) (w : World (connected S abi fuel) H) (name : Str) (ps qs : List Packet)
      (r : ServiceRecord) (handles : List ℕ) (payload rest rest' : Bytes)
      → Resolved S L abi w.dinit fuel name false ps r rest
      → Requests.start_stop abi Command.stopservice r.handle false (not true) false false
        ≡ ok payload
      → length handles < 256 ^ abi.sizeof_long
      → All (λ h. h < 2 ^ 32) handles
      → ((s : S.State)
          → L.incoming s ≡ rest
          → Answered S L abi
              (after S L abi w.dinit ps s)
              payload
              fuel
              qs
              (reply_value Reply.dependents)
              (word abi abi.sizeof_long (length handles)
                ++ (handles_bytes S L abi handles ++ rest')))
      → (s' : S.State) × (consume_command (command stop (some name)) w ≡ (
        ok tt,
        record w {
          dinit = after_both S L abi w.dinit ps qs s';
          app = emit (log (command_failed stop (dependents handles))) w.app;
        },
      ))
        × (L.incoming s' ≡ rest')
  unfolding consume_command run_action service_effect effect on_dinit
  consume_command-dependents fuel w name ps qs r handles payload rest rest' h e hl hs k =
      let (s', stopped, left) =
        stop-dependents S L abi fuel w.dinit name false true ps qs r handles payload rest rest' h e
          hl hs k in
      (s', rw stopped, left)

-- The rows of a table once these services have been shown.
abbrev pub with_rows : List (Str × ServiceStatus) → Rows → Rows
with_rows [] rows = rows
with_rows ((name, status) ∷ services) rows =
    with_rows services (insert name (cells_of name status) rows)

rows-Show :
    {D : Dinit} {H : Host} (services : List (Str × ServiceStatus)) (w : World D H) (rows : Rows)
    → Shows w.app rows
    → (w' : World D H) × (for_each services row w ≡ (ok tt, w'))
      × (w'.dinit ≡ w.dinit)
      × Shows w'.app (with_rows services rows)
unfolding for_each row
rows-Show [] w rows h = (w, refl, refl, h)
rows-Show ((name, status) ∷ services) w rows h =
    rows-Show services (record w { app = set_row name status w.app }) _
      (set_row-Shows name status w.app rows h)

module _ {S : SocketStream} (L : IsStream S) (abi : Abi) {H : Host} where
  -- If the calls on the table so far have all succeeded and have left rows whose keys are
  -- `_known`, and the daemon answers `list_services` with one service or more, its packets and
  -- `LISTDONE`, and the client has rounds enough to look at all of this, the `refresh` command
  -- ends without an exception; the calls on the table up to then all succeed and leave the old
  -- rows with the row of each listed service put in under its name, in order, their keys are
  -- `_known`, and the bytes behind `LISTDONE` are still to be read.
  pub refresh-Shows :
      (fuel : ℕ) (w : World (connected S abi fuel) H) (rows : Rows) (ps : List Packet) (e : Entry)
      (es : List Entry) (rest : Bytes)
      → Shows w.app rows
      → rounds (e ∷ es) ≤ fuel
      → All (IsEntry S abi w.dinit.version) (e ∷ es)
      → Answered S L abi w.dinit
          (Requests.list_services w.dinit.version)
          fuel
          ps
          (reply_value Reply.svcinfo)
          (entries_bytes S abi w.dinit.version e es rest)
      → (w' : World (connected S abi fuel) H) × (consume_command (command refresh none) w
          ≡ (ok tt, w'))
        × Shows w'.app (with_rows (entered w.dinit.version (e ∷ es) []) rows)
        × (L.incoming w'.dinit.stream ≡ rest)
  unfolding consume_command run_action service_effect refresh_table on_dinit
  refresh-Shows fuel w rows ps e es rest h hf hs a =
      let (s', listed, left) = list_services-entries S L abi fuel w.dinit ps e es rest hf hs a in
      let d : Client S = record w.dinit {
        stream = s';
        pending = none;
        events = all_buffered (buffered w.dinit.events ps) (e ∷ es);
      } in
      let (w', shown, same, h') =
        rows-Show (entered w.dinit.version (e ∷ es) []) (record w { dinit = d }) rows h in
      (w', rw listed (rw shown), h', ap (λ (c : Client S). L.incoming c.stream) same ∙ left)
