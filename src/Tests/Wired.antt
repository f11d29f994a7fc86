-- ===== src/Tests/Wired.antt =====
-- The worker of tui/src/dinix_tui/app.py on a client in a concrete session.
use dinix.Shared.{ℕ, ◌≡◌, refl, false, none, some, [], ◌∷◌, arith}
use dinix.Shared.Int.{pos}
use dinix.Exceptions.{ok, dependents}
use dinix.Struct.{Bytes, x86_64, word, le_bytes, ordered, pack}
use dinix.Protocol.Enums.{reply_value, Command, command_value}
use dinix.Protocol.Requests
use dinix.Stream.Feed.{feed_stream, feed_IsStream}
use dinix.Client.Flows.{after_both}
use dinix.Client.Listing.{entered}
use dinix.Tui.State.{App, stop, refresh, log, emit, command_failed}
use dinix.Tui.Interfaces.{Process, World}
use dinix.Tui.Table.{replay, Shows}
use dinix.Tui.Keys.{command}
use dinix.Tui.Worker.{consume_command}
use dinix.Tui.Connected.{connected, with_rows, consume_command-dependents, refresh-Shows}
use dinix.Tests.Daemon.{db_record, idle, packets, all_packets, sent_bytes, answers_within}
use dinix.Tests.Machine.{memory}
use dinix.Tests.Flows.{db, whole, db-Resolved, dependent_bytes}
use dinix.Tests.Listing.{db_entry, w_entry, db_entry-IsEntry, w_entry-IsEntry, listing}

abbrev pub fresh_app : App
fresh_app = record {
  nix_command = none;
  runtime_dir = none;
  selected = none;
  following = none;
  known = [];
  handle_names = [];
  queue = [];
  screen = [];
}

abbrev pub silent : Process
silent = record { stdout = []; stderr = []; code = pos 0 }

abbrev fuel : ℕ
fuel = 6

-- The worker with the bytes that the daemon sends.
abbrev pub wired :
    (rounds : ℕ) → Bytes → World (connected feed_stream x86_64 rounds) (memory silent)
wired rounds bs = record { app = fresh_app; dinit = idle bs; host = λ path. none }

consume_command-dependents_example :
    (s' : feed_stream.State) × (consume_command
        (command stop (some db))
        (wired 3 (whole 65 dependent_bytes))
      ≡ (
        ok tt,
        record (wired 3 (whole 65 dependent_bytes)) {
          dinit =
              after_both feed_stream feed_IsStream x86_64
                (idle (whole 65 dependent_bytes))
                packets
                packets
                s';
          app = emit (log (command_failed stop (dependents (8 ∷ 9 ∷ [])))) fresh_app;
        },
      ))
    × (feed_IsStream.incoming s' ≡ 9 ∷ [])
unfolding reply_value Requests.start_stop Requests.start_stop_flags pack word le_bytes ordered
consume_command-dependents_example =
    consume_command-dependents feed_IsStream x86_64 {H = memory silent} 3
      (wired 3 (whole 65 dependent_bytes)) db packets packets db_record (8 ∷ 9 ∷ [])
      (command_value Command.stopservice ∷ 0 ∷ 7 ∷ 0 ∷ 0 ∷ 0 ∷ []) (sent_bytes 65 dependent_bytes)
      (9 ∷ []) (db-Resolved false 65 dependent_bytes) refl (omega arith)
      (omega arith, (omega arith, tt))
      λ s h. record {
        is_open = refl;
        sent = s;
        sending = refl;
        answering = h;
        is_reply = omega arith;
        packets = all_packets;
        enough = omega arith;
      }

fresh-Shows : Shows fresh_app []
unfolding replay
fresh-Shows = record { replayed = refl; keyed = refl }

refresh-Shows_example :
    (w' : World (connected feed_stream x86_64 6) (memory silent)) × (consume_command
        (command refresh none)
        (wired 6 (sent_bytes 62 listing))
      ≡ (ok tt, w'))
    × Shows w'.app (with_rows (entered 5 (db_entry ∷ w_entry ∷ []) []) [])
    × (feed_IsStream.incoming w'.dinit.stream ≡ 9 ∷ [])
unfolding reply_value
refresh-Shows_example =
    refresh-Shows feed_IsStream x86_64 6 (wired 6 (sent_bytes 62 listing)) [] packets db_entry
      (w_entry ∷ []) (9 ∷ []) fresh-Shows (omega arith) (db_entry-IsEntry, (w_entry-IsEntry, tt))
      (answers_within 6 (Requests.list_services 5) 62 listing (omega arith) (omega arith))
