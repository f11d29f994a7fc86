-- ===== src/Tests/Served.antt =====
-- The queue and the tasks of tui/src/dinix_tui/app.py on a client in a concrete session: the start of a
-- service without a name, and what waits behind it.
use dinix.Shared.{none, some, List, [], ◌∷◌, arith}
use dinix.Protocol.Enums.{ServiceEvent}
use dinix.Protocol.Records.{ServiceEventInfo, service_event}
use dinix.Stream.Feed.{feed_stream}
use dinix.Struct.{x86_64}
use dinix.Tui.State.{Command, start, refresh}
use dinix.Tui.Interfaces.{World}
use dinix.Tui.Keys.{command}
use dinix.Tui.Worker.{consume_commands}
use dinix.Tui.Survives.{LoopEnds, consume_commands-LoopEnds}
use dinix.Tui.Run.{Turn, event_turn, command_turn}
use dinix.Tui.Connected.{connected}
use dinix.Tests.Daemon.{sent_bytes}
use dinix.Tests.Listing.{listing}
use dinix.Tests.Machine.{memory, up_status}
use dinix.Tests.Wired.{fresh_app, wired, silent}

abbrev waiting : List Command
waiting = command refresh none ∷ command start (some []) ∷ command refresh none ∷ []

abbrev busy : World (connected feed_stream x86_64 6) (memory silent)
busy = record (wired 6 (sent_bytes 62 listing)) { app = record fresh_app { queue = waiting } }

consume_commands-LoopEnds_example : LoopEnds waiting busy (consume_commands 3 busy)
consume_commands-LoopEnds_example = consume_commands-LoopEnds 3 busy (omega arith)

abbrev db_event : ServiceEventInfo
db_event = record { handle = 100; event = ServiceEvent.started; status = up_status }

abbrev turns : List Turn
turns = event_turn (service_event db_event) ∷ command_turn ∷ command_turn ∷ []
