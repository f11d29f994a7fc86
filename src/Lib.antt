-- ===== src/Lib.antt =====
-- The client of the dinit control socket in dinix and the terminal application over it: the wire
-- format (dinit-client/src/dinit_client/protocol.py), the client that speaks it over a stream
-- (dinit-client/src/dinit_client/client.py) and `DinixApp` (tui/src/dinix_tui/app.py); and the Rust
-- programs dinix-init (dinix-init/src), which prepares a container before dinit starts, and
-- dinix-unless (dinix-unless/src/main.rs), which runs a program once.
--
-- Parts. `protocol.py` is pure: enumerations, data classes, encoders of requests and decoders of
-- replies. `client.py` keeps a connection: a caller takes the lock, stores the handler of its
-- command in `_pending`, sends a packet and waits; a reader task cuts the bytes of the daemon into
-- replies, which go to the handler in flight, and information packets, which become events in a
-- bounded buffer; the handler stores a result or an error and wakes the caller. `app.py` holds one
-- client: keys and timers put commands into a bounded queue, and a worker runs them, shows the
-- services as rows of a table and, for a nix reload, runs the rebuild command, repoints the link to
-- the services and reloads them all. dinix-init reads a spec, line by line, replaces the variables in
-- its paths and then makes the directories and checks the mounts that it names; it shares nothing with
-- the client.
--
--   Shared, Shared/*       names of the library, Boolean tests, lists and integers over the native
--                          numbers, and a Python dict as an association list
--   Exceptions             the exceptions of `client.py`, of Python and of anyio, and results;
--                          Exceptions/OnlyRaises and Ends, what a result can be
--   Struct                 the use of `struct` and of indexing: fixed-width integers in the byte
--                          order and the C sizes of the host, which are the parameter `Abi`
--   Utf8                   `str.encode` and `bytes.decode` in strict UTF-8; a text is the list of
--                          its code points
--   Protocol/Enums         the `IntEnum` classes; `from_value` is the call of a class
--   Protocol/Records       the data classes and the flags of a status
--   Protocol/Requests      `query_version` to `close_handle`; Requests/Layout has a reader of the
--                          requests from the daemon's side
--   Protocol/Replies       `decode_version` to `decode_env_event`; Replies/Status, Loader,
--                          Environment and Events write the replies down from the daemon's side
--   Stream                 `_Reader.exactly` over any stream that meets what anyio documents of
--                          `receive` (`IsStream`); Stream/Feed is such a stream
--   Client/Task            `DinitClient`'s attributes, `_Pending`, the closures passed to
--                          `_request` as constructors, and actions on the client as functions
--                          from a client to a result and a client
--   Client/Reader          `_next_reply`, `_dispatch_info`, the handlers, the rounds and the end of
--                          `_read_loop`
--   Client/Commands        `_request`, `_negotiate` and the methods
--   Client/Framing         packets at the front of a stream
--   Client/Answers         requests together with what the daemon answers; Answers/Environment is
--                          `get_all_env`
--   Client/Flows           whole methods: the handle of a service, and the command on it
--   Client/Listing         `list_services`, with packets between the services
--   Client/Negotiation     `_negotiate` and the version that `connect` sets
--   Client/SocketPath      `default_socket_path`
--   Client/Invariant       what every round of the reader keeps, whatever the daemon sends
--   Client/Spending, Waking
--                          the bytes that the reader takes, the end of its rounds and of a request
--   Client/Callers         several callers of `_request`, the lock and the reader as a step relation,
--                          with and without the cancellation of a waiting caller
--   Init/Outcome           Rust's `Result`
--   Init/Expand            `expand` and `expand_braced` of expand.rs; Expand/Pieces has the language of
--                          `dinit-service(5)` from its writer's side, Expand/Names the names in it,
--                          Expand/Escape a text that stays as it is, Expand/Terminates the end of
--                          the loop
--   Init/Spec              `parse_with` and `parse_id` of spec.rs; Spec/Items has a spec from its
--                          writer's side, Spec/Lines, Numbers and Reads its parts, Spec/RoundTrip
--                          the whole, Spec/Rejecting a spec with a line that is no step
--   Init/Apply             `apply` and `main` of main.rs on a file system; Apply/Rejecting what is left
--                          alone, Apply/Again a step that is applied twice
--   Unless                 `main` of dinix-unless on a system that is a parameter (`System`)
--   Tui/Act                `await`, `raise` and `try` on a state, which keeps what was written
--   Tui/State              `DinixApp`'s attributes, the commands, `_set_row`; the calls on the table,
--                          the log and `notify` are recorded in order
--   Tui/Interfaces         the client and the host (files, processes) as the worker uses them
--   Tui/Text, Handles      `str`'s methods and `sorted`; the dict of `_handle_names`
--   Tui/Reload             `_nix_reload`, `_rebuild`, `_point_at`, `_names_in`
--   Tui/Worker             `_load_every_service`, `_refresh`, `_consume_events`,
--                          `_consume_commands`, `_stream_log`, `_effect`
--   Tui/Keys               the actions of the keys and timers, `_dispatch`, `__init__`
--   Tui/Run                `_run_client`: the first load, and the tasks that take turns
--   Tui/Connected          the worker on the client of Client/Commands
--   Tui/Table              the table as what the recorded calls make of it, on textual's
--                          documentation of `DataTable`
--   Tui/Keeps, Quiet, Sound, Session
--                          rules for an invariant in every action, and sessions as a step relation
--   Tui/Survives, Serving  how the worker's loop ends, and the task group round it
--   Tui/Loading            the handles of the first load, and the events on them
--   Tui/Directory, Pointer `_point_at` on a directory with POSIX's laws
--   Tui/Adopting, Rejecting, Lines, Chunks
--                          the parts of a nix reload: its reloads, an unusable build, and the
--                          output of the rebuild command
--   Tests                  the theorems at concrete inputs
--
-- Choices. A byte is a natural number and a buffer a list; handles are naturals, signals and the
-- signed fields of a status are integers. `mod_time` is a float in the code, and here the
-- seconds, the nanoseconds and the divisor that it is computed from: its rounding is left out.
-- Messages of exceptions are left out. A dict keeps insertion order. Code outside the repository
-- is a parameter: the host's sizes (`Abi`) and the stream (`SocketStream`, with `IsStream` as the
-- law of `receive`), the classes of characters of Rust's library (`Alphabet`, with `IsAscii` as
-- their ASCII range), the file system of dinix-init (`FileSystem`, with `Laws` for one path), the
-- system of dinix-unless (`System`), the host of the application (`Host`, with `Directory` as the
-- laws of a directory), a rebuilder, and `os.path.abspath`. `str::lines`, `trim_end_matches`,
-- `split` and `u32::from_str_radix` of Rust's library are written out as they are documented, the
-- last for a radix of at most ten (`spec.rs` has 8 and 10). The application takes its connector
-- as an argument, and so does the model (`Connector`); the default, `DinitClient.connect`, is not
-- put in, so what enters and leaves the block is open. The row under the table's cursor is an
-- argument of the actions. A set of names is a list without repetition.
--
-- Rounds. `exactly` may take as many rounds as bytes are asked for, since a lawful `receive`
-- gives at least one; `_next_reply` takes one round for each information packet and one for the
-- reply; `_request` lets the reader answer in at most as many rounds as it has. Where a loop has
-- used up its rounds the result is the exception `out_of_fuel`, which is none of the program's;
-- the results below give the number of rounds that is enough. `_consume_commands` takes one
-- round for each command that waits, and `expand` one for each character.
--
-- The lock lets one caller wait at a time, so a request and the reader take turns on one state.
-- In Client/Callers a step is a whole round of the reader, a request up to its await, its end,
-- or a cancellation at its await.
--
-- Not modelled: the cancellation of the caller by the task group after the reader has failed, and
-- of a caller while it sends; the opening and closing of the socket; `subscribe`, which returns
-- the events. Of the terminal application: a command, an event and the first load are one step
-- each, so that the tasks of the worker do not interleave at their awaits; the layout of the
-- screen, the markup of messages, the text of an exception; exceptions of `log` and `notify`,
-- which record their calls here and cannot raise; `BaseException`s that are no `Exception`;
-- `main`. Of dinix-init and dinix-unless: the messages on the standard error. The Nix modules.
pub mod Shared
pub mod Exceptions
pub mod Struct
pub mod Utf8
pub mod Protocol
pub mod Stream
pub mod Client
pub mod Init
pub mod Unless
pub mod Tui
pub mod Tests
