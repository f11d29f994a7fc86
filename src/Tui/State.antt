-- ===== src/Tui/State.antt =====
-- The state of `DinixApp` (tui/src/dinix_tui/app.py). The table and the log are widgets of textual,
-- which the repository does not implement: the calls on them are recorded, in order.
use dinix.Shared.{
  ℕ, Bool, true, false, Option, none, some, List, [], ◌∷◌, ◌++◌, ◌||◌, length, ltb, if◌then◌else◌,
}
use dinix.Shared.Int.{ℤ}
use dinix.Shared.Dict.{key_eq}
use dinix.Exceptions.{Exception}
use dinix.Utf8.{Str}
use dinix.Protocol.Enums.{ServiceState, ServiceEvent}
use dinix.Protocol.Records.{ServiceStatus}

-- The actions of a command; `other` is any other text.
pub data Action : Type 0 where
  start stop restart reload catlog follow refresh nix_reload rebuild_all : Action
  other : Str → Action

pub record Command : Type 0 where
  pub action : Action
  pub service : Option Str

-- A row of the table. The text of the process id is kept as the number, or none for the empty text.
pub record Cells : Type 0 where
  pub icon : Str
  pub service : Str
  pub state : Str
  pub pid : Option ℤ

-- A cell under the key of its column.
pub data Cell : Type 0 where
  icon_cell service_cell state_cell : Str → Cell
  pid_cell : Option ℤ → Cell

-- A line of the log, with the values that its text is made from.
pub data Line : Type 0 where
  connected_to : ℕ → Line
  dinit_failed tui_failed : Exception → Line
  loaded_services : ℕ → Line
  event_line : Str → ServiceEvent → ServiceState → Line
  env_line : Str → Line
  log_text : Str → Line
  empty_log : Line
  command_failed : Action → Exception → Line
  no_log_buffer : Str → Line
  unknown_action : Action → Line
  running_rebuild : Line
  adopted : Str → Line
  loaded_new : Str → Line
  reload_failed : Str → Exception → Line
  reloaded : ℕ → Line
  restarted : Str → Line
  restart_failed : Str → Exception → Line
  no_runtime_dir : Line
  -- a line of a child process or of a service's output, behind its prefix
  plain : Str → Str → Line

pub data Notice : Type 0 where
  rebuilding reload_complete select_first queue_full nix_disabled rebuild_disabled : Notice
  without_buffer stopped_following now_following : Str → Notice
  failed : Exception → Notice

-- The calls on the widgets: `add_row`, `update_cell`, `RichLog.write`, `notify`.
pub data Output : Type 0 where
  add_row : Str → Cells → Output
  update_cell : Str → Cell → Output
  log : Line → Output
  notify : Notice → Output

-- The attributes of `DinixApp`; `known` is a set, and the queue the buffer of `_commands_send`.
pub record App : Type 0 where
  pub nix_command : Option Str
  pub runtime_dir : Option Str
  pub selected : Option Str
  pub following : Option Str
  pub known : List Str
  pub handle_names : List (ℕ × Str)
  pub queue : List Command
  pub screen : List Output

-- `_ICONS.get(state, "?")`
abbrev pub state_icon : ServiceState → Str
state_icon ServiceState.started = 0x25b6 ∷ []
state_icon ServiceState.stopped = 0x25a0 ∷ []
state_icon ServiceState.starting = 0x2026 ∷ []
state_icon ServiceState.stopping = 0x2026 ∷ []

-- `state.name.lower()`
abbrev pub state_name : ServiceState → Str
state_name ServiceState.stopped = b's' ∷ b't' ∷ b'o' ∷ b'p' ∷ b'p' ∷ b'e' ∷ b'd' ∷ []
state_name ServiceState.starting = b's' ∷ b't' ∷ b'a' ∷ b'r' ∷ b't' ∷ b'i' ∷ b'n' ∷ b'g' ∷ []
state_name ServiceState.started = b's' ∷ b't' ∷ b'a' ∷ b'r' ∷ b't' ∷ b'e' ∷ b'd' ∷ []
state_name ServiceState.stopping = b's' ∷ b't' ∷ b'o' ∷ b'p' ∷ b'p' ∷ b'i' ∷ b'n' ∷ b'g' ∷ []

-- The cells of `_set_row`.
abbrev pub cells_of : Str → ServiceStatus → Cells
cells_of name status = record {
  icon = state_icon status.state;
  service = name;
  state = state_name status.state;
  pid = status.pid;
}

-- `name in names`
unfoldable pub contains : List Str → Str → Bool
contains [] s = false
contains (t ∷ ts) s = key_eq t s || contains ts s

-- `names.add(name)`
unfoldable pub add : Str → List Str → List Str
unfolding contains
add s ts = if contains ts s then ts else ts ++ (s ∷ [])

-- A call on a widget.
abbrev pub emit : Output → App → App
emit o app = record app { screen = app.screen ++ (o ∷ []) }

-- The calls of `_set_row`: a known name has its four cells updated, a new one is added.
abbrev pub row_calls : Bool → Str → Cells → List Output
row_calls true name cells =
    update_cell name (icon_cell cells.icon)
    ∷ update_cell name (service_cell cells.service)
    ∷ update_cell name (state_cell cells.state)
    ∷ update_cell name (pid_cell cells.pid)
    ∷ []
row_calls false name cells = add_row name cells ∷ []

unfoldable pub set_row : Str → ServiceStatus → App → App
unfolding add
set_row name status app = record app {
  known = add name app.known;
  screen = app.screen ++ row_calls (contains app.known name) name (cells_of name status);
}

-- `create_memory_object_stream(32)`
abbrev pub queue_size : ℕ
queue_size = 32

-- `send_nowait`: the queue with the command behind the others, or `WouldBlock`.
abbrev pub send_nowait : Command → List Command → Option (List Command)
send_nowait c q = if ltb (length q) queue_size then some (q ++ (c ∷ [])) else none
