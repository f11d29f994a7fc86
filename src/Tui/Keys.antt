-- ===== src/Tui/Keys.antt =====
-- The actions of `DinixApp` on keys and timers (tui/src/dinix_tui/app.py), and how it is made. The key
-- under the cursor, if there is one, comes from the table of textual.
use dinix.Shared.{
  Bool, true, false, Option, none, some, List, [], ◌∷◌, if◌then◌else◌, reverse, ◌==◌,
}
use dinix.Shared.Dict.{lookup}
use dinix.Utf8.{Str}
use dinix.Client.SocketPath.{Environ}
use dinix.Tui.State.{
  Action, start, stop, restart, reload, catlog, follow, refresh, nix_reload, rebuild_all, Command,
  select_first, queue_full, nix_disabled, rebuild_disabled, stopped_following, now_following,
  notify, App, emit, send_nowait,
}
use dinix.Tui.Worker.{is_following}

-- `_row_highlighted`
unfoldable pub row_highlighted : Str → App → App
row_highlighted name app = record app { selected = some name }

-- `_current_service`: the row under the cursor, or else the last one that was highlighted.
unfoldable pub current_service : Option Str → App → Option Str
current_service none app = app.selected
current_service (some name) app = some name

-- The command behind the others, or `missed` where the queue is full.
abbrev pub queued : Option (List Command) → App → App → App
queued none missed app = missed
queued (some q) missed app = record app { queue = q }

-- `send_nowait` with `WouldBlock` suppressed.
unfoldable pub send_quietly : Command → App → App
send_quietly c app = queued (send_nowait c app.queue) app app

abbrev pub command : Action → Option Str → Command
command action service = record { action = action; service = service }

-- `_dispatch`, with what `_current_service` gave.
unfoldable pub dispatch_to : Action → Option Str → App → App
dispatch_to action none app = emit (notify select_first) app
dispatch_to action (some service) app =
    queued (send_nowait (command action (some service)) app.queue) (emit (notify queue_full) app)
      app

unfoldable pub dispatch : Action → Option Str → App → App
unfolding dispatch_to current_service
dispatch action cursor app = dispatch_to action (current_service cursor app) app

unfoldable pub action_start : Option Str → App → App
unfolding dispatch
action_start = dispatch start

unfoldable pub action_stop : Option Str → App → App
unfolding dispatch
action_stop = dispatch stop

unfoldable pub action_restart : Option Str → App → App
unfolding dispatch
action_restart = dispatch restart

unfoldable pub action_reload : Option Str → App → App
unfolding dispatch
action_reload = dispatch reload

unfoldable pub action_log : Option Str → App → App
unfolding dispatch
action_log = dispatch catlog

-- `action_follow`, with what `_current_service` gave.
unfoldable pub follow_service : Option Str → App → App
unfolding send_quietly
follow_service none app = emit (notify select_first) app
follow_service (some service) app =
    if is_following app.following service
    then emit (notify (stopped_following service)) (record app { following = none })
    else send_quietly (command follow (some service))
        (emit (notify (now_following service)) (record app { following = some service }))

unfoldable pub action_follow : Option Str → App → App
unfolding follow_service current_service
action_follow cursor app = follow_service (current_service cursor app) app

-- `_follow_tick`, for the service that is followed.
unfoldable pub tick_for : Option Str → App → App
unfolding send_quietly
tick_for none app = app
tick_for (some service) app = send_quietly (command follow (some service)) app

unfoldable pub follow_tick : App → App
unfolding tick_for
follow_tick app = tick_for app.following app

unfoldable pub action_refresh : App → App
unfolding send_quietly
action_refresh app = send_quietly (command refresh none) app

-- Whether there is a rebuild command: `_rebuilder` or `_nix_command`.
abbrev pub can_rebuild : Bool → Option Str → Bool
can_rebuild true nix_command = true
can_rebuild false none = false
can_rebuild false (some command) = true

unfoldable pub action_nix_reload : Bool → App → App
unfolding send_quietly
action_nix_reload has_rebuilder app =
    if can_rebuild has_rebuilder app.nix_command
    then send_quietly (command nix_reload none) app
    else emit (notify nix_disabled) app

unfoldable pub action_rebuild : Bool → App → App
unfolding send_quietly
action_rebuild has_rebuilder app =
    if can_rebuild has_rebuilder app.nix_command
    then send_quietly (command rebuild_all none) app
    else emit (notify rebuild_disabled) app

-- `os.path.dirname`: what stands in front of the last slash, without the slashes at its end, unless
-- there is nothing else.
abbrev pub drop_to_slash : Str → Str
drop_to_slash [] = []
drop_to_slash (c ∷ s) = if c == b'/' then c ∷ s else drop_to_slash s

abbrev pub drop_slashes : Str → Str
drop_slashes [] = []
drop_slashes (c ∷ s) = if c == b'/' then drop_slashes s else c ∷ s

abbrev pub unless_empty : Str → Str → Str
unless_empty head [] = head
unless_empty head (c ∷ s) = c ∷ s

unfoldable pub dirname : Str → Str
dirname path =
    let head = drop_to_slash (reverse path) in reverse (unless_empty head (drop_slashes head))

abbrev pub dinix_runtime_dir : Str
dinix_runtime_dir =
    b'D' ∷ b'I' ∷ b'N' ∷ b'I' ∷ b'X' ∷ b'_' ∷ b'R' ∷ b'U' ∷ b'N' ∷ b'T' ∷ b'I' ∷ b'M' ∷ b'E' ∷ b'_'
    ∷ b'D' ∷ b'I' ∷ b'R' ∷ []

abbrev pub dinix_tui_nix_command : Str
dinix_tui_nix_command =
    b'D' ∷ b'I' ∷ b'N' ∷ b'I' ∷ b'X' ∷ b'_' ∷ b'T' ∷ b'U' ∷ b'I' ∷ b'_' ∷ b'N' ∷ b'I' ∷ b'X' ∷ b'_'
    ∷ b'C' ∷ b'O' ∷ b'M' ∷ b'M' ∷ b'A' ∷ b'N' ∷ b'D' ∷ []

abbrev pub or_else : {A : Type 0} → Option A → Option A → Option A
or_else none other = other
or_else (some a) other = some a

-- `os.path.abspath`, which goes by the working directory, is a parameter.
module _ (abspath : Str → Str) (environ : Environ) where
  unfoldable pub default_runtime_dir : Option Str → Option Str
  unfolding dirname
  default_runtime_dir (some socket_path) = some (dirname (abspath socket_path))
  default_runtime_dir none = elim (lookup dinix_runtime_dir environ) [
    | none ↦ none
    | some runtime_dir ↦ some (abspath runtime_dir)
  ]

  -- `DinixApp.__init__`
  unfoldable pub new_app : Option Str → Option Str → Option Str → App
  unfolding default_runtime_dir
  new_app socket_path nix_command runtime_dir = record {
    nix_command = or_else nix_command (lookup dinix_tui_nix_command environ);
    runtime_dir = or_else runtime_dir (default_runtime_dir socket_path);
    selected = none;
    following = none;
    known = [];
    handle_names = [];
    queue = [];
    screen = [];
  }
