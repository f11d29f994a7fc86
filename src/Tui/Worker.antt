-- ===== src/Tui/Worker.antt =====
-- The worker of `DinixApp` (tui/src/dinix_tui/app.py): `_load_every_service`, `_refresh`,
-- `_consume_events`, `_consume_commands`, `_stream_log` and `_effect`.
use dinix.Shared.{
  ℕ, zero, suc, Bool, true, false, Option, none, some, List, [], ◌∷◌, ◌++◌, ◌||◌, length,
  if◌then◌else◌, map,
}
use dinix.Shared.Dict.{key_eq}
use dinix.Exceptions.{Exception, Result, ok}
use dinix.Struct.{Bytes}
use dinix.Utf8.{Str}
use dinix.Protocol.Records.{ServiceStatus, ServiceEventInfo, Event, service_event, env_event}
use dinix.Tui.Act.{Act, pure, gets, try, ◌>>=◌, ◌>>◌, modify, for_each}
use dinix.Tui.State.{
  Action, start, stop, restart, reload, catlog, follow, nix_reload, rebuild_all, Command, Line,
  loaded_services, event_line, env_line, log_text, empty_log, command_failed, no_log_buffer,
  unknown_action, plain, without_buffer, log, notify, set_row,
}
use dinix.Tui.Interfaces.{
  Dinit, Host, World, on_dinit, is_dinit_error, is_os_error, is_rebuild_error, is_command_rejected,
}
use dinix.Tui.Text.{rstrip, splitlines, sorted, update}
use dinix.Tui.Handles.{name_of}
use dinix.Tui.Reload
use dinix.Tui.Reload.{output, remember, names_in}

-- The names that `_load_every_service` collects from the directories that exist.
module _ {D : Dinit} {H : Host} where
  unfoldable pub gather : List Str → List Str → Act (World D H) (List Str)
  unfolding update
  gather [] names = pure names
  gather (directory ∷ directories) names = do
    found ← gets (λ w. H.is_dir directory w.host)
    more ← if found then names_in directory else pure []
    gather directories (update names more)

  unfoldable pub row : Str × ServiceStatus → Act (World D H) (Unit {0})
  row (name, status) = modify (λ w. record w { app = set_row name status w.app })

  unfoldable pub refresh_table : Act (World D H) (Unit {0})
  unfolding row
  refresh_table = do services ← on_dinit D.list_services; for_each services row

  -- `_handle_names[(await client.load(name)).handle] = name`
  unfoldable pub load_service : Str → Act (World D H) (Unit {0})
  load_service name = do r ← on_dinit (D.load name); remember r name

  unfoldable pub load_every_service : Act (World D H) (Unit {0})
  unfolding gather sorted load_service refresh_table
  load_every_service = do
    mech ← on_dinit D.query_load_mech
    services ← on_dinit D.list_services
    names ← gather mech.dirs (update [] (map (λ s. s.0) services))
    for_each (sorted names) load_service
    refresh_table
    output (log (loaded_services (length names)))

  -- What is done for a service event, with the name of its handle.
  unfoldable pub show_event : ServiceEventInfo → Option Str → Act (World D H) (Unit {0})
  unfolding row
  show_event e none = pure tt
  show_event e (some name) =
      output (log (event_line name e.event e.status.state)) >> row (name, e.status)

  -- One round of the loop of `_consume_events`.
  unfoldable pub consume_event : Event → Act (World D H) (Unit {0})
  unfolding name_of show_event
  consume_event (env_event e) = output (log (env_line e.name))
  consume_event (service_event e) = do
    found ← gets (λ w. name_of e.handle w.app.handle_names)
    show_event e found

-- `self._following == service`
abbrev pub is_following : Option Str → Str → Bool
is_following none service = false
is_following (some s) service = key_eq s service

-- `{service}| `
abbrev pub log_prefix : Str → Str
log_prefix service = service ++ (b'|' ∷ b' ' ∷ [])

-- The text that `catlog` shows.
abbrev pub shown : Str → Line
shown [] = empty_log
shown (c ∷ s) = log_text (c ∷ s)

module _ {D : Dinit} {H : Host} where
  abbrev pub unfollow : Act (World D H) (Unit {0})
  unfollow = modify (λ w. record w { app = record w.app { following = none } })

  -- A service without a log buffer is followed no longer.
  unfoldable pub stop_following : Str → Act (World D H) (Unit {0})
  stop_following service = do
    following ← gets (λ w. w.app.following)
    if is_following following service
        then (do
          unfollow
          output (notify (without_buffer service))
          output (log (no_log_buffer service)))
        else pure tt

  unfoldable pub show_lines : Str → Bytes → Act (World D H) (Unit {0})
  unfolding splitlines
  show_lines service [] = pure tt
  show_lines service (b ∷ bs) =
      for_each (splitlines (H.decode_replace (b ∷ bs)))
        (λ line. output (log (plain (log_prefix service) line)))

  unfoldable pub stream_log : Str → Act (World D H) (Unit {0})
  unfolding stop_following show_lines
  stream_log service =
      try is_command_rejected (on_dinit (D.catlog service true))
        (λ e. stop_following service >> pure [])
      >>= show_lines service

  unfoldable pub effect : Action → Str → Act (World D H) (Unit {0})
  effect start service = on_dinit (D.start service)
  effect stop service = on_dinit (D.force_stop service)
  effect restart service = on_dinit (D.restart service)
  effect reload service = on_dinit (D.reload service)
  effect action service = output (log (unknown_action action))

  unfoldable pub show_log : Str → Act (World D H) (Unit {0})
  unfolding rstrip
  show_log service = do
    content ← on_dinit (D.catlog service false)
    output (log (shown (rstrip (H.decode_replace content))))

  unfoldable pub service_effect : Action → Option Str → Act (World D H) (Unit {0})
  unfolding effect
  service_effect action none = pure tt
  service_effect action (some service) = effect action service

  -- The body of the `try` of `_consume_commands`.
  unfoldable pub run_action : Action → Option Str → Act (World D H) (Unit {0})
  unfolding stream_log show_log service_effect refresh_table
  run_action follow (some service) = stream_log service
  run_action nix_reload service = Reload.nix_reload false >> refresh_table
  run_action rebuild_all service = Reload.nix_reload true >> refresh_table
  run_action catlog (some service) = show_log service >> refresh_table
  run_action action service = service_effect action service >> refresh_table

-- `except (DinitError, RebuildError, OSError)`
abbrev pub is_caught : Exception → Bool
is_caught e = is_dinit_error e || is_rebuild_error e || is_os_error e

module _ {D : Dinit} {H : Host} where
  unfoldable pub consume_command : Command → Act (World D H) (Unit {0})
  unfolding run_action
  consume_command c =
      try is_caught (run_action c.action c.service) (λ e. output (log (command_failed c.action e)))

  -- The next command is taken from the queue, if there is one.
  abbrev pub taken : List Command → World D H → Result (Option Command) × World D H
  taken [] w = (ok none, w)
  taken (c ∷ q) w = (ok (some c), record w { app = record w.app { queue = q } })

  unfoldable pub take_command : Act (World D H) (Option Command)
  take_command w = taken w.app.queue w

  -- The loop of `_consume_commands` over the commands that are in the queue, for so many rounds.
  unfoldable pub consume_commands : ℕ → Act (World D H) (Unit {0})
  unfolding take_command consume_command
  consume_commands zero = pure tt
  consume_commands (suc rounds) = do
    command ← take_command
    elim command [ none ↦ pure tt | some c ↦ consume_command c >> consume_commands rounds ]
