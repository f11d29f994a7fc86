-- ===== src/Tui/Quiet/Working.antt =====
-- The tasks and the commands of the worker of tui/src/dinix_tui/app.py keep what their few writes keep.
use dinix.Shared.{Option, none, some, List, [], ◌∷◌, if◌then◌else◌}
use dinix.Struct.{Bytes}
use dinix.Utf8.{Str}
use dinix.Protocol.Records.{ServiceEventInfo, Event, service_event, env_event}
use dinix.Tui.Act.{pure, gets}
use dinix.Tui.State
use dinix.Tui.State.{
  no_runtime_dir, reload_failed, event_line, contains, restart_failed, restarted, App, Command,
  Output, log, notify, Line, Notice, Action, set_row, cells_of, emit, queue_size, send_nowait,
}
use dinix.Tui.Interfaces.{Dinit, Host}
use dinix.Tui.Text.{update}
use dinix.Tui.Reload.{names_in}
use dinix.Tui.Worker.{
  gather, refresh_table, load_service, load_every_service, consume_event, show_event,
  stop_following, show_lines, stream_log, effect, show_log, service_effect, run_action,
  consume_command,
}
use dinix.Tui.Keeps.{Keeps, Keeps-pure, Keeps-bind}
use dinix.Tui.Quiet.{IsQuiet, quiet_rules, Quiet-unfollow, Quiet-names_in, Quiet-nix_reload}

module _ {D : Dinit} {H : Host} {P : App → Type 0} (quiet : IsQuiet P) where
  Quiet-gather : (directories names : List Str) → Keeps {D = D} {H = H} P (gather directories names)
  unfolding gather
  Quiet-gather [] names = Keeps-pure names
  Quiet-gather (directory ∷ directories) names =
      Keeps-bind (gets (λ w. H.is_dir directory w.host)) _ (search quiet_rules) λ found.
        Keeps-bind (if found then names_in directory else pure []) _
          (search (quiet_rules, Quiet-names_in))
          (λ more. Quiet-gather directories (update names more))

  Quiet-refresh_table : Keeps {D = D} {H = H} P refresh_table
  unfolding refresh_table
  Quiet-refresh_table = search quiet_rules depth 9

  Quiet-load_service : (name : Str) → Keeps {D = D} {H = H} P (load_service name)
  unfolding load_service
  Quiet-load_service name = search quiet_rules depth 9

  pub Quiet-load_every_service : Keeps {D = D} {H = H} P load_every_service
  unfolding load_every_service
  Quiet-load_every_service =
      search (quiet_rules, Quiet-gather, Quiet-refresh_table, Quiet-load_service) depth 20

  Quiet-show_event :
      (e : ServiceEventInfo) (found : Option Str) → Keeps {D = D} {H = H} P (show_event e found)
  unfolding show_event
  Quiet-show_event e none = Keeps-pure tt
  Quiet-show_event e (some name) = search quiet_rules

  pub Quiet-consume_event : (e : Event) → Keeps {D = D} {H = H} P (consume_event e)
  unfolding consume_event
  Quiet-consume_event (env_event e) = search quiet_rules
  Quiet-consume_event (service_event e) = search (quiet_rules, Quiet-show_event)

  Quiet-stop_following : (service : Str) → Keeps {D = D} {H = H} P (stop_following service)
  unfolding stop_following
  Quiet-stop_following service = search (quiet_rules, Quiet-unfollow) depth 12

  Quiet-show_lines :
      (service : Str) (content : Bytes) → Keeps {D = D} {H = H} P (show_lines service content)
  unfolding show_lines
  Quiet-show_lines service [] = Keeps-pure tt
  Quiet-show_lines service (b ∷ bs) = search quiet_rules

  Quiet-stream_log : (service : Str) → Keeps {D = D} {H = H} P (stream_log service)
  unfolding stream_log
  Quiet-stream_log service = search (quiet_rules, Quiet-stop_following, Quiet-show_lines) depth 12

  Quiet-effect : (action : Action) (service : Str) → Keeps {D = D} {H = H} P (effect action service)
  unfolding effect
  Quiet-effect State.start service = search quiet_rules
  Quiet-effect State.stop service = search quiet_rules
  Quiet-effect State.restart service = search quiet_rules
  Quiet-effect State.reload service = search quiet_rules
  Quiet-effect action service = search quiet_rules

  Quiet-service_effect :
      (action : Action) (service : Option Str)
      → Keeps {D = D} {H = H} P (service_effect action service)
  unfolding service_effect
  Quiet-service_effect action none = Keeps-pure tt
  Quiet-service_effect action (some service) = Quiet-effect action service

  Quiet-show_log : (service : Str) → Keeps {D = D} {H = H} P (show_log service)
  unfolding show_log
  Quiet-show_log service = search quiet_rules depth 9

ruleset action_rules = (
  quiet_rules, Quiet-stream_log, Quiet-nix_reload, Quiet-show_log, Quiet-service_effect,
  Quiet-refresh_table,
)

module _ {D : Dinit} {H : Host} {P : App → Type 0} (quiet : IsQuiet P) where
  pub Quiet-run_action :
      (action : Action) (service : Option Str) → Keeps {D = D} {H = H} P (run_action action service)
  unfolding run_action
  Quiet-run_action State.follow none = search action_rules
  Quiet-run_action State.follow (some service) = search action_rules
  Quiet-run_action State.catlog none = search action_rules
  Quiet-run_action State.catlog (some service) = search action_rules
  Quiet-run_action action service = search action_rules

  pub Quiet-consume_command : (c : Command) → Keeps {D = D} {H = H} P (consume_command c)
  unfolding consume_command
  Quiet-consume_command c = search (quiet_rules, Quiet-run_action)
