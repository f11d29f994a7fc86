-- ===== src/Tui/Quiet.antt =====
-- What all the actions of the worker of tui/src/dinix_tui/app.py keep, if the few writes that they
-- make on the application keep it.
pub mod Working
use dinix.Shared.{ℕ, ◌+◌, Bool, Option, none, some, List, [], ◌∷◌, if◌then◌else◌}
use dinix.Exceptions.{Exception, rebuild_error}
use dinix.Struct.{Bytes}
use dinix.Utf8.{Str}
use dinix.Protocol.Records.{
  ServiceRecord, ServiceStatus, ServiceEventInfo, Event, service_event, env_event,
}
use dinix.Tui.Act.{Act, ◌>>◌, pure, gets}
use dinix.Tui.State
use dinix.Tui.State.{
  no_runtime_dir, reload_failed, event_line, contains, restart_failed, restarted, App, Command,
  Output, log, notify, Line, Notice, Action, set_row, cells_of, emit, queue_size, send_nowait,
}
use dinix.Tui.Interfaces.{Dinit, Host, World, on_dinit}
use dinix.Tui.Text.{update, sorted}
use dinix.Tui.Reload
use dinix.Tui.Reload.{
  output, remember, names_in, run_command, by_command, rebuild_with, rebuild, point_in, point_at,
  attempt, load_new, reload_each, restart_each, started_names, find_services, restart_started,
  run_steps, point_steps, chunk_lines,
}
use dinix.Tui.Worker.{
  gather, row, refresh_table, load_service, load_every_service, consume_event, show_event, unfollow,
  stop_following, show_lines, stream_log, effect, show_log, service_effect, run_action,
  consume_command,
}
use dinix.Tui.Keeps.{
  Keeps, keeps_rules, Keeps-pure, Keeps-raise, Keeps-bind, Keeps-on_host, Keeps-on_dinit,
}

-- Lines and notices, rows, handles, and the end of following keep `P`.
pub record IsQuiet (P : App → Type 0) : Type 0 where
  pub logs : (line : Line) (app : App) → P app → P (emit (log line) app)
  pub notifies : (notice : Notice) (app : App) → P app → P (emit (notify notice) app)
  pub rows : (name : Str) (status : ServiceStatus) (app : App) → P app → P (set_row name status app)
  pub remembers :
      (names : List (ℕ × Str)) (app : App) → P app → P (record app { handle_names = names })
  pub unfollows : (app : App) → P app → P (record app { following = none })

module _ {D : Dinit} {H : Host} {P : App → Type 0} (quiet : IsQuiet P) where
  pub Quiet-log : (line : Line) → Keeps {D = D} {H = H} P (output (log line))
  Quiet-log line = record { at = λ w h. quiet.logs line w.app h }

  pub Quiet-notify : (notice : Notice) → Keeps {D = D} {H = H} P (output (notify notice))
  Quiet-notify notice = record { at = λ w h. quiet.notifies notice w.app h }

  pub Quiet-remember : (r : ServiceRecord) (name : Str) → Keeps {D = D} {H = H} P (remember r name)
  Quiet-remember r name = record { at = λ w h. quiet.remembers _ w.app h }

  pub Quiet-row : (s : Str × ServiceStatus) → Keeps {D = D} {H = H} P (row s)
  unfolding row
  Quiet-row (name, status) = record { at = λ w h. quiet.rows name status w.app h }

  pub Quiet-unfollow : Keeps {D = D} {H = H} P unfollow
  Quiet-unfollow = record { at = λ w h. quiet.unfollows w.app h }

pub ruleset quiet_rules = (keeps_rules, Quiet-log, Quiet-notify, Quiet-remember, Quiet-row)

module _ {D : Dinit} {H : Host} {P : App → Type 0} (quiet : IsQuiet P) where
  pub Quiet-names_in : (directory : Str) → Keeps {D = D} {H = H} P (names_in directory)
  unfolding names_in
  Quiet-names_in directory = search quiet_rules depth 9

  pub Quiet-run_command : (command : Str) → Keeps {D = D} {H = H} P (run_command command)
  unfolding run_command
  Quiet-run_command command = search quiet_rules depth 9

  pub Quiet-attempt :
      (m : Act (World D H) (Unit {0})) (line : Exception → Line)
      → Keeps P m
      → Keeps P (attempt m line)
  unfolding attempt
  Quiet-attempt m line km = search quiet_rules depth 9

  pub Quiet-by_command : (command : Option Str) → Keeps {D = D} {H = H} P (by_command command)
  unfolding by_command
  Quiet-by_command none = Keeps-raise rebuild_error
  Quiet-by_command (some command) = Quiet-run_command command

  pub Quiet-rebuild_with : (r : Option (Act H.State Str)) → Keeps {D = D} {H = H} P (rebuild_with r)
  unfolding rebuild_with
  Quiet-rebuild_with none = search (quiet_rules, Quiet-by_command)
  Quiet-rebuild_with (some rebuilder) = Keeps-on_host rebuilder

  pub Quiet-rebuild : Keeps {D = D} {H = H} P rebuild
  unfolding rebuild
  Quiet-rebuild = Quiet-rebuild_with H.rebuilder

  pub Quiet-point_in :
      (services : Str) (runtime : Option Str) → Keeps {D = D} {H = H} P (point_in services runtime)
  unfolding point_in
  Quiet-point_in services none = Quiet-log quiet no_runtime_dir
  Quiet-point_in services (some runtime) = Keeps-on_host _

  pub Quiet-point_at : (services : Str) → Keeps {D = D} {H = H} P (point_at services)
  unfolding point_at
  Quiet-point_at services = search (quiet_rules, Quiet-point_in)

  pub Quiet-load_new : (known names : List Str) → Keeps {D = D} {H = H} P (load_new known names)
  unfolding load_new
  Quiet-load_new known [] = Keeps-pure tt
  Quiet-load_new known (name ∷ names) =
      let rest = Quiet-load_new known names in
      Keeps-bind (if contains known name then pure tt else _) (λ _. load_new known names)
        (search quiet_rules depth 12) (λ _. rest)

  pub Quiet-reload_each :
      (names : List Str) (count : ℕ) → Keeps {D = D} {H = H} P (reload_each names count)
  unfolding reload_each
  Quiet-reload_each [] count = Keeps-pure count
  Quiet-reload_each (name ∷ names) count =
      Keeps-bind (attempt (on_dinit (D.reload name)) (reload_failed name)) _
        (Quiet-attempt _ _ (Keeps-on_dinit (D.reload name)))
        (λ done. Quiet-reload_each names (if done then count + 1 else count))

  pub Quiet-restart_each : (names : List Str) → Keeps {D = D} {H = H} P (restart_each names)
  unfolding restart_each
  Quiet-restart_each [] = Keeps-pure tt
  Quiet-restart_each (name ∷ names) =
      let rest = Quiet-restart_each names in
      Keeps-bind
        (attempt (on_dinit (D.restart name) >> output (log (restarted name))) (restart_failed name))
        (λ done. restart_each names)
        (Quiet-attempt _ _ (
          Keeps-bind (on_dinit (D.restart name)) _ (Keeps-on_dinit (D.restart name))
            (λ _. Quiet-log quiet (restarted name))))
        (λ done. rest)

  pub Quiet-find_services : Keeps {D = D} {H = H} P find_services
  unfolding find_services
  Quiet-find_services = search (quiet_rules, Quiet-rebuild) depth 12

  pub Quiet-restart_started : Keeps {D = D} {H = H} P restart_started
  unfolding restart_started
  Quiet-restart_started =
      Keeps-bind (on_dinit D.list_services) _ (Keeps-on_dinit D.list_services)
        (λ services. Quiet-restart_each (sorted (started_names services)))

pub ruleset reload_rules = (
  quiet_rules, Quiet-names_in, Quiet-find_services, Quiet-point_at, Quiet-load_new,
  Quiet-reload_each, Quiet-restart_started,
)

module _ {D : Dinit} {H : Host} {P : App → Type 0} (quiet : IsQuiet P) where
  pub Quiet-nix_reload :
      (restart_running : Bool) → Keeps {D = D} {H = H} P (Reload.nix_reload restart_running)
  unfolding Reload.nix_reload
  Quiet-nix_reload restart_running = search reload_rules depth 30
