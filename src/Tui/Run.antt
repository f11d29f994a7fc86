-- ===== src/Tui/Run.antt =====
-- `_run_client` of tui/src/dinix_tui/app.py: the connection, the first load, and the two tasks, which
-- take turns with an event or a command.
use dinix.Shared.{ℕ, true, List}
use dinix.Exceptions.{Exception, Result, ok, err, exception_group}
use dinix.Protocol.Records.{Event}
use dinix.Tui.Act.{Act, try, ◌>>=◌, ◌>>◌, for_each}
use dinix.Tui.State.{Line, connected_to, dinit_failed, tui_failed, failed, log, notify}
use dinix.Tui.Interfaces.{Dinit, Host, World, on_dinit, is_dinit_error}
use dinix.Tui.Reload.{output}
use dinix.Tui.Worker.{load_every_service, consume_event, consume_commands}

-- The next task that gets to run: with an event of dinit, or with the next command if there is one.
pub data Turn : Type 0 where
  event_turn : Event → Turn
  command_turn : Turn

-- What leaves a task group.
abbrev pub grouped : {W : Type 0} → Result (Unit {0}) × W → Result (Unit {0}) × W
grouped (ok x, w) = (ok x, w)
grouped (err e, w) = (err (exception_group e), w)

module _ {D : Dinit} {H : Host} where
  unfoldable pub take_turn : Turn → Act (World D H) (Unit {0})
  unfolding consume_event consume_commands
  take_turn (event_turn e) = consume_event e
  take_turn command_turn = consume_commands 1

  -- The task group: the first exception ends both tasks.
  unfoldable pub serve : List Turn → Act (World D H) (Unit {0})
  unfolding take_turn
  serve turns w = grouped (for_each turns take_turn w)

  abbrev pub show_failure : (Exception → Line) → Exception → Act (World D H) (Unit {0})
  show_failure line e = output (log (line e)) >> output (notify (failed e))

-- `async with connector(socket_path) as client`: the client's protocol version, or what is raised
-- instead of it, and what becomes of the end of the block.
pub record Connector (D : Dinit) : Type 0 where
  pub enter : Act D.State ℕ
  pub leave : Result (Unit {0}) → Act D.State (Unit {0})

module _ {D : Dinit} {H : Host} where
  abbrev pub left : Connector D → Result (Unit {0}) × World D H → Result (Unit {0}) × World D H
  left connector (r, w) = on_dinit (connector.leave r) w

  -- The block inside of `async with`, which the connector is left behind.
  unfoldable pub connected_block : Connector D → ℕ → List Turn → Act (World D H) (Unit {0})
  unfolding load_every_service serve
  connected_block connector version turns w =
      left connector ((do output (log (connected_to version)); load_every_service; serve turns) w)

-- The connector is a parameter, as in the code.
module _ {D : Dinit} {H : Host} (connector : Connector D) where
  unfoldable pub session : List Turn → Act (World D H) (Unit {0})
  unfolding connected_block
  session turns = do version ← on_dinit connector.enter; connected_block connector version turns

  unfoldable pub run_client : List Turn → Act (World D H) (Unit {0})
  unfolding session
  run_client turns =
      try (λ e. true) (try is_dinit_error (session turns) (show_failure dinit_failed))
        (show_failure tui_failed)
