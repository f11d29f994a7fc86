-- ===== src/Tui/Sound.antt =====
-- The invariant of `DinixApp` (tui/src/dinix_tui/app.py): the calls on the table so far succeed and
-- leave rows whose keys are `_known`, and the queue is within its size.
use dinix.Shared.{
  ℕ, zero, suc, ◌≤◌, ◌≡◌, refl, ◌∙◌, Option, none, some, List, [], ◌∷◌, arith, length,
}
use dinix.Shared.Dict.{insert}
use dinix.Utf8.{Str}
use dinix.Protocol.Records.{ServiceStatus}
use dinix.Tui.Act.{◌>>◌, pure}
use dinix.Tui.State.{App, Command, log, notify, Line, Notice, set_row, cells_of, emit, queue_size}
use dinix.Tui.Interfaces.{Dinit, Host, World}
use dinix.Tui.Worker.{taken, consume_command, take_command, consume_commands}
use dinix.Tui.Table.{Rows, Shows, replay, replay-append, call, set_row-Shows}
use dinix.Tui.Quiet.{IsQuiet}
use dinix.Tui.Quiet.Working.{Quiet-consume_command}
use dinix.Tui.Keeps.{Keeps, Keeps-pure, Keeps-bind}

pub record IsSound (app : App) : Type 0 where
  pub rows : Rows
  pub shows : Shows app rows
  pub bounded : length app.queue ≤ queue_size

Shows-log :
    (line : Line) (app : App) (rows : Rows) → Shows app rows → Shows (emit (log line) app) rows
unfolding replay call
Shows-log line app rows h = record {
  replayed = replay-append app.screen (log line ∷ []) [] ∙ rw h.replayed;
  keyed = h.keyed;
}

Shows-notify :
    (notice : Notice) (app : App) (rows : Rows)
    → Shows app rows
    → Shows (emit (notify notice) app) rows
unfolding replay call
Shows-notify notice app rows h = record {
  replayed = replay-append app.screen (notify notice ∷ []) [] ∙ rw h.replayed;
  keyed = h.keyed;
}

pub emit_log-IsSound : (line : Line) (app : App) → IsSound app → IsSound (emit (log line) app)
emit_log-IsSound line app h = record {
  rows = h.rows;
  shows = Shows-log line app h.rows h.shows;
  bounded = h.bounded;
}

pub emit_notify-IsSound :
    (notice : Notice) (app : App) → IsSound app → IsSound (emit (notify notice) app)
emit_notify-IsSound notice app h = record {
  rows = h.rows;
  shows = Shows-notify notice app h.rows h.shows;
  bounded = h.bounded;
}

-- What the invariant does not depend on.
pub other_fields-IsSound :
    (app app' : App)
    → app'.screen ≡ app.screen
    → app'.known ≡ app.known
    → length app'.queue ≤ length app.queue
    → IsSound app
    → IsSound app'
other_fields-IsSound app app' es ek hq h = record {
  rows = h.rows;
  shows = record { replayed = rw es h.shows.replayed; keyed = h.shows.keyed ∙ rw ek };
  bounded = omega (arith, h.bounded);
}

set_row-IsSound :
    (name : Str) (status : ServiceStatus) (app : App)
    → IsSound app
    → IsSound (set_row name status app)
set_row-IsSound name status app h = record {
  rows = insert name (cells_of name status) h.rows;
  shows = set_row-Shows name status app h.rows h.shows;
  bounded = unfold set_row in h.bounded;
}

pub IsSound-IsQuiet : IsQuiet IsSound
IsSound-IsQuiet = record {
  logs = emit_log-IsSound;
  notifies = emit_notify-IsSound;
  rows = set_row-IsSound;
  remembers = λ names app h. other_fields-IsSound app _ refl refl (omega arith) h;
  unfollows = λ app h. other_fields-IsSound app _ refl refl (omega arith) h;
}

module _ {D : Dinit} {H : Host} where
  taken-IsSound :
      (q : List Command) (w : World D H)
      → w.app.queue ≡ q
      → IsSound w.app
      → IsSound (taken q w).1.app
  taken-IsSound [] w e h = h
  taken-IsSound (c ∷ q) w e h = other_fields-IsSound w.app _ refl refl (rw e (omega arith)) h

  pub take_command-IsSound : Keeps {D = D} {H = H} IsSound take_command
  unfolding take_command
  take_command-IsSound = record { at = λ w h. taken-IsSound w.app.queue w refl h }

  pub consume_commands-IsSound :
      (rounds : ℕ) → Keeps {D = D} {H = H} IsSound (consume_commands rounds)
  unfolding consume_commands
  consume_commands-IsSound zero = Keeps-pure tt
  consume_commands-IsSound (suc rounds) =
      let rest = consume_commands-IsSound rounds in
      Keeps-bind take_command _ take_command-IsSound (λ command. go command rest)
    where
      go :
          (command : Option Command)
          → Keeps {D = D} {H = H} IsSound (consume_commands rounds)
          → Keeps {D = D} {H = H} IsSound (elim command [
            | none ↦ pure tt
            | some c ↦ consume_command c >> consume_commands rounds
          ])
      go none rest = Keeps-pure tt
      go (some c) rest =
          Keeps-bind (consume_command c) _ (Quiet-consume_command IsSound-IsQuiet c) (λ _. rest)
