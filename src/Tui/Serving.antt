-- ===== src/Tui/Serving.antt =====
-- How the task group of `_run_client` of tui/src/dinix_tui/app.py ends.
use dinix.Shared.{◌≡◌, List, ◌∷◌, ◌++◌}
use dinix.Exceptions.{Exception, Result, ok, err, exception_group}
use dinix.Tui.Act.{for_each}
use dinix.Tui.State.{Command}
use dinix.Tui.Interfaces.{Dinit, Host, World}
use dinix.Tui.Worker.{run_action}
use dinix.Tui.Survives.{IsUncaught, with_queue}
use dinix.Tui.Run.{Turn, command_turn, take_turn}

module _ {D : Dinit} {H : Host} where
  -- How a turn ends: it returns, or it is that of a command whose action raises what no `except`
  -- clause names.
  data TurnEnds (w : World D H) : Turn → Result (Unit {0}) × World D H → Type 0 where
    returned : {turn : Turn} (v : World D H) → TurnEnds w turn (ok tt, v)
    broken :
        (c : Command) (q : List Command) (e : Exception) (v : World D H)
        → w.app.queue ≡ c ∷ q
        → run_action c.action c.service (with_queue q w) ≡ (err e, v)
        → IsUncaught e
        → TurnEnds w command_turn (err e, v)

  -- How the task group ends: with every turn taken, or with the group of an exception that no
  -- `except` clause names, which the action of the next command raised in one of the turns.
  pub data GroupEnds (turns : List Turn) (start : World D H)
      : Result (Unit {0}) × World D H → Type 0 where
    served :
        (w : World D H)
        → for_each turns take_turn start ≡ (ok tt, w)
        → GroupEnds turns start (ok tt, w)
    group :
        (front behind : List Turn) (v : World D H) (c : Command) (q : List Command) (e : Exception)
        (w : World D H)
        → turns ≡ front ++ (command_turn ∷ behind)
        → for_each front take_turn start ≡ (ok tt, v)
        → v.app.queue ≡ c ∷ q
        → run_action c.action c.service (with_queue q v) ≡ (err e, w)
        → IsUncaught e
        → GroupEnds turns start (err (exception_group e), w)
