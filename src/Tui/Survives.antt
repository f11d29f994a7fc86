-- ===== src/Tui/Survives.antt =====
-- How the worker of tui/src/dinix_tui/app.py gets through its queue: a command that fails is logged,
-- and the next one is taken; an exception that no `except` clause names ends the loop.
use dinix.Shared.{
  ℕ, zero, suc, ◌≡◌, refl, List, [], ◌∷◌, ap, length, ◌≤◌, arith, ◌++◌, Bool, true, false, ◌||◌,
  Bool-cases, inl, inr,
}
use dinix.Exceptions.{Exception, Result, ok, err}
use dinix.Tui.Act.{handled, next}
use dinix.Tui.State.{set_row, command_failed, log, Command}
use dinix.Tui.Interfaces.{Dinit, Host, World, is_dinit_error, is_rebuild_error, is_os_error}
use dinix.Tui.Reload.{output}
use dinix.Tui.Worker.{run_action, taken, consume_commands, take_command, consume_command, is_caught}
use dinix.Tui.Quiet.{IsQuiet}
use dinix.Tui.Quiet.Working.{Quiet-run_action}

-- No command writes to the queue.
keeps_queue : (q : List Command) → IsQuiet (λ app. app.queue ≡ q)
unfolding set_row
keeps_queue q = record {
  logs = λ line app h. h;
  notifies = λ notice app h. h;
  rows = λ name status app h. h;
  remembers = λ names app h. h;
  unfollows = λ app h. h;
}

pub take_command-eq :
    {D : Dinit} {H : Host} (q : List Command) (w : World D H)
    → w.app.queue ≡ q
    → take_command w ≡ taken q w
unfolding take_command
take_command-eq q w e = ap (λ (r : List Command). taken r w) e

-- An exception that no `except` clause of the loop names.
pub record IsUncaught (e : Exception) : Type 0 where
  pub no_dinit_error : is_dinit_error e ≡ false
  pub no_rebuild_error : is_rebuild_error e ≡ false
  pub no_os_error : is_os_error e ≡ false

IsUncaught-is_caught : (e : Exception) → is_caught e ≡ false → IsUncaught e
IsUncaught-is_caught e h =
    let (others, os) = neither (is_dinit_error e || is_rebuild_error e) (is_os_error e) h in
    let (dinit, rebuild) = neither (is_dinit_error e) (is_rebuild_error e) others in
    record { no_dinit_error = dinit; no_rebuild_error = rebuild; no_os_error = os }
  where
    neither : (a b : Bool) → (a || b) ≡ false → (a ≡ false) × (b ≡ false)
    neither true b h = cc
    neither false b h = (refl, h)

module _ {D : Dinit} {H : Host} where
  -- The world once a command is taken, with the rest of the queue.
  abbrev pub with_queue : List Command → World D H → World D H
  with_queue q w = record w { app = record w.app { queue = q } }

  -- How a command ends, from the world that it is taken in.
  pub data CommandEnds (c : Command) (v : World D H) : Result (Unit {0}) × World D H → Type 0 where
    done : (w : World D H) → w.app.queue ≡ v.app.queue → CommandEnds c v (ok tt, w)
    raised :
        (e : Exception) (w : World D H)
        → run_action c.action c.service v ≡ (err e, w)
        → IsUncaught e
        → w.app.queue ≡ v.app.queue
        → CommandEnds c v (err e, w)

  caught-CommandEnds :
      (c : Command) (v : World D H) (r : Result (Unit {0}) × World D H)
      → run_action c.action c.service v ≡ r
      → r.1.app.queue ≡ v.app.queue
      → CommandEnds c v (handled is_caught (λ e. output (log (command_failed c.action e))) r)
  caught-CommandEnds c v (ok x, w) run q = done w q
  caught-CommandEnds c v (err e, w) run q = elim (Bool-cases (is_caught e)) [
    | inl caught ↦ rw caught (done _ q)
    | inr escapes ↦ rw escapes (raised e w run (IsUncaught-is_caught e escapes) q)
  ]

  -- A command leaves the rest of the queue, and ends or raises what no `except` clause names.
  pub consume_command-CommandEnds :
      (c : Command) (w : World D H) → CommandEnds c w (consume_command c w)
  unfolding consume_command
  consume_command-CommandEnds c w =
      caught-CommandEnds c w (run_action c.action c.service w) refl
        ((Quiet-run_action (keeps_queue w.app.queue) c.action c.service).at w refl)

  -- How the loop ends from a world whose queue is `queue`: with all the commands taken, or with an
  -- exception that no clause names, which the action of one of them raised, behind those in front
  -- of it and with those behind it still waiting.
  pub data LoopEnds (queue : List Command) (start : World D H)
      : Result (Unit {0}) × World D H → Type 0 where
    drained : (w : World D H) → w.app.queue ≡ [] → LoopEnds queue start (ok tt, w)
    escaped :
        (front : List Command) (c : Command) (behind : List Command) (v : World D H) (e : Exception)
        (w : World D H)
        → queue ≡ front ++ (c ∷ behind)
        → consume_commands (length front) start ≡ (ok tt, v)
        → v.app.queue ≡ c ∷ behind
        → run_action c.action c.service (with_queue behind v) ≡ (err e, w)
        → IsUncaught e
        → w.app.queue ≡ behind
        → LoopEnds queue start (err e, w)

  LoopEnds-cons :
      (c : Command) (q : List Command) (w v : World D H) (r : Result (Unit {0}) × World D H)
      → w.app.queue ≡ c ∷ q
      → consume_command c (with_queue q w) ≡ (ok tt, v)
      → LoopEnds q v r
      → LoopEnds (c ∷ q) w r
  unfolding consume_commands take_command
  LoopEnds-cons c q w v _ waiting consumed (drained end empty) = drained end empty
  LoopEnds-cons c q w v _ waiting consumed
        (escaped front d behind u e end split reached next_one run uncaught left) =
      escaped (c ∷ front) d behind u e end (ap (λ (cs : List Command). c ∷ cs) split)
        (rw (take_command-eq (c ∷ q) w waiting) (rw consumed reached)) next_one run uncaught left

  -- The loop behind a command.
  behind_command :
      (rounds : ℕ) (c : Command) (q : List Command) (w : World D H)
      (r : Result (Unit {0}) × World D H)
      → w.app.queue ≡ c ∷ q
      → consume_command c (with_queue q w) ≡ r
      → CommandEnds c (with_queue q w) r
      → ((v : World D H) → v.app.queue ≡ q → LoopEnds q v (consume_commands rounds v))
      → LoopEnds (c ∷ q) w (next (λ _. consume_commands rounds) r)
  unfolding consume_commands
  behind_command rounds c q w _ waiting consumed (done v left) ih =
      LoopEnds-cons c q w v (consume_commands rounds v) waiting consumed (ih v left)
  behind_command rounds c q w _ waiting consumed (raised e v run uncaught left) ih =
      escaped [] c q w e v refl refl waiting run uncaught left

  loop-LoopEnds :
      (rounds : ℕ) (q : List Command) (w : World D H)
      → w.app.queue ≡ q
      → length q ≤ rounds
      → LoopEnds q w (consume_commands rounds w)
  unfolding consume_commands take_command
  loop-LoopEnds zero [] w e few = drained w e
  loop-LoopEnds zero (c ∷ q) w e few = absurd (omega arith)
  loop-LoopEnds (suc rounds) [] w e few = rw (take_command-eq [] w e) (drained w e)
  loop-LoopEnds (suc rounds) (c ∷ q) w e few = rw (take_command-eq (c ∷ q) w e) (
      behind_command rounds c q w _ e refl (consume_command-CommandEnds c (with_queue q w))
        (λ v left. loop-LoopEnds rounds q v left (omega arith)))

  -- The loop of `_consume_commands` over the waiting commands, with a round for each, whatever the
  -- client and the host do, ends with an empty queue and no exception, or with an exception that
  -- is no `DinitError`, no `RebuildError` and no `OSError`: the action of one of the commands
  -- raised it, once those in front of it had been consumed without an exception, and those behind
  -- it still wait, in order.
  pub consume_commands-LoopEnds :
      (rounds : ℕ) (w : World D H)
      → length w.app.queue ≤ rounds
      → LoopEnds w.app.queue w (consume_commands rounds w)
  consume_commands-LoopEnds rounds w = loop-LoopEnds rounds w.app.queue w refl
