-- ===== src/Tui/Table.antt =====
-- The table that the calls of tui/src/dinix_tui/app.py build up, on textual's documentation of
-- `DataTable`: `add_row` raises `DuplicateKey` for a key that is there, `update_cell` raises
-- `CellDoesNotExist` for one that is not.
use dinix.Shared.{
  ◌≡◌, refl, ap, ◌∙◌, true, false, Option, none, some, List, [], ◌∷◌, ◌++◌, arith, if◌then◌else◌,
  Bool-cases, inl, inr,
}
use mathlib.Core.Path.{fun_ext}
use dinix.Shared.Dict.{insert, key_eq}
use dinix.Utf8.{Str}
use dinix.Protocol.Records.{ServiceStatus}
use dinix.Tui.State.{
  Cells, Cell, icon_cell, service_cell, state_cell, pid_cell, Output, add_row, update_cell, log,
  notify, App, cells_of, state_icon, state_name, contains, add, row_calls, set_row,
}

abbrev pub Rows : Type 0
Rows = List (Str × Cells)

abbrev pub keys : Rows → List Str
keys [] = []
keys ((k, c) ∷ rows) = k ∷ keys rows

abbrev pub set_cell : Cell → Cells → Cells
set_cell (icon_cell v) c = record c { icon = v }
set_cell (service_cell v) c = record c { service = v }
set_cell (state_cell v) c = record c { state = v }
set_cell (pid_cell v) c = record c { pid = v }

-- The row under a key, changed.
unfoldable pub alter : Str → (Cells → Cells) → Rows → Rows
alter k f [] = []
alter k f ((j, c) ∷ rows) = if key_eq j k then (j, f c) ∷ rows else (j, c) ∷ alter k f rows

-- One call, `none` where it raises.
unfoldable pub call : Output → Rows → Option Rows
unfolding contains alter
call (add_row k c) rows = if contains (keys rows) k then none else some (rows ++ ((k, c) ∷ []))
call (update_cell k cell) rows =
    if contains (keys rows) k then some (alter k (set_cell cell) rows) else none
call (log line) rows = some rows
call (notify notice) rows = some rows

abbrev pub then_replay : (Rows → Option Rows) → Option Rows → Option Rows
then_replay f none = none
then_replay f (some rows) = f rows

unfoldable pub replay : List Output → Rows → Option Rows
unfolding call
replay [] rows = some rows
replay (o ∷ os) rows = then_replay (replay os) (call o rows)

then_replay_assoc :
    (f g : Rows → Option Rows) (r : Option Rows)
    → then_replay (λ rows. then_replay f (g rows)) r ≡ then_replay f (then_replay g r)
then_replay_assoc f g none = refl
then_replay_assoc f g (some rows) = refl

pub replay-append :
    (os ps : List Output) (rows : Rows)
    → replay (os ++ ps) rows ≡ then_replay (replay ps) (replay os rows)
unfolding replay
replay-append [] ps rows = refl
replay-append (o ∷ os) ps rows =
    ap (λ (f : Rows → Option Rows). then_replay f (call o rows)) (fun_ext (replay-append os ps))
    ∙ then_replay_assoc (replay ps) (replay os) (call o rows)

keys-alter : (k : Str) (f : Cells → Cells) (rows : Rows) → keys (alter k f rows) ≡ keys rows
unfolding alter
keys-alter k f [] = refl
keys-alter k f ((j, c) ∷ rows) = ground (arith, keys-alter k f rows)

alter-alter :
    (k : Str) (f g : Cells → Cells) (rows : Rows)
    → alter k f (alter k g rows) ≡ alter k (λ c. f (g c)) rows
unfolding alter
alter-alter k f g [] = refl
alter-alter k f g ((j, c) ∷ rows) = elim (Bool-cases (key_eq j k)) [
  | inl same ↦ rw (same, alter, same)
  | inr differs ↦
      rw (differs, alter, differs) (ap (λ (r : Rows). (j, c) ∷ r) (alter-alter k f g rows))
]

alter-insert :
    (k : Str) (c : Cells) (rows : Rows)
    → contains (keys rows) k ≡ true
    → alter k (λ old. c) rows ≡ insert k c rows
unfolding alter insert contains
alter-insert k c [] h = cc
alter-insert k c ((j, old) ∷ rows) h = ground (arith, alter-insert k c rows)

append-insert :
    (k : Str) (c : Cells) (rows : Rows)
    → contains (keys rows) k ≡ false
    → rows ++ ((k, c) ∷ []) ≡ insert k c rows
unfolding insert contains
append-insert k c [] h = refl
append-insert k c ((j, old) ∷ rows) h = ground (arith, append-insert k c rows)

-- The keys behind an insertion are those of the set, with the new one.
keys-insert : (k : Str) (c : Cells) (rows : Rows) → keys (insert k c rows) ≡ add k (keys rows)
unfolding insert add contains
keys-insert k c [] = refl
keys-insert k c ((j, old) ∷ rows) = ground (arith, keys-insert k c rows)

-- The table shows `rows`: the calls so far all succeed and leave them, and their keys are `known`.
pub record Shows (app : App) (rows : Rows) : Type 0 where
  pub replayed : replay app.screen [] ≡ some rows
  pub keyed : keys rows ≡ app.known

-- An update of a key that is there.
replay-update :
    (k : Str) (cell : Cell) (os : List Output) (rows : Rows)
    → contains (keys rows) k ≡ true
    → replay (update_cell k cell ∷ os) rows ≡ replay os (alter k (set_cell cell) rows)
unfolding replay call
replay-update k cell os rows h = rw h

there_still :
    (k : Str) (f : Cells → Cells) (rows : Rows)
    → contains (keys rows) k ≡ true
    → contains (keys (alter k f rows)) k ≡ true
there_still k f rows h = rw (keys-alter k f rows) h

-- The updates of all four cells put the new row in place of the old one.
row_calls-there :
    (k : Str) (c : Cells) (rows : Rows)
    → contains (keys rows) k ≡ true
    → replay (row_calls true k c) rows ≡ some (insert k c rows)
row_calls-there k c rows h =
    let set = λ (cell : Cell). alter k (set_cell cell) in
    let r1 = set (icon_cell c.icon) rows in
    let r2 = set (service_cell c.service) r1 in
    let r3 = set (state_cell c.state) r2 in
    let h1 = there_still k (set_cell (icon_cell c.icon)) rows h in
    let h2 = there_still k (set_cell (service_cell c.service)) r1 h1 in
    let h3 = there_still k (set_cell (state_cell c.state)) r2 h2 in
    replay-update k (icon_cell c.icon) _ rows h
    ∙ replay-update k (service_cell c.service) _ r1 h1
    ∙ replay-update k (state_cell c.state) _ r2 h2
    ∙ replay-update k (pid_cell c.pid) _ r3 h3
    ∙ unfold replay in
      ap some (
        ap (alter k (set_cell (pid_cell c.pid))) (
          ap (alter k (set_cell (state_cell c.state)))
            (alter-alter k (set_cell (service_cell c.service)) (set_cell (icon_cell c.icon)) rows)
          ∙ alter-alter k (set_cell (state_cell c.state)) _ rows)
        ∙ alter-alter k (set_cell (pid_cell c.pid)) _ rows
        ∙ alter-insert k c rows h)

row_calls-new :
    (k : Str) (c : Cells) (rows : Rows)
    → contains (keys rows) k ≡ false
    → replay (row_calls false k c) rows ≡ some (insert k c rows)
unfolding replay call
row_calls-new k c rows h = rw h (ap some (append-insert k c rows h))

row_calls-replay :
    (k : Str) (c : Cells) (rows : Rows)
    → replay (row_calls (contains (keys rows) k) k c) rows ≡ some (insert k c rows)
row_calls-replay k c rows = elim (Bool-cases (contains (keys rows) k)) [
  | inl there ↦ rw there (row_calls-there k c rows there)
  | inr new ↦ rw new (row_calls-new k c rows new)
]

-- If the calls on the table so far have all succeeded and have left rows whose keys are `_known`,
-- the calls of `_set_row` succeed as well; the row under the name then has the icon of the state,
-- the name, the name of the state and the process id of the status, in its old place or behind the
-- others, every other row is as it was, and the keys are `_known` again.
pub set_row-Shows :
    (name : Str) (status : ServiceStatus) (app : App) (rows : Rows)
    → Shows app rows
    → Shows (set_row name status app) (
        insert name
          (record {
            icon = state_icon status.state;
            service = name;
            state = state_name status.state;
            pid = status.pid;
          })
          rows)
unfolding set_row
set_row-Shows name status app rows h = record {
  replayed =
      replay-append app.screen _ []
      ∙ rw (h.replayed, ← h.keyed) (row_calls-replay name (cells_of name status) rows);
  keyed = keys-insert name (cells_of name status) rows ∙ rw h.keyed;
}
