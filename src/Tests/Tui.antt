-- ===== src/Tests/Tui.antt =====
-- The worker of tui/src/dinix_tui/app.py at concrete inputs.
use dinix.Shared.{◌≡◌, refl, true, false, none, some, [], ◌∷◌, arith, inr, ◌⊎◌, take, if◌then◌else◌}
use dinix.Shared.Int.{pos}
use dinix.Shared.Dict.{insert, key_eq}
use dinix.Exceptions.{ok, err}
use dinix.Utf8.{Str}
use dinix.Tui.State.{App, state_icon, state_name, set_row, start, stop, nix_reload}
use dinix.Tui.Interfaces.{Process, World, on_host}
use dinix.Tui.Table.{replay, Shows, set_row-Shows}
use dinix.Tui.Keys.{command}
use dinix.Tui.Act.{for_each}
use dinix.Tui.Sound.{IsSound}
use dinix.Tui.Session.{react, Reach, here, next, on_input, on_command, press, Reach-IsSound}
use dinix.Tui.Worker.{consume_commands}
use dinix.Tui.Directory.{link, is_entry}
use dinix.Tui.Pointer.{point_steps-adopts, point_steps-IsAtomic}
use dinix.Tui.Reload
use dinix.Tui.Chunks.{whole, run_command-splits}
use dinix.Tui.Text.{splitlines, is_space}
use dinix.Tui.Reload.{
  run_command, run_steps, point_steps, pointer_name, temporary_name, reload_each, rebuild,
  build_result, nonblank,
}
use dinix.Tui.Rejecting.{Unusable, Spared, announced, nix_reload-rejects, complaint}
use dinix.Tests.Machine.{db, up_status, noting, memory, memory_Directory, runtime, Files}

abbrev pub empty_app : App
empty_app = record {
  nix_command = some [];
  runtime_dir = none;
  selected = none;
  following = none;
  known = [];
  handle_names = [];
  queue = command start (some db) ∷ command nix_reload none ∷ [];
  screen = [];
}

-- The command prints "a" and a line feed, and then "b".
abbrev pub printing : Process
printing = record { stdout = (97 ∷ 10 ∷ []) ∷ (98 ∷ []) ∷ []; stderr = []; code = pos 0 }

-- It prints "a", and then "b".
abbrev splitting : Process
splitting = record { stdout = (97 ∷ []) ∷ (98 ∷ []) ∷ []; stderr = []; code = pos 0 }

abbrev pub no_files : Files
no_files path = none

abbrev pub world : World noting (memory printing)
world = record { app = empty_app; dinit = []; host = no_files }

abbrev split_world : World noting (memory splitting)
split_world = record { app = empty_app; dinit = []; host = no_files }

empty-Shows : Shows empty_app []
unfolding replay
empty-Shows = record { replayed = refl; keyed = refl }

set_row-Shows_example : Shows (set_row db up_status empty_app) (
    insert db
      (record {
        icon = state_icon up_status.state;
        service = db;
        state = state_name up_status.state;
        pid = up_status.pid;
      })
      [])
set_row-Shows_example = set_row-Shows db up_status empty_app [] empty-Shows

empty-IsSound : IsSound empty_app
empty-IsSound = record { rows = []; shows = empty-Shows; bounded = omega arith }

-- A key, and a command.
abbrev pressed : World noting (memory printing)
pressed = record world { app = react false (press stop (some db)) empty_app }

world-Reach : Reach noting (memory printing) world (consume_commands 1 pressed).1
world-Reach = next (next here (on_input world false (press stop (some db)))) (on_command pressed)

Reach-IsSound_example : IsSound (consume_commands 1 pressed).1.app
Reach-IsSound_example = Reach-IsSound world _ world-Reach empty-IsSound

-- The build "b", which has no directory of services.
no_services : Unusable (rebuild {D = noting} {H = memory printing} (announced world))
unfolding rebuild run_command on_host for_each
no_services = refl

nix_reload-rejects_example :
    (Reload.nix_reload {D = noting} {H = memory printing} true world
      ≡ (err (complaint (rebuild (announced world)).0), (rebuild (announced world)).1))
    × Spared world (Reload.nix_reload {D = noting} {H = memory printing} true world).1
nix_reload-rejects_example = nix_reload-rejects true world no_services

-- The pointer is an old link, and there is a temporary one from before.
abbrev pointed : Files
pointed path = some (link (111 ∷ []))

point_steps-adopts_example :
    (h' : Files) × (run_steps (memory printing) (point_steps (memory printing) runtime db) pointed
      ≡ (ok tt, h'))
    × ((q : Str)
        → is_entry q ≡ true
        → (memory_Directory printing).node h' q ≡ (
            if key_eq q pointer_name
            then some (link db)
            else if key_eq q temporary_name
            then none
            else (memory_Directory printing).node pointed q))
unfolding memory_Directory
point_steps-adopts_example =
    point_steps-adopts (memory printing) runtime (memory_Directory printing) db pointed pointed refl
      (inr (111 ∷ [], refl)) (inr (111 ∷ [], refl))

point_steps-IsAtomic_example :
    (h' : Files) × (run_steps
        (memory printing)
        (take 3 (point_steps (memory printing) runtime db))
        pointed
      ≡ (ok tt, h'))
    × (((memory_Directory printing).node h' pointer_name
          ≡ (memory_Directory printing).node pointed pointer_name)
        ⊎ ((memory_Directory printing).node h' pointer_name ≡ some (link db)))
unfolding memory_Directory
point_steps-IsAtomic_example =
    point_steps-IsAtomic (memory printing) runtime (memory_Directory printing) db pointed pointed
      refl (inr (111 ∷ [], refl)) (inr (111 ∷ [], refl)) 3

run_command-splits_example :
    ((run_command {D = noting} {H = memory splitting} [] split_world).0 ≡ ok (98 ∷ []))
    × (build_result (pos 0) (nonblank (splitlines (whole (memory splitting) splitting.stdout)))
        ≡ ok (97 ∷ 98 ∷ []))
unfolding is_space
run_command-splits_example =
    run_command-splits {D = noting} [] split_world no_files [] (97 ∷ []) (98 ∷ []) 97 98 [] [] refl
      refl refl (refl, tt) (refl, tt)

-- The same output, with a failure.
abbrev failing : Process
failing = record printing { code = pos 1 }

abbrev failing_world : World noting (memory failing)
failing_world = record { app = empty_app; dinit = []; host = no_files }
