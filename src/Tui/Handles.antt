-- ===== src/Tui/Handles.antt =====
-- `_handle_names` of tui/src/dinix_tui/app.py: a `dict` from handles to names.
use dinix.Shared.{ℕ, ◌≡◌, refl, arith, Option, none, some, List, [], ◌∷◌, ◌==◌, if◌then◌else◌}
use dinix.Utf8.{Str}
use dinix.Tui.State.{add}

-- `names.get(handle)`
unfoldable pub name_of : ℕ → List (ℕ × Str) → Option Str
name_of h [] = none
name_of h ((k, n) ∷ names) = if k == h then some n else name_of h names

-- `names[handle] = name`: an old key keeps its place.
unfoldable pub assign : ℕ → Str → List (ℕ × Str) → List (ℕ × Str)
assign h name [] = (h, name) ∷ []
assign h name ((k, n) ∷ names) = if k == h then (k, name) ∷ names else (k, n) ∷ assign h name names

-- `set(names.values())`
unfoldable pub values : List (ℕ × Str) → List Str
unfolding add
values [] = []
values ((k, n) ∷ names) = add n (values names)

pub name_of-assign :
    (h k : ℕ) (name : Str) (names : List (ℕ × Str))
    → name_of k (assign h name names) ≡ (if h == k then some name else name_of k names)
unfolding name_of assign
name_of-assign h k name [] = refl
name_of-assign h k name ((j, n) ∷ names) = ground (arith, name_of-assign h k name names)
