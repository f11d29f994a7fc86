-- ===== src/Unless.antt =====
-- dinix-unless (dinix-unless/src/main.rs), which runs a program unless a marker is there. What is printed
-- is left out.
use dinix.Shared.{
  ◌≡◌, ap, Bool, true, false, Option, none, some, List, [], ◌∷◌, ◌==◌, if◌then◌else◌,
}
use dinix.Utf8.{Str}
use dinix.Init.Apply.{ExitCode, success, failure}

-- What the program uses: whether `symlink_metadata` finds something under a path, and `exec`, with the
-- state that the program leaves when it ends, or nothing where it cannot be run.
pub record System : Type 1 where
  pub State : Type 0
  pub is_found : Str → State → Bool
  pub exec : Str → List Str → State → Option State

-- How the process ends: with a code of its own, or as the program.
pub data End (Y : System) : Type 0 where
  exits : ExitCode → Y.State → End Y
  ran : Y.State → End Y

-- `Path::is_absolute`
abbrev pub is_absolute : Str → Bool
is_absolute [] = false
is_absolute (c ∷ s) = c == b'/'

module _ (Y : System) where
  unfoldable pub already_done : Str → Y.State → Bool
  already_done marker s = Y.is_found marker s

  abbrev pub after_exec : Y.State → Option Y.State → End Y
  after_exec s none = exits failure s
  after_exec s (some s') = ran s'

  -- `main`, on the arguments behind the name of the program.
  unfoldable pub main : List Str → Y.State → End Y
  unfolding already_done
  main [] s = exits failure s
  main (marker ∷ []) s = exits failure s
  main (marker ∷ program ∷ args) s =
      if already_done marker s
      then exits success s
      else if is_absolute program
      then after_exec s (Y.exec program args s)
      else exits failure s

  -- The state that a start leaves.
  abbrev pub state_of : End Y → Y.State
  state_of (exits code s) = s
  state_of (ran s) = s

  kept-or-run :
      (s : Y.State) (o : Option Y.State) (marker : Str)
      → ((s' : Y.State) → o ≡ some s' → Y.is_found marker s' ≡ true)
      → (s' : Y.State) → after_exec s o ≡ ran s'
      → Y.is_found marker s' ≡ true
  kept-or-run s none marker leaves s' e = cc
  kept-or-run s (some t) marker leaves s' e = leaves s' (ap (λ x. some (state_of x)) e)

  started-at :
      (found absolute : Bool) (marker program : Str) (args : List Str) (s s' : Y.State)
      → ((t : Y.State) → Y.exec program args s ≡ some t → Y.is_found marker t ≡ true)
      → (if found
          then exits success s
          else if absolute
          then after_exec s (Y.exec program args s)
          else exits failure s)
        ≡ ran s'
      → Y.is_found marker s' ≡ true
  started-at true absolute marker program args s s' leaves e = cc
  started-at false true marker program args s s' leaves e =
      kept-or-run s (Y.exec program args s) marker leaves s' e
  started-at false false marker program args s s' leaves e = cc

  -- If the program, where it runs, leaves the marker behind, then once `dinix-unless` has run it,
  -- the next start with the same arguments ends with success, does not run it and leaves the state
  -- as it is.
  pub main-once :
      (marker program : Str) (args : List Str) (s s' : Y.State)
      → ((t : Y.State) → Y.exec program args s ≡ some t → Y.is_found marker t ≡ true)
      → main (marker ∷ program ∷ args) s ≡ ran s'
      → main (marker ∷ program ∷ args) s' ≡ exits success s'
  unfolding main already_done
  main-once marker program args s s' leaves e =
      let found =
        started-at (Y.is_found marker s) (is_absolute program) marker program args s s' leaves e in
      rw found
