-- ===== src/Shared/Dict.antt =====
-- A Python `dict` whose keys are texts or byte strings: an association list in insertion order.
use mathlib.Core.Bool.{◌&&◌}
use dinix.Shared.Tests.{◌==◌, if◌then◌else◌}
use Prim.Native.Nat.{ℕ}
use mathlib.Core.Path.{◌≡◌, refl}
use mathlib.Core.Logic.{◌↔◌}
use mathlib.Core.Bool.{Bool, true, false}
use mathlib.Core.Option.{Option, none, some}
use mathlib.Core.List.{List, [], ◌∷◌}
use native.Mathlib.Omega.{arith}

abbrev pub Key : Type 0
Key = List ℕ

unfoldable pub key_eq : Key → Key → Bool
key_eq [] [] = true
key_eq (a ∷ s) (b ∷ t) = a == b && key_eq s t
key_eq _ _ = false

pub key_eq_refl : (s : Key) → key_eq s s ≡ true
unfolding key_eq
key_eq_refl [] = refl
key_eq_refl (a ∷ s) = ground (arith, key_eq_refl s)

pub eq_of_key_eq : (s t : Key) → key_eq s t ≡ true → s ≡ t
unfolding key_eq
eq_of_key_eq [] [] h = refl
eq_of_key_eq (a ∷ s) (b ∷ t) h = ground (arith, eq_of_key_eq s t)
eq_of_key_eq [] (b ∷ t) h = cc
eq_of_key_eq (a ∷ s) [] h = cc

pub key_eq_iff : (s t : Key) → (key_eq s t ≡ true) ↔ (s ≡ t)
key_eq_iff s t = (eq_of_key_eq s t, λ e. rw e (key_eq_refl t))

module _ {V : Type 0} where
  unfoldable pub lookup : Key → List (Key × V) → Option V
  lookup k [] = none
  lookup k ((j, v) ∷ d) = if key_eq j k then some v else lookup k d

  -- `d[k] = v`: an old key keeps its place.
  unfoldable pub insert : Key → V → List (Key × V) → List (Key × V)
  insert k v [] = (k, v) ∷ []
  insert k v ((j, w) ∷ d) = if key_eq j k then (j, v) ∷ d else (j, w) ∷ insert k v d

  pub lookup-insert :
      (k j : Key) (v : V) (d : List (Key × V))
      → lookup j (insert k v d) ≡ (if key_eq k j then some v else lookup j d)
  unfolding lookup insert
  lookup-insert k j v [] = refl
  lookup-insert k j v ((i, w) ∷ d) =
      ground (arith, key_eq_iff k j, key_eq_iff i k, key_eq_iff i j, lookup-insert k j v d)
