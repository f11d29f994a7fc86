-- ===== src/Tui/Directory.antt =====
-- A directory with the behaviour that POSIX documents of `mkdir`, `unlink`, `symlink` and `rename`, as
-- far as `_point_at` of tui/src/dinix_tui/app.py relies on it.
use dinix.Shared.{
  ℕ, zero, suc, ◌≡◌, refl, Bool, true, not, ◌&&◌, ◌==◌, Option, none, some, [], ◌∷◌, if◌then◌else◌,
  ◌⊎◌, take,
}
use dinix.Shared.Dict.{key_eq}
use dinix.Exceptions.{ok, err, file_not_found}
use dinix.Utf8.{Str}
use dinix.Tui.Interfaces.{Host}
use dinix.Tui.Text.{child}

take_nil : {A : Type 0} (k : ℕ) → take {A = A} k [] ≡ []
take_nil zero = refl
take_nil (suc k) = refl

-- The name of an entry of a directory has no slash.
abbrev pub is_entry : Str → Bool
is_entry [] = true
is_entry (c ∷ s) = not (c == b'/') && is_entry s

-- What stands under a path: a link to another path, or something else.
pub data Node : Type 0 where
  link : Str → Node
  file directory : Node

-- The runtime directory, with the entries in it, as far as `_point_at` relies on it.
pub record Directory (H : Host) (runtime : Str) : Type 1 where
  pub Exists : H.State → Type 0
  pub node : H.State → Str → Option Node
  -- making the directory leaves its entries alone
  pub makes :
      (h h' : H.State)
      → H.mkdir runtime h ≡ (ok tt, h')
      → Exists h' × ((q : Str) → is_entry q ≡ true → node h' q ≡ node h q)
  pub unlinks :
      (name target : Str) (h : H.State)
      → Exists h
      → is_entry name ≡ true
      → node h name ≡ some (link target)
      → (h' : H.State) × (H.unlink (child runtime name) h ≡ (ok tt, h'))
        × Exists h'
        × ((q : Str) → is_entry q ≡ true → node h' q ≡ (if key_eq q name then none else node h q))
  pub unlinks_none :
      (name : Str) (h : H.State)
      → Exists h
      → is_entry name ≡ true
      → node h name ≡ none
      → H.unlink (child runtime name) h ≡ (err file_not_found, h)
  pub links :
      (name target : Str) (h : H.State)
      → Exists h
      → is_entry name ≡ true
      → node h name ≡ none
      → (h' : H.State) × (H.symlink_to (child runtime name) target h ≡ (ok tt, h'))
        × Exists h'
        × ((q : Str)
            → is_entry q ≡ true
            → node h' q ≡ (if key_eq q name then some (link target) else node h q))
  -- a link is renamed over a link or over nothing, in one step
  pub renames :
      (name to target : Str) (h : H.State)
      → Exists h
      → is_entry name ≡ true
      → is_entry to ≡ true
      → node h name ≡ some (link target)
      → (node h to ≡ none) ⊎ ((old : Str) × (node h to ≡ some (link old)))
      → (h' : H.State) × (H.rename (child runtime name) (child runtime to) h ≡ (ok tt, h'))
        × ((q : Str)
            → is_entry q ≡ true
            → node h' q ≡ (
                if key_eq q to
                then some (link target)
                else if key_eq q name
                then none
                else node h q))
