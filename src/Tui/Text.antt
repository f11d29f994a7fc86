-- ===== src/Tui/Text.antt =====
-- The texts that tui/src/dinix_tui/app.py takes apart with `str`'s methods, in order of code points,
-- and the paths that it puts together.
use dinix.Shared.{
  ℕ, Bool, true, false, ◌||◌, ◌&&◌, Option, none, some, List, [], ◌∷◌, reverse, ltb, leb, ◌==◌,
  if◌then◌else◌,
}
use dinix.Utf8.{Str}
use dinix.Client.SocketPath.{join}
use dinix.Tui.State.{add}

-- `str.isspace` of one character, which `strip` goes by.
unfoldable pub is_space : ℕ → Bool
is_space c =
    leb 0x09 c && leb c 0x0d
    || leb 0x1c c && leb c 0x20
    || c == 0x85
    || c == 0xa0
    || c == 0x1680
    || leb 0x2000 c && leb c 0x200a
    || c == 0x2028
    || c == 0x2029
    || c == 0x202f
    || c == 0x205f
    || c == 0x3000

-- The characters that end a line for `splitlines`.
unfoldable pub is_line_end : ℕ → Bool
is_line_end c =
    leb 0x0a c && leb c 0x0d || leb 0x1c c && leb c 0x1e || c == 0x85 || c == 0x2028 || c == 0x2029

unfoldable pub lstrip : Str → Str
unfolding is_space
lstrip [] = []
lstrip (c ∷ s) = if is_space c then lstrip s else c ∷ s

unfoldable pub rstrip : Str → Str
unfolding lstrip
rstrip s = reverse (lstrip (reverse s))

unfoldable pub strip : Str → Str
unfolding lstrip rstrip
strip s = rstrip (lstrip s)

-- A character in front of the lines of the rest.
abbrev pub onto_first : ℕ → List Str → List Str
onto_first c [] = (c ∷ []) ∷ []
onto_first c (l ∷ ls) = (c ∷ l) ∷ ls

-- `splitlines()`: a carriage return with a line feed behind it is one end.
unfoldable pub splitlines : Str → List Str
unfolding is_line_end
splitlines [] = []
splitlines (c ∷ []) = if is_line_end c then [] ∷ [] else (c ∷ []) ∷ []
splitlines (c ∷ d ∷ s) =
    let rest = splitlines (d ∷ s) in
    let behind = splitlines s in
    if c == 0x0d && d == 0x0a
    then [] ∷ behind
    else if is_line_end c
    then [] ∷ rest
    else onto_first c rest

-- Texts in the order of their code points.
unfoldable pub str_le : Str → Str → Bool
str_le [] t = true
str_le (a ∷ s) [] = false
str_le (a ∷ s) (b ∷ t) = ltb a b || a == b && str_le s t

unfoldable pub insert_sorted : Str → List Str → List Str
unfolding str_le
insert_sorted s [] = s ∷ []
insert_sorted s (t ∷ ts) = if str_le s t then s ∷ t ∷ ts else t ∷ insert_sorted s ts

-- `sorted(names)`
unfoldable pub sorted : List Str → List Str
unfolding insert_sorted
sorted [] = []
sorted (s ∷ ss) = insert_sorted s (sorted ss)

-- `names.update(more)`
unfoldable pub update : List Str → List Str → List Str
unfolding add
update names [] = names
update names (s ∷ more) = update (add s names) more

-- `path / name`
unfoldable pub child : Str → Str → Str
unfolding join
child [] name = name
child (c ∷ path) name = join (c ∷ path) name

-- `items[-1]`
abbrev pub last : {A : Type 0} → List A → Option A
last [] = none
last (x ∷ []) = some x
last (x ∷ y ∷ xs) = last (y ∷ xs)
