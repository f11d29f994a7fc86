-- ===== src/Tui/Lines.antt =====
-- `splitlines` and `strip` as tui/src/dinix_tui/app.py uses them: on text in parts, and on words.
use dinix.Shared.{
  ℕ, ◌≡◌, refl, Bool, true, false, ◌&&◌, List, [], ◌∷◌, ◌++◌, reverse, arith, if◌then◌else◌,
  Bool-cases, inl, inr, ◌==◌,
}
use mathlib.Core.List.{reverse_aux, reverse-reverse}
use dinix.Utf8.{Str}
use dinix.Tui.Text.{is_space, is_line_end, onto_first, splitlines, lstrip, rstrip, strip}
use dinix.Tui.Reload.{nonblank, nonempty_onto}

abbrev pub newline : Str
newline = 0x0a ∷ []

-- There is a first line as soon as there is a character.
first_line : (c : ℕ) (s : Str) → (l : Str) × (ls : List Str) × (splitlines (c ∷ s) ≡ l ∷ ls)
unfolding splitlines
first_line c [] = elim (Bool-cases (is_line_end c)) [
  | inl e ↦ ([], [], rw e)
  | inr e ↦ (c ∷ [], [], rw e)
]
first_line c (d ∷ s) =
    let (l, ls, e) = first_line d s in
    elim (Bool-cases (c == 0x0d && d == 0x0a)) [
      | inl pair ↦ ([], splitlines s, rw pair)
      | inr single ↦ elim (Bool-cases (is_line_end c)) [
        | inl ends ↦ ([], splitlines (d ∷ s), rw (single, ends))
        | inr inside ↦ (c ∷ l, ls, rw (single, inside, e))
      ]
    ]

onto_first-append :
    (c d : ℕ) (s : Str) (ls : List Str)
    → onto_first c (splitlines (d ∷ s) ++ ls) ≡ onto_first c (splitlines (d ∷ s)) ++ ls
onto_first-append c d s ls = let (l, more, e) = first_line d s in rw e

after_newline : (t : Str) → splitlines (0x0a ∷ t) ≡ [] ∷ splitlines t
unfolding splitlines is_line_end
after_newline [] = refl
after_newline (d ∷ t) = refl

choose-append :
    (p q : Bool) (a b o o' z : List Str)
    → o' ≡ o ++ z
    → (if p then a ++ z else if q then b ++ z else o') ≡ (if p then a else if q then b else o) ++ z
choose-append true q a b o o' z e = refl
choose-append false true a b o o' z e = refl
choose-append false false a b o o' z e = e

-- Text behind a line feed is taken apart by itself.
pub splitlines-append :
    (s t : Str) → splitlines ((s ++ newline) ++ t) ≡ splitlines (s ++ newline) ++ splitlines t
unfolding splitlines
splitlines-append [] t = after_newline t
splitlines-append (c ∷ []) t = rw (after_newline t) (
    choose-append (c == 0x0d && true) (is_line_end c) ([] ∷ []) ([] ∷ [] ∷ []) _ _ (splitlines t)
      refl)
splitlines-append (c ∷ d ∷ s) t =
    rw (splitlines-append (d ∷ s) t, splitlines-append s t)
      (choose-append (c == 0x0d && d == 0x0a) (is_line_end c) ([] ∷ splitlines (s ++ newline))
        ([] ∷ splitlines (d ∷ (s ++ newline))) _ _ (splitlines t)
        (onto_first-append c d (s ++ newline) (splitlines t)))

onto-append : (s : Str) (ls ms : List Str) → nonempty_onto s (ls ++ ms) ≡ nonempty_onto s ls ++ ms
onto-append [] ls ms = refl
onto-append (c ∷ s) ls ms = refl

pub nonblank-append : (ls ms : List Str) → nonblank (ls ++ ms) ≡ nonblank ls ++ nonblank ms
unfolding nonblank
nonblank-append [] ms = refl
nonblank-append (l ∷ ls) ms =
    rw (nonblank-append ls ms) (onto-append (strip l) (nonblank ls) (nonblank ms))

-- A text of characters that are not spaces, such as a path of the nix store.
abbrev pub IsWord : Str → Type 0
IsWord [] = Unit {0}
IsWord (c ∷ s) = (is_space c ≡ false) × IsWord s

pub IsWord-append : (s t : Str) → IsWord s → IsWord t → IsWord (s ++ t)
IsWord-append [] t ws wt = wt
IsWord-append (c ∷ s) t (h, ws) wt = (h, IsWord-append s t ws wt)

reverse_onto-IsWord : (s t : Str) → IsWord s → IsWord t → IsWord (reverse_aux s t)
reverse_onto-IsWord [] t ws wt = wt
reverse_onto-IsWord (c ∷ s) t (h, ws) wt = reverse_onto-IsWord s (c ∷ t) ws (h, wt)

-- The characters that end a line are spaces.
line_end-space : (c : ℕ) → is_space c ≡ false → is_line_end c ≡ false
unfolding is_space is_line_end
line_end-space c h = ground arith

not_line_feed : (c : ℕ) → is_space c ≡ false → c == 0x0a ≡ false
unfolding is_space
not_line_feed c h = ground arith

lstrip-IsWord : (s : Str) → IsWord s → lstrip s ≡ s
unfolding lstrip
lstrip-IsWord [] w = refl
lstrip-IsWord (c ∷ s) (h, w) = rw h

pair_false : (a b : Bool) → b ≡ false → (a && b) ≡ false
pair_false true b h = h
pair_false false b h = refl

pub strip-IsWord : (s : Str) → IsWord s → strip s ≡ s
unfolding strip rstrip
strip-IsWord s w =
    rw (lstrip-IsWord s w, lstrip-IsWord (reverse s) (reverse_onto-IsWord s [] w tt))
      (reverse-reverse s)

pub splitlines-IsWord : (c : ℕ) (s : Str) → IsWord (c ∷ s) → splitlines (c ∷ s) ≡ (c ∷ s) ∷ []
unfolding splitlines
splitlines-IsWord c [] (h, w) = rw (line_end-space c h)
splitlines-IsWord c (d ∷ s) (h, w) =
    rw (pair_false (c == 0x0d) (d == 0x0a) (not_line_feed d w.0), line_end-space c h)
      (rw (splitlines-IsWord d s w))

-- A word is the line that is left of it.
pub nonblank-IsWord :
    (c : ℕ) (s : Str) → IsWord (c ∷ s) → nonblank (splitlines (c ∷ s)) ≡ (c ∷ s) ∷ []
unfolding nonblank
nonblank-IsWord c s w = rw (splitlines-IsWord c s w) (rw (strip-IsWord (c ∷ s) w))
