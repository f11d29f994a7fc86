-- ===== src/Init/Spec/Lines.antt =====
-- Lines and fields as `parse_with` of dinix-init/src/spec.rs cuts them out.
use dinix.Shared.{ℕ, ◌≡◌, refl, ◌∙◌, Bool, true, false, not, ◌&&◌, List, [], ◌∷◌, ◌++◌, ◌==◌, All}
use dinix.Utf8.{Str}
use dinix.Init.Expand.{all}
use dinix.Init.Expand.Names.{and-true, all-cons, all-append, all-imp}
use dinix.Init.Spec.{lines, unless_return, trim_end, split_tab}

-- A character that neither ends a line nor is trimmed, and one that does not end a field either.
abbrev pub line_char : ℕ → Bool
line_char c = not (c == 10) && not (c == 13)

abbrev pub field_char : ℕ → Bool
field_char c = not (c == 9) && line_char c

abbrev pub IsField : Str → Type 0
IsField s = all field_char s ≡ true

pub not-true : (b : Bool) → not b ≡ true → b ≡ false
not-true true h = cc
not-true false h = refl

abbrev pub not_newline : ℕ → Bool
not_newline c = not (c == 10)

pub lines-line :
    (s rest : Str) → all not_newline s ≡ true → lines (s ++ (10 ∷ rest)) ≡ s ∷ lines rest
unfolding lines
lines-line [] rest h = refl
lines-line (c ∷ s) rest h =
    let (hc, hs) = all-cons not_newline c s h in
    rw (not-true (c == 10) hc) (rw (lines-line s rest hs))

unless-return-kept : (c : ℕ) (s : Str) → (c == 13) ≡ false → unless_return c s ≡ c ∷ s
unless-return-kept c [] h = rw h
unless-return-kept c (d ∷ s) h = refl

pub trim_end-line : (s : Str) → all line_char s ≡ true → trim_end s ≡ s
unfolding trim_end
trim_end-line [] h = refl
trim_end-line (c ∷ s) h =
    let (hc, hs) = all-cons line_char c s h in
    rw (trim_end-line s hs)
      (unless-return-kept c s (not-true (c == 13) (and-true (not (c == 10)) _ hc).1))

-- Fields with tabs between them.
abbrev pub join : Str → List Str → Str
join f [] = f
join f (g ∷ gs) = f ++ (9 ∷ join g gs)

split_tab-field :
    (f rest : Str)
    → IsField f
    → split_tab (f ++ (9 ∷ rest)) ≡ (f, (split_tab rest).0 ∷ (split_tab rest).1)
unfolding split_tab
split_tab-field [] rest h = refl
split_tab-field (c ∷ f) rest h =
    let (hc, hf) = all-cons field_char c f h in
    rw (not-true (c == 9) (and-true (not (c == 9)) _ hc).0) (rw (split_tab-field f rest hf))

split_tab-last : (f : Str) → IsField f → split_tab f ≡ (f, [])
unfolding split_tab
split_tab-last [] h = refl
split_tab-last (c ∷ f) h =
    let (hc, hf) = all-cons field_char c f h in
    rw (not-true (c == 9) (and-true (not (c == 9)) _ hc).0) (rw (split_tab-last f hf))

pub split_tab-join :
    (f : Str) (gs : List Str) → IsField f → All IsField gs → split_tab (join f gs) ≡ (f, gs)
split_tab-join f [] hf h = split_tab-last f hf
split_tab-join f (g ∷ gs) hf (hg, h) =
    split_tab-field f (join g gs) hf ∙ rw (split_tab-join g gs hg h)

field-line : (s : Str) → IsField s → all line_char s ≡ true
field-line s h = all-imp field_char line_char s (λ c hc. (and-true (not (c == 9)) _ hc).1) h

pub join-line :
    (f : Str) (gs : List Str) → IsField f → All IsField gs → all line_char (join f gs) ≡ true
unfolding all
join-line f [] hf h = field-line f hf
join-line f (g ∷ gs) hf (hg, h) =
    all-append line_char f (9 ∷ join g gs) (field-line f hf) (join-line g gs hg h)

pub line-not_newline : (s : Str) → all line_char s ≡ true → all not_newline s ≡ true
line-not_newline s h = all-imp line_char not_newline s (λ c hc. (and-true (not (c == 10)) _ hc).0) h
