-- ===== src/Init/Spec/RoundTrip.antt =====
-- `parse_with` (dinix-init/src/spec.rs) on a whole spec.
use dinix.Shared.{
  ℕ, ◌+◌, ◌≡◌, refl, ap, ◌∙◌, Bool, true, false, Option, List, [], ◌∷◌, ◌++◌, All, length,
  append_assoc, append-nil, arith,
}
use dinix.Shared.Dict.{key_eq}
use dinix.Utf8.{Str}
use dinix.Init.Outcome.{Outcome, ok}
use dinix.Init.Expand.{Alphabet, all}
use dinix.Init.Expand.Names.{IsAscii}
use dinix.Init.Spec.{
  Kind, Step, must_exist, ParseError, dir_word, must_exist_word, lines, trim_end, unless_return,
  split_tab, is_skipped, dir_step, must_exist_step, parse_fields, with_step, parse_lines,
  parse_with,
}
use dinix.Init.Spec.Numbers.{number}
use dinix.Init.Spec.Lines.{
  line_char, IsField, not_newline, lines-line, trim_end-line, split_tab-join, join-line,
  line-not_newline,
}
use dinix.Init.Spec.Items.{
  Digits, all_digits, Item, blank, comment, dir_line, exist_line, dir_fields, exist_fields, line_of,
  owner, steps_of, all_steps, spec_text, IsPath, IsItem,
}
use dinix.Init.Spec.Reads.{
  digits-IsField, owner-IsField, kind-IsField, escape-IsField, parse_path-escape, number-fits,
  parse_id-owner, parse_kind-text,
}

-- The word that a line begins with, and its other fields.
dir-fields :
    (path : Str) (mode : Digits) (uid gid : Option Digits)
    → IsItem (dir_line path mode uid gid)
    → All IsField (dir_fields path mode uid gid)
dir-fields path mode uid gid ((h, hp), (hm, fits), hu, hg) = (
  escape-IsField path hp,
  (
    digits-IsField 8 (all_digits mode) (omega arith) hm,
    (owner-IsField uid hu, (owner-IsField gid hg, tt)),
  ),
)

exist-fields : (path : Str) (kind : Kind) → IsPath path → All IsField (exist_fields path kind)
exist-fields path kind (h, hp) = (escape-IsField path hp, (kind-IsField kind, tt))

line_of-not_newline : (i : Item) → IsItem i → all not_newline (line_of i) ≡ true
unfolding all
line_of-not_newline blank h = refl
line_of-not_newline (comment s) h = h
line_of-not_newline (dir_line path mode uid gid) h =
    line-not_newline (line_of (dir_line path mode uid gid))
      (join-line dir_word (dir_fields path mode uid gid) refl (dir-fields path mode uid gid h))
line_of-not_newline (exist_line path kind) h =
    line-not_newline (line_of (exist_line path kind))
      (join-line must_exist_word (exist_fields path kind) refl (exist-fields path kind h))

comment-skipped : (t : Str) → is_skipped (unless_return b'#' t) ≡ true
unfolding is_skipped
comment-skipped [] = refl
comment-skipped (c ∷ t) = refl

comment-trimmed : (s : Str) → is_skipped (trim_end (b'#' ∷ s)) ≡ true
unfolding trim_end
comment-trimmed s = comment-skipped (trim_end s)

module _ (alphabet : Alphabet) (lookup : Str → Option Str) where
  -- One round of the loop, on a line that is trimmed and is passed over or not.
  abbrev pub decided : ℕ → List Step → List Str → Str → Bool → Outcome ParseError (List Step)
  decided index steps raws line true = parse_lines alphabet lookup (index + 1) steps raws
  decided index steps raws line false =
      with_step alphabet lookup index steps (λ ss. parse_lines alphabet lookup (index + 1) ss raws)
        (parse_fields alphabet lookup (split_tab line))

  pub parse_lines-cons :
      (index : ℕ) (steps : List Step) (raw : Str) (raws : List Str)
      → parse_lines alphabet lookup index steps (raw ∷ raws)
        ≡ decided index steps raws (trim_end raw) (is_skipped (trim_end raw))
  unfolding parse_lines
  parse_lines-cons index steps raw raws = refl

  -- A line that is trimmed already, which is a step or not.
  pub line-round :
      (index : ℕ) (steps : List Step) (line : Str) (raws : List Str)
      → all line_char line ≡ true
      → is_skipped line ≡ false
      → parse_lines alphabet lookup index steps (line ∷ raws)
        ≡ with_step alphabet lookup index steps
            (λ ss. parse_lines alphabet lookup (index + 1) ss raws)
            (parse_fields alphabet lookup (split_tab line))
  line-round index steps line raws h step =
      parse_lines-cons index steps line raws
      ∙ ap (λ t. decided index steps raws t (is_skipped t)) (trim_end-line line h)
      ∙ ap (decided index steps raws line) step

module _ (alphabet : Alphabet) (ascii : IsAscii alphabet) (lookup : Str → Option Str) where
  dir-parsed :
      (path : Str) (mode : Digits) (uid gid : Option Digits)
      → IsItem (dir_line path mode uid gid)
      → parse_fields alphabet lookup (split_tab (line_of (dir_line path mode uid gid)))
        ≡ ok (Step.dir path (number 8 (all_digits mode)) (owner uid) (owner gid))
  unfolding parse_fields dir_step key_eq
  dir-parsed path mode uid gid h =
      let (hp, hm, hu, hg) = h in
      rw
        (split_tab-join dir_word (dir_fields path mode uid gid) (unfold all in refl)
          (dir-fields path mode uid gid h))
        (rw (parse_path-escape alphabet ascii lookup path hp)
          (rw (number-fits 8 mode hm) (rw (parse_id-owner uid hu) (rw (parse_id-owner gid hg)))))

  exist-parsed :
      (path : Str) (kind : Kind)
      → IsPath path
      → parse_fields alphabet lookup (split_tab (line_of (exist_line path kind)))
        ≡ ok (must_exist path kind)
  unfolding parse_fields must_exist_step key_eq
  exist-parsed path kind h =
      rw
        (split_tab-join must_exist_word (exist_fields path kind) (unfold all in refl)
          (exist-fields path kind h))
        (rw (parse_path-escape alphabet ascii lookup path h) (rw (parse_kind-text kind)))

  item-round :
      (i : Item) (index : ℕ) (steps : List Step) (raws : List Str)
      → IsItem i
      → parse_lines alphabet lookup index steps (line_of i ∷ raws)
        ≡ parse_lines alphabet lookup (index + 1) (steps ++ steps_of i) raws
  item-round blank index steps raws h =
      unfold parse_lines trim_end is_skipped in rw (append-nil steps)
  item-round (comment s) index steps raws h =
      parse_lines-cons alphabet lookup index steps (b'#' ∷ s) raws
      ∙ ap (decided alphabet lookup index steps raws (trim_end (b'#' ∷ s))) (comment-trimmed s)
      ∙ rw (append-nil steps)
  item-round (dir_line path mode uid gid) index steps raws h =
      line-round alphabet lookup index steps (line_of (dir_line path mode uid gid)) raws
        (join-line dir_word (dir_fields path mode uid gid) (unfold all in refl)
          (dir-fields path mode uid gid h))
        (unfold is_skipped in refl)
      ∙ rw (dir-parsed path mode uid gid h)
  item-round (exist_line path kind) index steps raws h =
      line-round alphabet lookup index steps (line_of (exist_line path kind)) raws
        (join-line must_exist_word (exist_fields path kind) (unfold all in refl)
          (exist-fields path kind h))
        (unfold is_skipped in refl)
      ∙ rw (exist-parsed path kind h)

  items-round :
      (is : List Item) (index : ℕ) (steps : List Step) (rest : Str)
      → All IsItem is
      → parse_lines alphabet lookup index steps (lines (spec_text is rest))
        ≡ parse_lines alphabet lookup (index + length is) (steps ++ all_steps is) (lines rest)
  items-round [] index steps rest h =
      let e : index + length {A = Item} [] ≡ index = omega arith in rw e (rw (append-nil steps))
  items-round (i ∷ is) index steps rest (hi, h) =
      rw (lines-line (line_of i) (spec_text is rest) (line_of-not_newline i hi)) (
        item-round i index steps (lines (spec_text is rest)) hi
        ∙ items-round is (index + 1) (steps ++ steps_of i) rest h
        ∙ ap (λ ss. parse_lines alphabet lookup (index + 1 + length is) ss (lines rest))
            (append_assoc steps (steps_of i) (all_steps is))
        ∙ ap
            (λ n.
              parse_lines alphabet lookup n (steps ++ (steps_of i ++ all_steps is)) (lines rest))
            (omega arith))

  -- A spec of comments, blank lines and steps is read back as its steps in order, if every comment
  -- has no line feed, every path is not empty and has no tab, line feed or carriage return, and is
  -- written with each `$` doubled, and every mode in octal digits and every owner in decimal
  -- digits, also with leading zeros, fits 32 bits.
  pub parse_with-items :
      (is : List Item)
      → All IsItem is
      → parse_with alphabet lookup (spec_text is []) ≡ ok (all_steps is)
  unfolding parse_with lines parse_lines
  parse_with-items is h = items-round is 0 [] [] h
