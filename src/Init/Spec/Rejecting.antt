-- ===== src/Init/Spec/Rejecting.antt =====
-- `parse_with` (dinix-init/src/spec.rs) on a spec with a line that is no step.
use dinix.Shared.{
  ℕ, ◌+◌, ◌≡◌, ap, ◌∙◌, true, false, Option, none, some, List, [], ◌∷◌, ◌++◌, All, length, arith,
  inl, inr, ◌⊎◌, ◌==◌, append-nil,
}
use dinix.Utf8.{Str}
use dinix.Init.Outcome.{ok, err}
use dinix.Init.Expand.{Alphabet, all}
use dinix.Init.Expand.Names.{all-cons}
use dinix.Init.Spec.{
  Step, Message, lines, split_tab, is_skipped, parse_fields, parse_lines, parse_with,
}
use dinix.Init.Spec.Lines.{
  line_char, not_newline, lines-line, trim_end-line, line-not_newline, not-true,
}
use dinix.Init.Spec.RoundTrip.{decided, parse_lines-cons, line-round}

-- Lines that each end with a line feed, in front of a text.
abbrev pub ended : List Str → Str → Str
ended [] text = text
ended (line ∷ before) text = line ++ (10 ∷ ended before text)

-- What stands behind the line: the end of the text, or a line feed and more.
abbrev pub tail : Option Str → Str
tail none = []
tail (some rest) = 10 ∷ rest

abbrev lines_behind : Option Str → List Str
lines_behind none = []
lines_behind (some rest) = lines rest

alone : (c : ℕ) (s : Str) → all not_newline (c ∷ s) ≡ true → lines (c ∷ s) ≡ (c ∷ s) ∷ []
unfolding lines
alone c [] h = let (hc, hs) = all-cons not_newline c [] h in rw (not-true (c == 10) hc)
alone c (d ∷ s) h =
    let (hc, hs) = all-cons not_newline c (d ∷ s) h in
    rw (not-true (c == 10) hc) (rw (alone d s hs))

not_skipped-lines :
    (line : Str) (more : Option Str)
    → all not_newline line ≡ true
    → is_skipped line ≡ false
    → lines (line ++ tail more) ≡ line ∷ lines_behind more
not_skipped-lines line (some rest) h step = lines-line line rest h
not_skipped-lines [] none h step = absurd (unfold is_skipped in cc)
not_skipped-lines (c ∷ s) none h step = rw (append-nil s) (alone c s h)

module _ (alphabet : Alphabet) (lookup : Str → Option Str) where
  -- A line that is passed over or is a step, as the spec has it, before anything is expanded.
  abbrev pub IsGood : Str → Type 0
  IsGood line =
      (all line_char line ≡ true)
      × ((is_skipped line ≡ true)
          ⊎ ((is_skipped line ≡ false)
              × ((step : Step) × (parse_fields alphabet lookup (split_tab line) ≡ ok step))))

  -- The loop behind a good line.
  good-round :
      (index : ℕ) (steps : List Step) (line : Str) (raws : List Str)
      → IsGood line
      → (steps' : List Step) × (parse_lines alphabet lookup index steps (line ∷ raws)
          ≡ parse_lines alphabet lookup (index + 1) steps' raws)
  good-round index steps line raws (h, inl skipped) = (
    steps,
    parse_lines-cons alphabet lookup index steps line raws
        ∙ ap (λ t. decided alphabet lookup index steps raws t (is_skipped t)) (trim_end-line line h)
        ∙ ap (decided alphabet lookup index steps raws line) skipped,
  )
  good-round index steps line raws (h, inr (taken, (step, e))) =
      (steps ++ (step ∷ []), line-round alphabet lookup index steps line raws h taken ∙ rw e)

  good_lines-round :
      (before : List Str) (index : ℕ) (steps : List Step) (text : Str)
      → All IsGood before
      → (steps' : List Step) × (parse_lines alphabet lookup index steps (lines (ended before text))
          ≡ parse_lines alphabet lookup (index + length before) steps' (lines text))
  good_lines-round [] index steps text h =
      (steps, ap (λ n. parse_lines alphabet lookup n steps (lines text)) (omega arith))
  good_lines-round (line ∷ before) index steps text (good, h) =
      let (steps1, e1) = good-round index steps line (lines (ended before text)) good in
      let (steps2, e2) = good_lines-round before (index + 1) steps1 text h in
      (
        steps2,
        ap (parse_lines alphabet lookup index steps)
              (lines-line line (ended before text) (line-not_newline line good.0))
            ∙ e1
            ∙ e2
            ∙ ap (λ n. parse_lines alphabet lookup n steps2 (lines text)) (omega arith),
      )

  -- If a spec consists of lines that are each passed over or a step, with a line feed behind each,
  -- of a line that is neither, and of nothing else or a line feed and any text, where these lines
  -- have no line feed or carriage return in them, it is refused with the message of the line that
  -- is no step and with its number, counted from 1 over all the lines.
  pub parse_with-fails :
      (before : List Str) (line : Str) (more : Option Str) (message : Message)
      → All IsGood before
      → all line_char line ≡ true
      → is_skipped line ≡ false
      → parse_fields alphabet lookup (split_tab line) ≡ err message
      → parse_with alphabet lookup (ended before (line ++ tail more))
        ≡ err (record { line_number = length before + 1; message = message })
  unfolding parse_with
  parse_with-fails before line more message h hl step e =
      let (steps, behind) = good_lines-round before 0 [] (line ++ tail more) h in
      behind
      ∙ ap (parse_lines alphabet lookup (0 + length before) steps)
          (not_skipped-lines line more (line-not_newline line hl) step)
      ∙ line-round alphabet lookup (0 + length before) steps line (lines_behind more) hl step
      ∙ rw e (ap (λ n. err (record { line_number = n + 1; message = message })) (omega arith))
