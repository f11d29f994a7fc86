-- ===== src/Init/Spec.antt =====
-- `parse_with` of dinix-init/src/spec.rs: a spec has one step on a line, its fields separated by tabs.
-- Texts are lists of characters; the methods of Rust's `str` are written out as they are documented.
pub mod Numbers
pub mod Lines
pub mod Items
pub mod Reads
pub mod RoundTrip
pub mod Rejecting
use dinix.Shared.{
  ℕ, ◌+◌, ◌-◌, ◌*◌, ◌^◌, Bool, true, false, ◌&&◌, Option, none, some, List, [], ◌∷◌, ◌++◌, ltb, leb,
  ◌==◌, length, if◌then◌else◌,
}
use dinix.Shared.Dict.{key_eq}
use dinix.Utf8.{Str}
use dinix.Init.Outcome.{Outcome, ok, err, ◌>>=◌, map_err}
use dinix.Init.Expand.{Alphabet, ExpandError, expand}

pub data Kind : Type 0 where
  any dir file : Kind

-- A path with its mode and owners, or a path that has to be there.
pub data Step : Type 0 where
  dir : Str → ℕ → Option ℕ → Option ℕ → Step
  must_exist : Str → Kind → Step

-- The messages of `ParseError`, by what they are made of.
pub data Message : Type 0 where
  dir_takes must_exist_takes : ℕ → Message
  empty_path : Message
  bad_path : ExpandError → Message
  not_octal not_an_id unknown_kind unknown_step : Str → Message

pub record ParseError : Type 0 where
  pub line_number : ℕ
  pub message : Message

abbrev pub dir_word : Str
dir_word = b'd' ∷ b'i' ∷ b'r' ∷ []

abbrev pub must_exist_word : Str
must_exist_word = b'm' ∷ b'u' ∷ b's' ∷ b't' ∷ b'-' ∷ b'e' ∷ b'x' ∷ b'i' ∷ b's' ∷ b't' ∷ []

abbrev pub any_word : Str
any_word = b'a' ∷ b'n' ∷ b'y' ∷ []

abbrev pub file_word : Str
file_word = b'f' ∷ b'i' ∷ b'l' ∷ b'e' ∷ []

abbrev pub nobody : Str
nobody = b'-' ∷ []

-- A character in front of the first of some texts.
abbrev pub onto_first : ℕ → List Str → List Str
onto_first c [] = (c ∷ []) ∷ []
onto_first c (s ∷ ss) = (c ∷ s) ∷ ss

-- `str::lines`, but for the carriage return that it takes off a line: `trim_end` takes it off.
unfoldable pub lines : Str → List Str
lines [] = []
lines (c ∷ cs) = let rest = lines cs in if c == 10 then [] ∷ rest else onto_first c rest

abbrev pub unless_return : ℕ → Str → Str
unless_return c [] = if c == 13 then [] else c ∷ []
unless_return c (d ∷ s) = c ∷ d ∷ s

-- `trim_end_matches(['\r'])`
unfoldable pub trim_end : Str → Str
trim_end [] = []
trim_end (c ∷ cs) = unless_return c (trim_end cs)

-- `split('\t')`: the first field, and the others.
unfoldable pub split_tab : Str → Str × List Str
split_tab [] = ([], [])
split_tab (c ∷ cs) =
    let rest = split_tab cs in if c == 9 then ([], rest.0 ∷ rest.1) else (c ∷ rest.0, rest.1)

-- The digits of `u32::from_str_radix`, behind the number so far.
unfoldable pub digits : ℕ → ℕ → Str → Option ℕ
digits radix acc [] = some acc
digits radix acc (c ∷ cs) =
    let next = digits radix (acc * radix + (c - b'0')) cs in
    if leb b'0' c && ltb (c - b'0') radix
    then if ltb (acc * radix + (c - b'0')) (2 ^ 32) then next else none
    else none

-- `u32::from_str_radix`, for a radix up to ten: `None` for its errors.
unfoldable pub from_str_radix : ℕ → Str → Option ℕ
unfolding digits
from_str_radix radix [] = none
from_str_radix radix (c ∷ []) = digits radix 0 (c ∷ [])
from_str_radix radix (c ∷ d ∷ cs) =
    if c == b'+' then digits radix 0 (d ∷ cs) else digits radix 0 (c ∷ d ∷ cs)

abbrev pub ok_or : {A : Type 0} → Message → Option A → Outcome Message A
ok_or message none = err message
ok_or message (some a) = ok a

unfoldable pub parse_id : Str → Outcome Message (Option ℕ)
unfolding from_str_radix
parse_id field =
    if key_eq field nobody
    then ok none
    else elim (from_str_radix 10 field) [ none ↦ err (not_an_id field) | some n ↦ ok (some n) ]

unfoldable pub parse_kind : Str → Outcome Message Kind
parse_kind field =
    if key_eq field any_word
    then ok any
    else if key_eq field dir_word
    then ok Kind.dir
    else if key_eq field file_word
    then ok file
    else err (unknown_kind field)

-- `line.is_empty() || line.starts_with('#')`
unfoldable pub is_skipped : Str → Bool
is_skipped [] = true
is_skipped (c ∷ s) = c == b'#'

module _ (alphabet : Alphabet) (lookup : Str → Option Str) where
  -- The path of a step.
  unfoldable pub parse_path : Str → Outcome Message Str
  parse_path [] = err empty_path
  parse_path (c ∷ s) = map_err bad_path (expand alphabet lookup (c ∷ s))

  unfoldable pub dir_step : List Str → Outcome Message Step
  unfolding parse_path parse_id from_str_radix
  dir_step (path ∷ mode ∷ uid ∷ gid ∷ []) = do
    p ← parse_path path
    m ← ok_or (not_octal mode) (from_str_radix 8 mode)
    u ← parse_id uid
    g ← parse_id gid
    ok (Step.dir p m u g)
  dir_step others = err (dir_takes (length others))

  unfoldable pub must_exist_step : List Str → Outcome Message Step
  unfolding parse_path parse_kind
  must_exist_step (path ∷ kind ∷ []) = do
    p ← parse_path path
    k ← parse_kind kind
    ok (must_exist p k)
  must_exist_step others = err (must_exist_takes (length others))

  unfoldable pub parse_fields : Str × List Str → Outcome Message Step
  unfolding dir_step must_exist_step
  parse_fields (first, others) =
      if key_eq first dir_word
      then dir_step others
      else if key_eq first must_exist_word
      then must_exist_step others
      else err (unknown_step first)

  abbrev pub at_line : ℕ → Message → ParseError
  at_line index message = record { line_number = index + 1; message = message }

  -- What is done with the step of a line, with the rest of the loop.
  abbrev pub with_step :
      ℕ
      → List Step
      → (List Step → Outcome ParseError (List Step))
      → Outcome Message Step
      → Outcome ParseError (List Step)
  with_step index steps loop parsed = do
    step ← map_err (at_line index) parsed
    loop (steps ++ (step ∷ []))

  -- The loop over the lines, with the index of the next and the steps so far.
  unfoldable pub parse_lines : ℕ → List Step → List Str → Outcome ParseError (List Step)
  unfolding trim_end is_skipped split_tab parse_fields
  parse_lines index steps [] = ok steps
  parse_lines index steps (raw ∷ raws) = elim (is_skipped (trim_end raw)) [
    | true ↦ parse_lines (index + 1) steps raws
    | false ↦
        with_step index steps (λ ss. parse_lines (index + 1) ss raws)
          (parse_fields (split_tab (trim_end raw)))
  ]

  unfoldable pub parse_with : Str → Outcome ParseError (List Step)
  unfolding lines parse_lines
  parse_with input = parse_lines 0 [] (lines input)
