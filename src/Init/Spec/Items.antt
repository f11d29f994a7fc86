-- ===== src/Init/Spec/Items.antt =====
-- A spec (dinix-init/src/spec.rs) from its writer's side: comments, blank lines and steps.
use dinix.Shared.{
  ℕ, ◌^◌, ◌≤◌, ◌<◌, ◌≡◌, true, Option, none, some, List, [], ◌∷◌, ◌++◌, All, map, length,
}
use dinix.Utf8.{Str}
use dinix.Init.Expand.{all}
use dinix.Init.Expand.Escape.{escape}
use dinix.Init.Spec.{
  Kind, any, file, Step, must_exist, dir_word, must_exist_word, any_word, file_word, nobody,
}
use dinix.Init.Spec.Numbers.{digit_char, number}
use dinix.Init.Spec.Lines.{IsField, not_newline, join}

-- A number by its digits, which may begin with zeros.
pub record Digits : Type 0 where
  pub first : ℕ
  pub others : List ℕ

abbrev pub all_digits : Digits → List ℕ
all_digits d = d.first ∷ d.others

abbrev pub digits_text : Digits → Str
digits_text d = map digit_char (all_digits d)

pub data Item : Type 0 where
  blank : Item
  comment : Str → Item
  dir_line : Str → Digits → Option Digits → Option Digits → Item
  exist_line : Str → Kind → Item

abbrev pub owner_text : Option Digits → Str
owner_text none = nobody
owner_text (some d) = digits_text d

abbrev pub kind_text : Kind → Str
kind_text any = any_word
kind_text Kind.dir = dir_word
kind_text file = file_word

-- The fields behind the word of a step.
abbrev pub dir_fields : Str → Digits → Option Digits → Option Digits → List Str
dir_fields path mode uid gid = escape path ∷ digits_text mode ∷ owner_text uid ∷ owner_text gid ∷ []

abbrev pub exist_fields : Str → Kind → List Str
exist_fields path kind = escape path ∷ kind_text kind ∷ []

abbrev pub line_of : Item → Str
line_of blank = []
line_of (comment s) = b'#' ∷ s
line_of (dir_line path mode uid gid) = join dir_word (dir_fields path mode uid gid)
line_of (exist_line path kind) = join must_exist_word (exist_fields path kind)

abbrev pub owner : Option Digits → Option ℕ
owner none = none
owner (some d) = some (number 10 (all_digits d))

-- The steps of a line.
abbrev pub steps_of : Item → List Step
steps_of blank = []
steps_of (comment s) = []
steps_of (dir_line path mode uid gid) =
    Step.dir path (number 8 (all_digits mode)) (owner uid) (owner gid) ∷ []
steps_of (exist_line path kind) = must_exist path kind ∷ []

abbrev pub all_steps : List Item → List Step
all_steps [] = []
all_steps (i ∷ is) = steps_of i ++ all_steps is

abbrev pub spec_text : List Item → Str → Str
spec_text [] rest = rest
spec_text (i ∷ is) rest = line_of i ++ (10 ∷ spec_text is rest)

-- Digits under a radix whose number fits 32 bits.
abbrev pub IsNumber : ℕ → Digits → Type 0
IsNumber radix d = All (λ x. x < radix) (all_digits d) × (number radix (all_digits d) < 2 ^ 32)

abbrev pub IsOwner : Option Digits → Type 0
IsOwner none = Unit
IsOwner (some d) = IsNumber 10 d

-- A path that is not empty and has no tab, line feed or carriage return.
abbrev pub IsPath : Str → Type 0
IsPath s = (1 ≤ length s) × IsField s

abbrev pub IsItem : Item → Type 0
IsItem blank = Unit
IsItem (comment s) = all not_newline s ≡ true
IsItem (dir_line path mode uid gid) = IsPath path × IsNumber 8 mode × IsOwner uid × IsOwner gid
IsItem (exist_line path kind) = IsPath path
