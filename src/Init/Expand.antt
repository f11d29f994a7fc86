-- ===== src/Init/Expand.antt =====
-- `expand` of dinix-init/src/expand.rs: the variables in a text are replaced. A text is the list of
-- its characters, as `chars` gives them.
pub mod Terminates
pub mod Names
pub mod Pieces
pub mod Escape
use dinix.Shared.{
  ℕ, zero, suc, Bool, true, false, ◌&&◌, ◌||◌, Option, none, some, [], ◌∷◌, ◌++◌, ◌==◌, length,
  if◌then◌else◌,
}
use dinix.Utf8.{Str}
use dinix.Init.Outcome.{Outcome, ok, err, ◌>>=◌}

-- `ExpandError`, by what its message is made of.
pub data ExpandError : Type 0 where
  unmatched_brace : Str → ExpandError
  unknown_operator : Str → ExpandError
  not_a_name : Str → ExpandError
  -- no error of the program: the loop of the model used up its rounds
  stuck : ExpandError

-- The classes of characters that Rust's library has.
pub record Alphabet : Type 0 where
  pub is_alphabetic : ℕ → Bool
  pub is_numeric : ℕ → Bool

-- The operator between a name and its word.
pub data Operator : Type 0 where
  absent colon_dash dash colon_plus plus : Operator

abbrev pub unwrap_or_default : Option Str → Str
unwrap_or_default none = []
unwrap_or_default (some value) = value

-- `value.as_deref().is_some_and(|value| !value.is_empty())`
abbrev pub non_empty : Option Str → Bool
non_empty none = false
non_empty (some []) = false
non_empty (some (c ∷ s)) = true

abbrev pub is_some : Option Str → Bool
is_some none = false
is_some (some value) = true

-- What stands in for `${name operator word}`.
unfoldable pub choose : Operator → Option Str → Str → Str
choose absent value word = unwrap_or_default value
choose colon_dash value word = if non_empty value then unwrap_or_default value else word
choose dash value word = if is_some value then unwrap_or_default value else word
choose colon_plus value word = if non_empty value then word else []
choose plus value word = if is_some value then word else []

-- The characters up to the first `}`, and those behind it.
unfoldable pub take_braced : Str → Option (Str × Str)
take_braced [] = none
take_braced (c ∷ cs) =
    let rest = take_braced cs in
    if c == b'}' then some ([], cs) else elim rest [ none ↦ none | some p ↦ some (c ∷ p.0, p.1) ]

-- The longest prefix of characters that pass the test, and what is behind it.
unfoldable pub span : (ℕ → Bool) → Str → Str × Str
span test [] = ([], [])
span test (c ∷ cs) =
    let rest = span test cs in if test c then (c ∷ rest.0, rest.1) else ([], c ∷ cs)

unfoldable pub all : (ℕ → Bool) → Str → Bool
all test [] = true
all test (c ∷ cs) = test c && all test cs

-- A character that does not begin an operator.
abbrev pub before_operator : ℕ → Bool
before_operator c = if c == b':' || (c == b'-' || c == b'+') then false else true

abbrev pub colon_operator : Str → Option (Operator × Str)
colon_operator [] = none
colon_operator (c ∷ word) =
    if c == b'-'
    then some (colon_dash, word)
    else if c == b'+'
    then some (colon_plus, word)
    else none

-- The operator in front, and the word behind it.
unfoldable pub operator_of : Str → Option (Operator × Str)
operator_of [] = some (absent, [])
operator_of (c ∷ word) =
    if c == b':'
    then colon_operator word
    else if c == b'-'
    then some (dash, word)
    else if c == b'+'
    then some (plus, word)
    else none

module _ (alphabet : Alphabet) where
  unfoldable pub is_name_start : ℕ → Bool
  is_name_start c = alphabet.is_alphabetic c || c == b'_'

  unfoldable pub is_name_char : ℕ → Bool
  is_name_char c = (alphabet.is_alphabetic c || alphabet.is_numeric c) || c == b'_'

  unfoldable pub is_name : Str → Bool
  unfolding is_name_start is_name_char all
  is_name [] = false
  is_name (c ∷ cs) = is_name_start c && all is_name_char (c ∷ cs)

module _ (alphabet : Alphabet) (lookup : Str → Option Str) where
  abbrev pub with_operator : Str → Str → Option (Operator × Str) → Outcome ExpandError Str
  with_operator inner name none = err (unknown_operator inner)
  with_operator inner name (some (operator, word)) =
      if is_name alphabet name
      then ok (choose operator (lookup name) word)
      else err (not_a_name name)

  unfoldable pub expand_braced : Str → Outcome ExpandError Str
  unfolding span operator_of is_name choose
  expand_braced inner =
      let split = span before_operator inner in with_operator inner split.0 (operator_of split.1)

  -- What is done behind `${`, with the rest of the loop.
  abbrev pub braced :
      Str
      → (Str → Str → Outcome ExpandError Str)
      → Str
      → Option (Str × Str)
      → Outcome ExpandError Str
  braced input loop out none = err (unmatched_brace input)
  braced input loop out (some (inner, rest)) = do
    value ← expand_braced inner
    loop (out ++ value) rest

  -- What is done behind `$`.
  unfoldable pub dollar :
      Str → (Str → Str → Outcome ExpandError Str) → Str → Str → Outcome ExpandError Str
  unfolding take_braced span expand_braced is_name_start is_name_char
  dollar input loop out [] = loop (out ++ (b'$' ∷ [])) []
  dollar input loop out (c ∷ cs) =
      let named = span (is_name_char alphabet) (c ∷ cs) in
      if c == b'$'
      then loop (out ++ (b'$' ∷ [])) cs
      else if c == b'{'
      then braced input loop out (take_braced cs)
      else if is_name_start alphabet c
      then loop (out ++ unwrap_or_default (lookup named.0)) named.1
      else loop (out ++ (b'$' ∷ [])) (c ∷ cs)

  -- The loop of `expand`, with what is written and what is to be read.
  unfoldable pub expand_loop : Str → ℕ → Str → Str → Outcome ExpandError Str
  unfolding dollar
  expand_loop input fuel out [] = ok out
  expand_loop input zero out (c ∷ cs) = err stuck
  expand_loop input (suc fuel) out (c ∷ cs) =
      if c == b'$'
      then dollar input (expand_loop input fuel) out cs
      else expand_loop input fuel (out ++ (c ∷ [])) cs

  -- A round reads one character or more.
  unfoldable pub expand : Str → Outcome ExpandError Str
  unfolding expand_loop
  expand input = expand_loop input (length input) [] input
