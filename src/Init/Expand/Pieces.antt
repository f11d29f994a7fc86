-- ===== src/Init/Expand/Pieces.antt =====
-- The language of `expand` (dinix-init/src/expand.rs), as `dinit-service(5)` has it: a text is a list of
-- pieces, each with what it is written as and what it stands for.
use dinix.Shared.{
  ℕ, zero, suc, ◌≤◌, ◌≡◌, refl, ap, ◌∙◌, true, false, Option, none, some, List, [], ◌∷◌, ◌++◌, ◌==◌,
  length, length-append, append_assoc, append-nil, arith,
}
use dinix.Utf8.{Str}
use dinix.Init.Outcome.{Outcome, ok}
use dinix.Init.Expand.{
  ExpandError, Alphabet, Operator, absent, colon_dash, dash, colon_plus, plus, all, choose,
  expand_braced, unwrap_or_default, before_operator, is_name_start, is_name_char, is_name, dollar,
  expand_loop, expand,
}
use dinix.Init.Expand.Names.{
  IsAscii, Stops, not_close, operator_text, word_of, operator_of-text, operator_text-Stops,
  operator_text-not_close, all-cons, all-append, all-imp, span-all, take_braced-all,
  start-is_name_char, name_char-dollar, name_char-open, name_char-not_close,
  name_char-before_operator, is_name-cons, is_name-all,
}

pub data Piece : Type 0 where
  literal : ℕ → Piece
  -- `$$`, and a `$` that begins nothing
  doubled lone : Piece
  -- `$name` and `${name operator word}`
  bare : Str → Piece
  braces : Str → Operator → Str → Piece

abbrev pub text : Piece → Str
text (literal c) = c ∷ []
text doubled = b'$' ∷ b'$' ∷ []
text lone = b'$' ∷ []
text (bare name) = b'$' ∷ name
text (braces name o word) = b'$' ∷ b'{' ∷ ((name ++ operator_text o word) ++ (b'}' ∷ []))

-- What a variable and the operator on it stand for, by the value of the variable.
abbrev pub meaning : Operator → Option Str → Str → Str
meaning absent none word = []
meaning absent (some v) word = v
meaning colon_dash none word = word
meaning colon_dash (some []) word = word
meaning colon_dash (some (c ∷ v)) word = c ∷ v
meaning dash none word = word
meaning dash (some v) word = v
meaning colon_plus none word = []
meaning colon_plus (some []) word = []
meaning colon_plus (some (c ∷ v)) word = word
meaning plus none word = []
meaning plus (some v) word = word

choose-meaning :
    (o : Operator) (v : Option Str) (word : Str) → choose o v (word_of o word) ≡ meaning o v word
unfolding choose
choose-meaning absent none word = refl
choose-meaning absent (some v) word = refl
choose-meaning colon_dash none word = refl
choose-meaning colon_dash (some []) word = refl
choose-meaning colon_dash (some (c ∷ v)) word = refl
choose-meaning dash none word = refl
choose-meaning dash (some v) word = refl
choose-meaning colon_plus none word = refl
choose-meaning colon_plus (some []) word = refl
choose-meaning colon_plus (some (c ∷ v)) word = refl
choose-meaning plus none word = refl
choose-meaning plus (some v) word = refl

default-meaning : (v : Option Str) → unwrap_or_default v ≡ meaning absent v []
default-meaning none = refl
default-meaning (some v) = refl

abbrev pub written : List Piece → Str
written [] = []
written (p ∷ ps) = text p ++ written ps

module _ (lookup : Str → Option Str) where
  abbrev pub value : Piece → Str
  value (literal c) = c ∷ []
  value doubled = b'$' ∷ []
  value lone = b'$' ∷ []
  value (bare name) = meaning absent (lookup name) []
  value (braces name o word) = meaning o (lookup name) word

  abbrev pub values : List Piece → Str
  values [] = []
  values (p ∷ ps) = value p ++ values ps

module _ (alphabet : Alphabet) where
  -- A text that takes a `$` in front of it for nothing else.
  abbrev pub Plain : Str → Type 0
  Plain [] = Unit
  Plain (c ∷ cs) =
      ((c == b'$') ≡ false) × ((c == b'{') ≡ false) × (is_name_start alphabet c ≡ false)

  -- A piece that is read as itself in front of the text.
  abbrev pub IsPiece : Piece → Str → Type 0
  IsPiece (literal c) rest = (c == b'$') ≡ false
  IsPiece doubled rest = Unit
  IsPiece lone rest = Plain rest
  IsPiece (bare name) rest = (is_name alphabet name ≡ true) × Stops (is_name_char alphabet) rest
  IsPiece (braces name o word) rest = (is_name alphabet name ≡ true) × (all not_close word ≡ true)

  abbrev pub IsWritten : List Piece → Type 0
  IsWritten [] = Unit
  IsWritten (p ∷ ps) = IsPiece p (written ps) × IsWritten ps

module _ (alphabet : Alphabet) (ascii : IsAscii alphabet) (lookup : Str → Option Str) (input : Str)
    (fuel : ℕ) (out : Str) where
  -- One round of the loop, on the text.
  abbrev round : Str → Outcome ExpandError Str
  round s = expand_loop alphabet lookup input (suc fuel) out s

  abbrev goes_on : Str → Str → Outcome ExpandError Str
  goes_on v rest = expand_loop alphabet lookup input fuel (out ++ v) rest

  lone-round : (rest : Str) → Plain alphabet rest → round (b'$' ∷ rest) ≡ goes_on (b'$' ∷ []) rest
  unfolding expand_loop dollar
  lone-round [] h = refl
  lone-round (c ∷ cs) (hd, ho, hs) = rw hd (rw ho (rw hs))

  bare-round :
      (name rest : Str)
      → is_name alphabet name ≡ true
      → Stops (is_name_char alphabet) rest
      → round (b'$' ∷ (name ++ rest)) ≡ goes_on (meaning absent (lookup name) []) rest
  unfolding expand_loop dollar
  bare-round [] rest h stop = unfold is_name in cc
  bare-round (c ∷ s) rest h stop =
      let (start, chars) = is_name-cons alphabet ascii c s h in
      let hc = start-is_name_char alphabet ascii c start in
      rw (name_char-dollar alphabet ascii c hc) (
        rw (name_char-open alphabet ascii c hc) (
          rw start (
            rw hc (
              rw (span-all (is_name_char alphabet) s rest (all-cons _ c s chars).1 stop)
                (ap (λ v. goes_on v rest) (default-meaning (lookup (c ∷ s))))))))

  inner-expands :
      (name : Str) (o : Operator) (word : Str)
      → is_name alphabet name ≡ true
      → expand_braced alphabet lookup (name ++ operator_text o word)
        ≡ ok (meaning o (lookup name) word)
  unfolding expand_braced
  inner-expands name o word h =
      rw
        (span-all before_operator name (operator_text o word)
          (all-imp (is_name_char alphabet) before_operator name
            (name_char-before_operator alphabet ascii) (is_name-all alphabet ascii name h))
          (operator_text-Stops o word))
        (rw (operator_of-text o word) (rw h (ap ok (choose-meaning o (lookup name) word))))

  braces-round :
      (name : Str) (o : Operator) (word rest : Str)
      → is_name alphabet name ≡ true
      → all not_close word ≡ true
      → round (text (braces name o word) ++ rest) ≡ goes_on (meaning o (lookup name) word) rest
  unfolding expand_loop dollar
  braces-round name o word rest h hw =
      rw (append_assoc (name ++ operator_text o word) (b'}' ∷ []) rest) (
        rw
          (take_braced-all (name ++ operator_text o word) rest (
            all-append not_close name (operator_text o word)
              (all-imp (is_name_char alphabet) not_close name (name_char-not_close alphabet ascii)
                (is_name-all alphabet ascii name h))
              (operator_text-not_close o word hw)))
          (rw (inner-expands name o word h)))

  piece-round :
      (p : Piece) (rest : Str)
      → IsPiece alphabet p rest
      → round (text p ++ rest) ≡ goes_on (value lookup p) rest
  unfolding expand_loop dollar
  piece-round (literal c) rest h = rw h
  piece-round doubled rest h = refl
  piece-round lone rest h = lone-round rest h
  piece-round (bare name) rest (h, stop) = bare-round name rest h stop
  piece-round (braces name o word) rest (h, hw) = braces-round name o word rest h hw

some_text : (p : Piece) → 1 ≤ length (text p)
some_text (literal c) = omega arith
some_text doubled = omega arith
some_text lone = omega arith
some_text (bare name) = omega arith
some_text (braces name o word) = omega arith

module _ (alphabet : Alphabet) (ascii : IsAscii alphabet) (lookup : Str → Option Str) where
  loop-written :
      (input : Str) (ps : List Piece) (fuel : ℕ) (out : Str)
      → IsWritten alphabet ps
      → length (written ps) ≤ fuel
      → expand_loop alphabet lookup input fuel out (written ps) ≡ ok (out ++ values lookup ps)
  loop-written input [] fuel out w h = unfold expand_loop in rw (append-nil out)
  loop-written input (p ∷ ps) zero out w h =
      absurd (omega (arith, h, some_text p, length-append (text p) (written ps)))
  loop-written input (p ∷ ps) (suc fuel) out (here, w) h =
      piece-round alphabet ascii lookup input fuel out p (written ps) here
      ∙ (loop-written input ps fuel (out ++ value lookup p) w
            (omega (arith, h, some_text p, length-append (text p) (written ps)))
          ∙ (ap ok (append_assoc out (value lookup p) (values lookup ps))))

  -- A text that is made of plain characters, `$$`, dollars before anything else, `$name` and
  -- `${name}` with or without one of the operators of `dinit-service(5)` and a word without `}`
  -- expands to what the pieces stand for, one after the other: a variable to its value or nothing,
  -- `:-` and `-` to the word for a variable that is unset, `:+` and `+` to the word for one that
  -- is set, where the forms with a colon take an empty value as unset.
  pub expand-written :
      (ps : List Piece)
      → IsWritten alphabet ps
      → expand alphabet lookup (written ps) ≡ ok (values lookup ps)
  unfolding expand
  expand-written ps w = loop-written (written ps) ps (length (written ps)) [] w (omega arith)
