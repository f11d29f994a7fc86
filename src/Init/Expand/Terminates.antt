-- ===== src/Init/Expand/Terminates.antt =====
-- The end of the loop of `expand` (dinix-init/src/expand.rs).
use dinix.Shared.{
  ℕ, zero, suc, ◌≤◌, ◌≢◌, Bool, true, false, Option, none, some, [], ◌∷◌, ◌++◌, ◌==◌, length,
  if◌then◌else◌, arith, Bool-cases, inl, inr,
}
use dinix.Utf8.{Str}
use dinix.Init.Outcome.{Outcome, ok, err, ◌>>=◌}
use dinix.Init.Expand.{
  ExpandError, unmatched_brace, unknown_operator, not_a_name, stuck, Alphabet, Operator,
  take_braced, span, is_name, with_operator, expand_braced, is_name_start, is_name_char, braced,
  dollar, expand_loop, expand,
}

-- An end that the program has: a text, or one of its errors.
pub data Halts : Outcome ExpandError Str → Type 0 where
  returns : (s : Str) → Halts (ok s)
  fails : (e : ExpandError) → e ≢ stuck → Halts (err e)

Halts-if :
    {x y : Outcome ExpandError Str} (b : Bool) → Halts x → Halts y → Halts (if b then x else y)
Halts-if true x y = x
Halts-if false x y = y

length-span : (test : ℕ → Bool) (s : Str) → length (span test s).1 ≤ length s
unfolding span
length-span test [] = omega arith
length-span test (c ∷ cs) = elim (Bool-cases (test c)) [
  | inl part ↦ rw part (omega (arith, length-span test cs))
  | inr other ↦ rw other (omega arith)
]

-- At most so many characters are left behind the brace.
abbrev Within : ℕ → Option (Str × Str) → Type 0
Within n none = Unit
Within n (some p) = length p.1 ≤ n

Within-if :
    (b : Bool) (n : ℕ) (x y : Option (Str × Str))
    → Within n x
    → Within n y
    → Within n (if b then x else y)
Within-if true n x y hx hy = hx
Within-if false n x y hx hy = hy

Within-suc :
    (n c : ℕ) (o : Option (Str × Str))
    → Within n o
    → Within (suc n) (elim o [ none ↦ none | some p ↦ some (c ∷ p.0, p.1) ])
Within-suc n c none h = tt
Within-suc n c (some p) h = omega arith

length-take_braced : (s : Str) → Within (length s) (take_braced s)
unfolding take_braced
length-take_braced [] = tt
length-take_braced (c ∷ cs) =
    Within-if (c == b'}') (suc (length cs)) _ _ (omega arith)
      (Within-suc (length cs) c (take_braced cs) (length-take_braced cs))

module _ (alphabet : Alphabet) (lookup : Str → Option Str) where
  with_operator-Halts :
      (inner name : Str) (o : Option (Operator × Str))
      → Halts (with_operator alphabet lookup inner name o)
  with_operator-Halts inner name none = fails (unknown_operator inner) (λ e. cc)
  with_operator-Halts inner name (some (operator, word)) =
      Halts-if (is_name alphabet name) (returns _) (fails (not_a_name name) (λ e. cc))

  expand_braced-Halts : (inner : Str) → Halts (expand_braced alphabet lookup inner)
  unfolding expand_braced
  expand_braced-Halts inner = with_operator-Halts inner _ _

  module _ (input : Str) (loop : Str → Str → Outcome ExpandError Str) (n : ℕ)
      (ends : (out s : Str) → length s ≤ n → Halts (loop out s)) where
    value-Halts :
        (out rest : Str) (value : Outcome ExpandError Str)
        → Halts value
        → length rest ≤ n
        → Halts (value >>= λ v. loop (out ++ v) rest)
    value-Halts out rest value (returns s) h = ends _ rest h
    value-Halts out rest value (fails e other) h = fails e other

    braced-Halts :
        (out : Str) (o : Option (Str × Str))
        → Within n o
        → Halts (braced alphabet lookup input loop out o)
    braced-Halts out none h = fails (unmatched_brace input) (λ e. cc)
    braced-Halts out (some (inner, rest)) h = value-Halts out rest _ (expand_braced-Halts inner) h

    Within-weaken : (m : ℕ) (o : Option (Str × Str)) → m ≤ n → Within m o → Within n o
    Within-weaken m none hm h = tt
    Within-weaken m (some p) hm h = omega arith

    dollar-Halts : (out s : Str) → length s ≤ n → Halts (dollar alphabet lookup input loop out s)
    unfolding dollar
    dollar-Halts out [] h = ends _ [] h
    dollar-Halts out (c ∷ cs) h =
        let named = length-span (is_name_char alphabet) (c ∷ cs) in
        Halts-if (c == b'$') (ends _ cs (omega arith)) (
          Halts-if (c == b'{')
            (braced-Halts out (take_braced cs)
              (Within-weaken (length cs) (take_braced cs) (omega arith) (length-take_braced cs)))
            (Halts-if (is_name_start alphabet c) (ends _ _ (omega (arith, named, h)))
              (ends _ (c ∷ cs) h)))

  expand_loop-Halts :
      (input : Str) (fuel : ℕ) (out s : Str)
      → length s ≤ fuel
      → Halts (expand_loop alphabet lookup input fuel out s)
  unfolding expand_loop
  expand_loop-Halts input fuel out [] h = returns out
  expand_loop-Halts input zero out (c ∷ cs) h = absurd (omega arith)
  expand_loop-Halts input (suc fuel) out (c ∷ cs) h =
      Halts-if (c == b'$')
        (dollar-Halts input (expand_loop alphabet lookup input fuel) fuel
          (expand_loop-Halts input fuel) out cs (omega arith))
        (expand_loop-Halts input fuel _ cs (omega arith))

  -- The loop of `expand` comes to an end on every input, within a round for each of its
  -- characters: the result is a text or one of the errors of the program.
  pub expand-Halts : (input : Str) → Halts (expand alphabet lookup input)
  unfolding expand
  expand-Halts input = expand_loop-Halts input (length input) [] input (omega arith)
