-- ===== src/Init/Spec/Numbers.antt =====
-- The numbers of a spec (`u32::from_str_radix` as dinix-init/src/spec.rs uses it), digit by digit.
use dinix.Shared.{
  ℕ, ◌+◌, ◌-◌, ◌*◌, ◌^◌, ◌≤◌, ◌<◌, ◌≡◌, refl, ◌∙◌, false, none, some, List, [], ◌∷◌, ltb, ◌==◌,
  if◌then◌else◌, All, map, arith, lt→ltb, le→leb, le→ltb, ◌⊎◌, inl, inr,
}
use native.Mathlib.Nat.{mul-le-mul_left}
use dinix.Init.Spec.{digits, from_str_radix}

-- The character of a digit, and the number that digits stand for behind a number.
abbrev pub digit_char : ℕ → ℕ
digit_char d = b'0' + d

abbrev pub number_from : ℕ → ℕ → List ℕ → ℕ
number_from radix acc [] = acc
number_from radix acc (d ∷ ds) = number_from radix (acc * radix + d) ds

abbrev pub number : ℕ → List ℕ → ℕ
number radix ds = number_from radix 0 ds

le_or_lt : (a b : ℕ) → (a ≤ b) ⊎ (b < a)
le_or_lt a b = ground arith

digits-cons :
    (radix acc d : ℕ) (ds : List ℕ)
    → d < radix
    → digits radix acc (map digit_char (d ∷ ds)) ≡ (
        if ltb (acc * radix + d) (2 ^ 32)
        then digits radix (acc * radix + d) (map digit_char ds)
        else none)
unfolding digits
digits-cons radix acc d ds h =
    let e : digit_char d - b'0' ≡ d = omega arith in
    rw (le→leb b'0' (digit_char d) (omega arith)) (rw e (rw (lt→ltb d radix h)))

le-mul : (a r : ℕ) → 1 ≤ r → a ≤ a * r
le-mul a r h = omega (arith, mul-le-mul_left a h)

-- The number so far is never above the number at the end.
number_from-grows : (radix acc : ℕ) (ds : List ℕ) → 1 ≤ radix → acc ≤ number_from radix acc ds
number_from-grows radix acc [] h = omega arith
number_from-grows radix acc (d ∷ ds) h =
    omega (arith, le-mul acc radix h, number_from-grows radix (acc * radix + d) ds h)

digits-fit :
    (radix acc : ℕ) (ds : List ℕ)
    → 1 ≤ radix
    → All (λ d. d < radix) ds
    → number_from radix acc ds < 2 ^ 32
    → digits radix acc (map digit_char ds) ≡ some (number_from radix acc ds)
digits-fit radix acc [] h all fits = unfold digits in refl
digits-fit radix acc (d ∷ ds) h (small, all) fits =
    let below : acc * radix + d < 2 ^ 32 =
      omega (arith, fits, number_from-grows radix (acc * radix + d) ds h) in
    rw (digits-cons radix acc d ds small)
      (rw (lt→ltb _ _ below) (digits-fit radix (acc * radix + d) ds h all fits))

digits-overflow :
    (radix acc : ℕ) (ds : List ℕ)
    → All (λ d. d < radix) ds
    → acc < 2 ^ 32
    → 2 ^ 32 ≤ number_from radix acc ds
    → digits radix acc (map digit_char ds) ≡ none
digits-overflow radix acc [] all small over = absurd (omega (arith, small, over))
digits-overflow radix acc (d ∷ ds) (hd, all) small over =
    rw (digits-cons radix acc d ds hd) (elim (le_or_lt (2 ^ 32) (acc * radix + d)) [
      | inl above ↦ rw (le→ltb (acc * radix + d) (2 ^ 32) above)
      | inr below ↦
          rw (lt→ltb (acc * radix + d) (2 ^ 32) below)
            (digits-overflow radix (acc * radix + d) ds all below over)
    ])

-- No digit is a sign.
from_str_radix-digits :
    (radix d : ℕ) (ds : List ℕ)
    → from_str_radix radix (map digit_char (d ∷ ds)) ≡ digits radix 0 (map digit_char (d ∷ ds))
unfolding from_str_radix
from_str_radix-digits radix d [] = refl
from_str_radix-digits radix d (e ∷ ds) =
    let sign : (digit_char d == b'+') ≡ false = ground arith in rw sign

-- One digit or more under the radix are read as the number that they stand for if it fits 32 bits,
-- and are refused if it does not, also with leading zeros.
pub from_str_radix-number :
    (radix d : ℕ) (ds : List ℕ)
    → All (λ x. x < radix) (d ∷ ds)
    → from_str_radix radix (map digit_char (d ∷ ds))
      ≡ (if ltb (number radix (d ∷ ds)) (2 ^ 32) then some (number radix (d ∷ ds)) else none)
from_str_radix-number radix d ds all =
    from_str_radix-digits radix d ds ∙ elim (le_or_lt (2 ^ 32) (number radix (d ∷ ds))) [
      | inl above ↦
          rw (le→ltb (number radix (d ∷ ds)) (2 ^ 32) above)
            (digits-overflow radix 0 (d ∷ ds) all (omega arith) above)
      | inr below ↦
          rw (lt→ltb (number radix (d ∷ ds)) (2 ^ 32) below)
            (digits-fit radix 0 (d ∷ ds) (omega (arith, all.0)) all below)
    ]
