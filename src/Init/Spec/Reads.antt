-- ===== src/Init/Spec/Reads.antt =====
-- `parse_with` (dinix-init/src/spec.rs) on what is written: its lines, its fields and its numbers.
use dinix.Shared.{
  ℕ, ◌≤◌, ◌<◌, ◌≡◌, refl, ◌∙◌, true, false, Option, none, some, List, [], ◌∷◌, ◌==◌, All, map,
  length, arith, lt→ltb, Bool-cases, inl, inr,
}
use dinix.Shared.Dict.{key_eq}
use dinix.Utf8.{Str}
use dinix.Init.Outcome.{ok}
use dinix.Init.Expand.{Alphabet, all, expand}
use dinix.Init.Expand.Names.{IsAscii, all-cons}
use dinix.Init.Expand.Escape.{escape, expand-escape}
use dinix.Init.Spec.{Kind, any, file, nobody, from_str_radix, parse_id, parse_kind, parse_path}
use dinix.Init.Spec.Numbers.{digit_char, number, from_str_radix-number}
use dinix.Init.Spec.Lines.{field_char, IsField}
use dinix.Init.Spec.Items.{
  Digits, all_digits, digits_text, owner_text, kind_text, owner, IsNumber, IsOwner, IsPath,
}

-- Every text that is a field.
digit-field : (d : ℕ) → d < 10 → field_char (digit_char d) ≡ true
digit-field d h =
    let tab : (digit_char d == 9) ≡ false = ground arith in
    let newline : (digit_char d == 10) ≡ false = ground arith in
    let return : (digit_char d == 13) ≡ false = ground arith in rw tab (rw newline (rw return))

pub digits-IsField :
    (radix : ℕ) (ds : List ℕ) → radix ≤ 10 → All (λ x. x < radix) ds → IsField (map digit_char ds)
unfolding all
digits-IsField radix [] h ds = refl
digits-IsField radix (d ∷ rest) h (hd, ds) =
    rw (digit-field d (omega arith)) (digits-IsField radix rest h ds)

pub owner-IsField : (o : Option Digits) → IsOwner o → IsField (owner_text o)
owner-IsField none h = unfold all in refl
owner-IsField (some d) (h, fits) = digits-IsField 10 (all_digits d) (omega arith) h

pub kind-IsField : (k : Kind) → IsField (kind_text k)
unfolding all
kind-IsField any = refl
kind-IsField Kind.dir = refl
kind-IsField file = refl

pub escape-IsField : (s : Str) → IsField s → IsField (escape s)
unfolding all
escape-IsField [] h = refl
escape-IsField (c ∷ s) h =
    let (hc, hs) = all-cons field_char c s h in
    elim (Bool-cases (c == b'$')) [
      | inl same ↦ rw same (escape-IsField s hs)
      | inr other ↦ rw other (rw hc (escape-IsField s hs))
    ]

-- The parts of a step.
module _ (alphabet : Alphabet) (ascii : IsAscii alphabet) (lookup : Str → Option Str) where
  parse_path-filled :
      (s p : Str)
      → 1 ≤ length s
      → expand alphabet lookup s ≡ ok p
      → parse_path alphabet lookup s ≡ ok p
  unfolding parse_path
  parse_path-filled [] p h e = absurd (omega arith)
  parse_path-filled (c ∷ s) p h e = rw e

  escape-filled : (s : Str) → 1 ≤ length s → 1 ≤ length (escape s)
  escape-filled [] h = absurd (omega arith)
  escape-filled (c ∷ s) h = elim (Bool-cases (c == b'$')) [
    | inl same ↦ rw same (omega arith)
    | inr other ↦ rw other (omega arith)
  ]

  pub parse_path-escape : (s : Str) → IsPath s → parse_path alphabet lookup (escape s) ≡ ok s
  parse_path-escape s (h, hs) =
      parse_path-filled (escape s) s (escape-filled s h) (expand-escape alphabet lookup s ascii)

pub number-fits :
    (radix : ℕ) (d : Digits)
    → IsNumber radix d
    → from_str_radix radix (digits_text d) ≡ some (number radix (all_digits d))
number-fits radix d (h, fits) =
    from_str_radix-number radix d.first d.others h ∙ rw (lt→ltb _ _ fits)

not-nobody : (d : Digits) → key_eq (digits_text d) nobody ≡ false
unfolding key_eq
not-nobody d = let e : (digit_char d.first == b'-') ≡ false = ground arith in rw e

pub parse_id-owner : (o : Option Digits) → IsOwner o → parse_id (owner_text o) ≡ ok (owner o)
unfolding parse_id
parse_id-owner none h = unfold key_eq in refl
parse_id-owner (some d) h = rw (not-nobody d) (rw (number-fits 10 d h))

pub parse_kind-text : (k : Kind) → parse_kind (kind_text k) ≡ ok k
unfolding parse_kind key_eq
parse_kind-text any = refl
parse_kind-text Kind.dir = refl
parse_kind-text file = refl
