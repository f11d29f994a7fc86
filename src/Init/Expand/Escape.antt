-- ===== src/Init/Expand/Escape.antt =====
-- Texts with each `$` doubled, for `expand` (dinix-init/src/expand.rs).
use dinix.Shared.{
  ℕ, ◌≡◌, refl, ap, ◌∙◌, Option, [], ◌∷◌, ◌==◌, if◌then◌else◌, map, ==_iff, sym, Bool-cases, inl,
  inr,
}
use dinix.Utf8.{Str}
use dinix.Init.Outcome.{ok}
use dinix.Init.Expand.{Alphabet, expand}
use dinix.Init.Expand.Names.{IsAscii}
use dinix.Init.Expand.Pieces.{
  Piece, literal, doubled, written, value, values, IsPiece, IsWritten, expand-written,
}

abbrev pub escape_char : ℕ → Piece
escape_char c = if c == b'$' then doubled else literal c

abbrev pub escape : Str → Str
escape s = written (map escape_char s)

value-escape_char : (lookup : Str → Option Str) (c : ℕ) → value lookup (escape_char c) ≡ c ∷ []
value-escape_char lookup c = elim (Bool-cases (c == b'$')) [
  | inl same ↦ rw same (ap (λ x. x ∷ []) (sym ((==_iff c b'$').0 same)))
  | inr other ↦ rw other
]

values-escape : (lookup : Str → Option Str) (s : Str) → values lookup (map escape_char s) ≡ s
values-escape lookup [] = refl
values-escape lookup (c ∷ s) =
    rw (value-escape_char lookup c) (ap (λ t. c ∷ t) (values-escape lookup s))

escape_char-IsPiece :
    (alphabet : Alphabet) (c : ℕ) (rest : Str) → IsPiece alphabet (escape_char c) rest
escape_char-IsPiece alphabet c rest = elim (Bool-cases (c == b'$')) [
  | inl same ↦ rw same tt
  | inr other ↦ rw other other
]

escape-IsWritten : (alphabet : Alphabet) (s : Str) → IsWritten alphabet (map escape_char s)
escape-IsWritten alphabet [] = tt
escape-IsWritten alphabet (c ∷ s) = (escape_char-IsPiece alphabet c _, escape-IsWritten alphabet s)

-- A text with each `$` doubled expands to the text, whatever the variables are.
pub expand-escape :
    (alphabet : Alphabet) (lookup : Str → Option Str) (s : Str)
    → IsAscii alphabet
    → expand alphabet lookup (escape s) ≡ ok s
expand-escape alphabet lookup s ascii =
    expand-written alphabet ascii lookup (map escape_char s) (escape-IsWritten alphabet s)
    ∙ ap ok (values-escape lookup s)
