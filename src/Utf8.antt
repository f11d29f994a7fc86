-- ===== src/Utf8.antt =====
-- `str.encode()` and `bytes.decode()` with the default, strict UTF-8. A `str` is the list of its
-- code points.
pub mod RoundTrip
pub mod Raises
use dinix.Shared.{
  ℕ, zero, suc, ◌+◌, ◌-◌, ◌*◌, ◌/◌, ◌%◌, Bool, Option, none, some, List, [], ◌∷◌, ◌++◌, ltb, leb,
  ◌==◌, ◌&&◌, if◌then◌else◌,
}
use dinix.Exceptions.{Result, ok, err, unicode_encode_error, unicode_decode_error, ◌>>=◌}

abbrev pub Str : Type 0
Str = List ℕ

-- A code point that UTF-8 encodes: below 0x110000, and no surrogate.
unfoldable pub is_scalar : ℕ → Bool
is_scalar c = if ltb c 0xd800 then ltb c 0x110000 else leb 0xe000 c && ltb c 0x110000

unfoldable pub encode_char : ℕ → List ℕ
encode_char c =
    if ltb c 0x80
    then c ∷ []
    else if ltb c 0x800
    then (0xc0 + c / 64) ∷ (0x80 + c % 64) ∷ []
    else if ltb c 0x10000
    then (0xe0 + c / 4096) ∷ (0x80 + c / 64 % 64) ∷ (0x80 + c % 64) ∷ []
    else (0xf0 + c / 262144) ∷ (0x80 + c / 4096 % 64) ∷ (0x80 + c / 64 % 64) ∷ (0x80 + c % 64) ∷ []

unfoldable pub encode : Str → Result (List ℕ)
unfolding encode_char is_scalar
encode [] = ok []
encode (c ∷ s) =
    let rest = encode s in
    if is_scalar c then rest >>= (λ bs. ok (encode_char c ++ bs)) else err unicode_encode_error

-- The decoder's state: how many continuation bytes are due, the bits so far, and the range that
-- the next of them must lie in.
pub record Partial : Type 0 where
  pub due : ℕ
  pub bits : ℕ
  pub lower : ℕ
  pub upper : ℕ

abbrev pub start : Partial
start = record { due = 0; bits = 0; lower = 0x80; upper = 0xbf }

abbrev Step : Type 0
Step = Result (Partial × Option ℕ)

first_byte : ℕ → Step
first_byte b =
    if ltb b 0x80
    then ok (start, some b)
    else if leb 0xc2 b && leb b 0xdf
    then ok (record { due = 1; bits = b - 0xc0; lower = 0x80; upper = 0xbf }, none)
    else if leb 0xe0 b && leb b 0xef
    then ok (
      record {
        due = 2;
        bits = b - 0xe0;
        lower = if b == 0xe0 then 0xa0 else 0x80;
        upper = if b == 0xed then 0x9f else 0xbf;
      },
      none,
    )
    else if leb 0xf0 b && leb b 0xf4
    then ok (
      record {
        due = 3;
        bits = b - 0xf0;
        lower = if b == 0xf0 then 0x90 else 0x80;
        upper = if b == 0xf4 then 0x8f else 0xbf;
      },
      none,
    )
    else err unicode_decode_error

last_byte : ℕ → ℕ → Partial × Option ℕ
last_byte zero bits = (start, some bits)
last_byte (suc due) bits = (record { due = suc due; bits = bits; lower = 0x80; upper = 0xbf }, none)

next_byte : ℕ → Partial → ℕ → Step
unfolding first_byte last_byte
next_byte zero p b = first_byte b
next_byte (suc due) p b =
    if leb p.lower b && leb b p.upper
    then ok (last_byte due (p.bits * 64 + (b - 0x80)))
    else err unicode_decode_error

emit : Option ℕ → Str → Str
emit none s = s
emit (some c) s = c ∷ s

finish : ℕ → Result Str
finish zero = ok []
finish (suc due) = err unicode_decode_error

unfoldable pub decode_from : Partial → List ℕ → Result Str
unfolding next_byte emit finish
decode_from p [] = finish p.due
decode_from p (b ∷ bs) = next_byte p.due p b >>= λ r. decode_from r.0 bs >>= λ s. ok (emit r.1 s)

unfoldable pub decode : List ℕ → Result Str
unfolding decode_from
decode bs = decode_from start bs
