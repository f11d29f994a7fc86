-- ===== src/Utf8/RoundTrip.antt =====
-- Decoding gives back every text that can be encoded.
use dinix.Shared.{
  ℕ, ◌≡◌, refl, Bool, true, false, List, [], ◌∷◌, ◌++◌, arith, if◌then◌else◌, ◌≤◌, length,
  length-append, All,
}
use dinix.Exceptions.{Result, ok, err, ◌>>=◌, unicode_encode_error}
use dinix.Utf8.{Str, is_scalar, encode_char, encode, start, decode_from, decode}

decode_from-encode_char :
    (c : ℕ) (bs : List ℕ)
    → is_scalar c ≡ true
    → decode_from start (encode_char c ++ bs) ≡ (decode_from start bs >>= λ s. ok (c ∷ s))
unfolding decode_from encode_char is_scalar
decode_from-encode_char c bs h = ground arith

-- What a successful `encode` of a text with at least one character is.
encode_cases :
    (c : ℕ) (s : Str) (bs : List ℕ)
    → encode (c ∷ s) ≡ ok bs
    → (rest : List ℕ) × (is_scalar c ≡ true) × (encode s ≡ ok rest) × (bs ≡ encode_char c ++ rest)
encode_cases c s bs h = go (is_scalar c) refl (encode s) refl (unfold encode in h)
  where
    go :
        (b : Bool)
        → is_scalar c ≡ b
        → (r : Result (List ℕ)) → encode s ≡ r
        → (if b then (r >>= λ rest. ok (encode_char c ++ rest)) else err unicode_encode_error)
          ≡ ok bs
        → (rest : List ℕ) × (is_scalar c ≡ true)
          × (encode s ≡ ok rest)
          × (bs ≡ encode_char c ++ rest)
    go true p (ok rest) q e = (rest, p, q, cc)
    go true p (err x) q e = cc
    go false p r q e = cc

decode_from-encode : (s : Str) (bs : List ℕ) → encode s ≡ ok bs → decode_from start bs ≡ ok s
decode_from-encode [] bs h = unfold encode decode_from in ground arith
decode_from-encode (c ∷ s) bs h =
    let (rest, scalar, e, split) = encode_cases c s bs h in
    rw (split, decode_from-encode_char c rest scalar) (rw (decode_from-encode s rest e))

-- Decoding the encoding of a text gives the text.
pub decode-encode : (s : Str) (bs : List ℕ) → encode s ≡ ok bs → decode bs ≡ ok s
unfolding decode
decode-encode s bs h = decode_from-encode s bs h

encode-cons :
    (c : ℕ) (s : Str) (bs : List ℕ)
    → is_scalar c ≡ true
    → encode s ≡ ok bs
    → encode (c ∷ s) ≡ ok (encode_char c ++ bs)
encode-cons c s bs h e = unfold encode in ground arith

-- A text of scalar values is encoded.
pub encode_total : (s : Str) → All (λ c. is_scalar c ≡ true) s → (bs : List ℕ) × (encode s ≡ ok bs)
encode_total [] h = ([], unfold encode in refl)
encode_total (c ∷ s) h =
    let (bs, e) = encode_total s h.1 in (encode_char c ++ bs, encode-cons c s bs h.0 e)

-- No character is encoded by nothing.
encode_char_pos : (c : ℕ) → 1 ≤ length (encode_char c)
unfolding encode_char
encode_char_pos c = ground arith

pub length-encode : (s : Str) (bs : List ℕ) → encode s ≡ ok bs → length s ≤ length bs
length-encode [] bs h = omega arith
length-encode (c ∷ s) bs h =
    let (rest, scalar, e, split) = encode_cases c s bs h in
    rw (split, length-append) (omega (arith, encode_char_pos c, length-encode s rest e))
