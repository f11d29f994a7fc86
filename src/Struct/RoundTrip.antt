-- ===== src/Struct/RoundTrip.antt =====
-- What was packed is read back, wherever it stands in a buffer; reads stay within the buffer.
use dinix.Shared.{
  lt→ltb, le→ltb, ℕ, zero, suc, ◌+◌, ◌/◌, ◌^◌, ◌≤◌, ◌<◌, ◌≡◌, refl, ap, ◌∙◌, Bool, true, false, [],
  ◌∷◌, ◌++◌, arith, ltb→lt, le→leb, length, slice, length-append, length-reverse, slice-append,
}
use mathlib.Core.List.{reverse-reverse}
use dinix.Shared.Int.{ℤ, pos, negsuc}
use dinix.Exceptions.{ok, err, struct_error}
use dinix.Struct.{
  Abi, Bytes, le_bytes, le_value, ordered, word, unpack_from, to_signed, of_signed, fits_signed,
  unpack_signed_from, byte_at, pack, pack_signed,
}

length-le_bytes : (n w : ℕ) → length (le_bytes n w) ≡ n
unfolding le_bytes
length-le_bytes zero w = refl
length-le_bytes (suc n) w = ap suc (length-le_bytes n (w / 256))

le_value-le_bytes : (n w : ℕ) → w < 256 ^ n → le_value (le_bytes n w) ≡ w
unfolding le_bytes le_value
le_value-le_bytes zero w h = omega arith
le_value-le_bytes (suc n) w h = omega (arith, le_value-le_bytes n (w / 256))

length-ordered : (b : Bool) (xs : Bytes) → length (ordered b xs) ≡ length xs
unfolding ordered
length-ordered true xs = refl
length-ordered false xs = length-reverse xs

ordered-ordered : (b : Bool) (xs : Bytes) → ordered b (ordered b xs) ≡ xs
unfolding ordered
ordered-ordered true xs = refl
ordered-ordered false xs = reverse-reverse xs

pub length-word : (abi : Abi) (n w : ℕ) → length (word abi n w) ≡ n
unfolding word
length-word abi n w = length-ordered abi.little_endian (le_bytes n w) ∙ length-le_bytes n w

-- `unpack_from` at offset `k` of a buffer that has the word of `w` there.
pub unpack_from-word :
    (abi : Abi) (n w k : ℕ) (pre post : Bytes)
    → w < 256 ^ n
    → length pre ≡ k
    → unpack_from abi n (pre ++ (word abi n w ++ post)) k ≡ ok w
unfolding unpack_from
unpack_from-word abi n w k pre post h hk =
    rw (le→leb (k + n) (length (pre ++ (word abi n w ++ post))) fits) (
      rw (slice-append pre (word abi n w) post k n hk (length-word abi n w))
        (unfold word in rw ordered-ordered (ap ok (le_value-le_bytes n w h))))
  where
    fits : k + n ≤ length (pre ++ (word abi n w ++ post))
    fits =
        rw (length-append pre (word abi n w ++ post), length-append (word abi n w) post)
          (omega (arith, length-word abi n w))

pub to_signed-of_signed : (n : ℕ) (i : ℤ) → fits_signed n i ≡ true → to_signed n (of_signed n i) ≡ i
unfolding to_signed of_signed fits_signed
to_signed-of_signed n (pos w) h = rw h
to_signed-of_signed n (negsuc k) h = ground (arith, ltb→lt k (256 ^ n / 2) h)

pub of_signed-lt : (n : ℕ) (i : ℤ) → fits_signed n i ≡ true → of_signed n i < 256 ^ n
unfolding of_signed fits_signed
of_signed-lt n (pos w) h = omega (arith, ltb→lt w (256 ^ n / 2) h)
of_signed-lt n (negsuc k) h = omega (arith, ltb→lt k (256 ^ n / 2) h)

pub unpack_signed_from-word :
    (abi : Abi) (n : ℕ) (i : ℤ) (k : ℕ) (pre post : Bytes)
    → fits_signed n i ≡ true
    → length pre ≡ k
    → unpack_signed_from abi n (pre ++ (word abi n (of_signed n i) ++ post)) k ≡ ok i
unfolding unpack_signed_from
unpack_signed_from-word abi n i k pre post h hk =
    rw (unpack_from-word abi n (of_signed n i) k pre post (of_signed-lt n i h) hk)
      (ap ok (to_signed-of_signed n i h))

-- A read succeeds wherever the bytes are there.
pub unpack_from_total :
    (abi : Abi) (n : ℕ) (buf : Bytes) (k : ℕ)
    → k + n ≤ length buf
    → (w : ℕ) × (unpack_from abi n buf k ≡ ok w)
unfolding unpack_from
unpack_from_total abi n buf k h =
    (le_value (ordered abi.little_endian (slice buf k n)), rw (le→leb (k + n) (length buf) h))

pub unpack_signed_from_total :
    (abi : Abi) (n : ℕ) (buf : Bytes) (k : ℕ)
    → k + n ≤ length buf
    → (i : ℤ) × (unpack_signed_from abi n buf k ≡ ok i)
unfolding unpack_signed_from
unpack_signed_from_total abi n buf k h =
    let (w, e) = unpack_from_total abi n buf k h in (to_signed n w, rw e)

pub byte_at_total : (buf : Bytes) (i : ℕ) → i < length buf → (b : ℕ) × (byte_at buf i ≡ ok b)
unfolding byte_at
byte_at_total [] i h = elim h [ ]
byte_at_total (b ∷ buf) zero h = (b, refl)
byte_at_total (b ∷ buf) (suc i) h = byte_at_total buf i (omega arith)

-- `pack` within and outside the range of its format.
pub pack_fits : (abi : Abi) (n w : ℕ) → w < 256 ^ n → pack abi n w ≡ ok (word abi n w)
pack_fits abi n w h = unfold pack in rw (lt→ltb w (256 ^ n) h)

pub pack_overflow : (abi : Abi) (n w : ℕ) → 256 ^ n ≤ w → pack abi n w ≡ err struct_error
pack_overflow abi n w h = unfold pack in rw (le→ltb w (256 ^ n) h)

pub pack_signed_fits :
    (abi : Abi) (n : ℕ) (i : ℤ)
    → fits_signed n i ≡ true
    → pack_signed abi n i ≡ ok (word abi n (of_signed n i))
pack_signed_fits abi n i h = unfold pack_signed in rw h

ordered-singleton : (b : Bool) (x : ℕ) → ordered b (x ∷ []) ≡ x ∷ []
unfolding ordered
ordered-singleton true x = refl
ordered-singleton false x = refl

-- `Struct("=B")` reads the byte itself.
pub unpack_from-byte :
    (abi : Abi) (a b : ℕ) (post : Bytes) → unpack_from abi 1 (a ∷ b ∷ post) 1 ≡ ok b
unpack_from-byte abi a b post =
    unfold unpack_from in
    rw (le→leb 2 (suc (suc (length post))) (omega arith))
      (rw (ordered-singleton abi.little_endian b) (ap ok (omega arith)))
