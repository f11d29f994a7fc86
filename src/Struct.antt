-- ===== src/Struct.antt =====
-- The use that dinit-client/src/dinit_client/protocol.py makes of Python's `struct` and of `bytes`:
-- integers of a fixed number of bytes in the byte order of the host, C's sizes, indexing.
pub mod RoundTrip
use dinix.Shared.{
  ℕ, zero, suc, ◌+◌, ◌-◌, ◌*◌, ◌/◌, ◌%◌, ◌^◌, max, Bool, true, false, ◌&&◌, Option, none, some,
  List, [], ◌∷◌, ◌++◌, reverse, ltb, leb, if◌then◌else◌, length, get_elem?, slice,
}
use dinix.Shared.Int.{ℤ, pos, negsuc}
use dinix.Exceptions.{Result, ok, err, struct_error, index_error, ◌>>=◌}

-- What `struct` knows of the host: the byte order and the sizes of C's `int` and `long`.
pub record Abi : Type 0 where
  pub little_endian : Bool
  pub sizeof_int : ℕ
  pub sizeof_long : ℕ

abbrev pub x86_64 : Abi
x86_64 = record { little_endian = true; sizeof_int = 4; sizeof_long = 8 }

abbrev pub Bytes : Type 0
Bytes = List ℕ

-- `n` bytes, the lowest first.
unfoldable pub le_bytes : ℕ → ℕ → Bytes
le_bytes zero w = []
le_bytes (suc n) w = (w % 256) ∷ le_bytes n (w / 256)

unfoldable pub le_value : Bytes → ℕ
le_value [] = 0
le_value (b ∷ bs) = b + 256 * le_value bs

unfoldable pub ordered : Bool → Bytes → Bytes
ordered true bs = bs
ordered false bs = reverse bs

-- The bytes of a number, without the range check.
unfoldable pub word : Abi → ℕ → ℕ → Bytes
unfolding le_bytes ordered
word abi n w = ordered abi.little_endian (le_bytes n w)

-- `Struct("=H")`, `Struct("=I")`, `Struct("@L")`: the unsigned formats, of `n` bytes.
unfoldable pub pack : Abi → ℕ → ℕ → Result Bytes
unfolding word
pack abi n w = if ltb w (256 ^ n) then ok (word abi n w) else err struct_error

unfoldable pub unpack_from : Abi → ℕ → Bytes → ℕ → Result ℕ
unfolding le_value ordered
unpack_from abi n buf offset =
    if leb (offset + n) (length buf)
    then ok (le_value (ordered abi.little_endian (slice buf offset n)))
    else err struct_error

-- Two's complement in `n` bytes: `Struct("@i")`, `Struct("@l")`.
unfoldable pub to_signed : ℕ → ℕ → ℤ
to_signed n w = if ltb w (256 ^ n / 2) then pos w else negsuc (256 ^ n - w - 1)

unfoldable pub of_signed : ℕ → ℤ → ℕ
of_signed n (pos w) = w
of_signed n (negsuc k) = 256 ^ n - k - 1

unfoldable pub fits_signed : ℕ → ℤ → Bool
fits_signed n (pos w) = ltb w (256 ^ n / 2)
fits_signed n (negsuc k) = ltb k (256 ^ n / 2)

unfoldable pub pack_signed : Abi → ℕ → ℤ → Result Bytes
unfolding word of_signed fits_signed
pack_signed abi n i = if fits_signed n i then ok (word abi n (of_signed n i)) else err struct_error

unfoldable pub unpack_signed_from : Abi → ℕ → Bytes → ℕ → Result ℤ
unfolding unpack_from to_signed
unpack_signed_from abi n buf offset = do w ← unpack_from abi n buf offset; ok (to_signed n w)

-- `buf[i]`
or_index_error : Option ℕ → Result ℕ
or_index_error none = err index_error
or_index_error (some b) = ok b

unfoldable pub byte_at : Bytes → ℕ → Result ℕ
unfolding or_index_error
byte_at buf i = or_index_error (get_elem? buf i)
