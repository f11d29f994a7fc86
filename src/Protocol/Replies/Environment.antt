-- ===== src/Protocol/Replies/Environment.antt =====
-- `decode_allenv` on the block that the daemon sends.
use dinix.Shared.{
  ◌^◌, ◌≤◌, ◌<◌, ◌≡◌, ◌≢◌, refl, List, [], ◌∷◌, ◌++◌, arith, length, length-append, slice-append,
  All,
}
use dinix.Shared.Dict.{insert}
use dinix.Exceptions.{ok}
use dinix.Struct.{Abi, Bytes, word}
use dinix.Struct.RoundTrip.{length-word, unpack_from-word}
use dinix.Utf8.{Str, encode, decode}
use dinix.Utf8.RoundTrip.{decode-encode, length-encode}
use dinix.Protocol.Replies.{partition, split, add_entries, decode_allenv}

-- A variable: its name, its value, and the encoding of `NAME=VALUE`.
pub record Variable : Type 0 where
  pub name : Str
  pub value : Str
  pub raw : Bytes

-- The name has no `=`, and no byte of the entry is the separator.
pub record IsVariable (v : Variable) : Type 0 where
  pub encoded : encode (v.name ++ (b'=' ∷ v.value)) ≡ ok v.raw
  pub plain_name : All (λ c. c ≢ b'=') v.name
  pub plain_bytes : All (λ b. b ≢ 0) v.raw

abbrev pub block_bytes : List Variable → Bytes
block_bytes [] = []
block_bytes (v ∷ vs) = v.raw ++ (0 ∷ block_bytes vs)

-- The assignments, made one after the other.
abbrev pub assigned : List Variable → List (Str × Str) → List (Str × Str)
assigned [] env = env
assigned (v ∷ vs) env = assigned vs (insert v.name v.value env)

partition_at_sign :
    (name value : Str)
    → All (λ c. c ≢ b'=') name
    → partition (name ++ (b'=' ∷ value)) ≡ (name, value)
unfolding partition
partition_at_sign [] value h = refl
partition_at_sign (c ∷ name) value (hc, h) = ground (arith, partition_at_sign name value h)

split_at_zero :
    (raw rest : Bytes) → All (λ b. b ≢ 0) raw → split (raw ++ (0 ∷ rest)) ≡ raw ∷ split rest
unfolding split
split_at_zero [] rest h = refl
split_at_zero (b ∷ raw) rest (hb, h) = ground (arith, split_at_zero raw rest h)

add_entries-cons :
    (text : Str) (raw : Bytes) (entries : List Bytes) (env : List (Str × Str))
    → 1 ≤ length raw
    → decode raw ≡ ok text
    → add_entries (raw ∷ entries) env
      ≡ add_entries entries (insert (partition text).0 (partition text).1 env)
unfolding add_entries
add_entries-cons text [] entries env h e = absurd (omega arith)
add_entries-cons text (b ∷ raw) entries env h e = rw e

add_entries-block :
    (vs : List Variable) (env : List (Str × Str))
    → All IsVariable vs
    → add_entries (split (block_bytes vs)) env ≡ ok (assigned vs env)
add_entries-block [] env h = unfold split add_entries in refl
add_entries-block (v ∷ vs) env (hv, hs) = rw (split_at_zero v.raw (block_bytes vs) hv.plain_bytes) (
    rw
      (add_entries-cons (v.name ++ (b'=' ∷ v.value)) v.raw (split (block_bytes vs)) env
        (omega (
          arith,
          length-encode (v.name ++ (b'=' ∷ v.value)) v.raw hv.encoded,
          length-append v.name (b'=' ∷ v.value),
        ))
        (decode-encode (v.name ++ (b'=' ∷ v.value)) v.raw hv.encoded))
      (rw (partition_at_sign v.name v.value hv.plain_name)
        (add_entries-block vs (insert v.name v.value env) hs)))

-- A block of variables, each ended by a NUL byte and with no `=` in its name and no NUL byte in
-- its entry, behind a length that fits a C `long`, is decoded to the dictionary that the
-- assignments make one after the other, whatever follows the block.
pub decode_allenv-block :
    (abi : Abi) (vs : List Variable) (rest : Bytes)
    → length (block_bytes vs) < 256 ^ abi.sizeof_long
    → All IsVariable vs
    → decode_allenv abi
        (word abi abi.sizeof_long (length (block_bytes vs)) ++ (block_bytes vs ++ rest))
      ≡ ok (assigned vs [])
unfolding decode_allenv
decode_allenv-block abi vs rest h hs =
    let size = length (block_bytes vs) in
    rw (unpack_from-word abi abi.sizeof_long size 0 [] (block_bytes vs ++ rest) h refl) (
      rw
        (slice-append (word abi abi.sizeof_long size) (block_bytes vs) rest abi.sizeof_long size
          (length-word abi abi.sizeof_long size) refl)
        (add_entries-block vs [] hs))
