-- ===== src/Protocol/Replies/Loader.antt =====
-- `decode_loader_mech` on the packet that the daemon sends.
use dinix.Shared.{
  ℕ, ◌+◌, ◌^◌, ◌<◌, ◌≡◌, refl, List, [], ◌∷◌, ◌++◌, append_assoc, arith, length, length-append,
  slice-append, slice, All,
}
use dinix.Exceptions.{Result, ok, ◌>>=◌}
use dinix.Struct.{Abi, Bytes, word}
use dinix.Struct.RoundTrip.{length-word, unpack_from-word, unpack_from-byte}
use dinix.Utf8.{Str, encode, decode}
use dinix.Utf8.RoundTrip.{decode-encode}
use dinix.Protocol.Enums.{
  LoaderType, loader_type_enum, loader_type_value, from_value, Reply, reply_value,
}
use dinix.Protocol.Enums.Values.{from_value-loader_type}
use dinix.Protocol.Records.{LoaderMech}
use dinix.Protocol.Replies.{decode_dirs, decode_loader_mech}

-- A text beside its encoding.
abbrev pub Encoded : Type 0
Encoded = Str × Bytes

abbrev pub IsEncoded : Encoded → Type 0
IsEncoded (text, raw) = (encode text ≡ ok raw) × (length raw < 2 ^ 32)

abbrev pub texts : List Encoded → List Str
texts [] = []
texts ((text, raw) ∷ es) = text ∷ texts es

module _ (abi : Abi) where
  abbrev pub dirs_bytes : List Encoded → Bytes
  dirs_bytes [] = []
  dirs_bytes ((text, raw) ∷ es) = word abi 4 (length raw) ++ (raw ++ dirs_bytes es)

  -- The packet: reply code, loader type, packet size, the two counts, the texts.
  abbrev pub loader_mech_bytes : LoaderType → ℕ → Encoded → List Encoded → Bytes
  loader_mech_bytes loader size (cwd, raw) dirs =
      reply_value Reply.loader_mech
      ∷ loader_type_value loader
      ∷ (word abi 4 size
          ++ (word abi 4 (length dirs) ++ (word abi 4 (length raw) ++ (raw ++ dirs_bytes dirs))))

  decode_dirs-dirs_bytes :
      (dirs : List Encoded) (pre : Bytes) (at : ℕ)
      → length pre ≡ at
      → All IsEncoded dirs
      → decode_dirs abi (length dirs) (pre ++ dirs_bytes dirs) at ≡ ok (texts dirs)
  unfolding decode_dirs
  decode_dirs-dirs_bytes [] pre at h hs = refl
  decode_dirs-dirs_bytes ((text, raw) ∷ dirs) pre at h ((e, small), hs) =
      let size = word abi 4 (length raw) in
      let four = length-word abi 4 (length raw) in
      rw (unpack_from-word abi 4 (length raw) at pre (raw ++ dirs_bytes dirs) small h) (
        rw (← append_assoc pre size (raw ++ dirs_bytes dirs)) (
          rw
            (slice-append (pre ++ size) raw (dirs_bytes dirs) (at + 4) (length raw)
              (omega (arith, length-append pre size, four)) refl)
            (rw (decode-encode text raw e) (
              rw (← append_assoc (pre ++ size) raw (dirs_bytes dirs)) (
                rw (
                  decode_dirs-dirs_bytes dirs ((pre ++ size) ++ raw) (at + 4 + length raw)
                    (omega (arith, length-append (pre ++ size) raw, length-append pre size, four))
                    hs))))))

  abbrev behind_numbers : LoaderType → Bytes → ℕ → ℕ → Result LoaderMech
  behind_numbers loader packet count cwd_len = do
    cwd ← decode (slice packet 14 cwd_len)
    dirs ← decode_dirs abi count packet (14 + cwd_len)
    kind ← from_value (loader_type_value loader)
    ok (record { loader_type = kind; cwd = cwd; dirs = dirs })

  -- What is left once the four numbers have been read.
  loader_texts :
      (loader : LoaderType) (pre : Bytes) (cwd : Str) (raw : Bytes) (dirs : List Encoded)
      → length pre ≡ 10
      → encode cwd ≡ ok raw
      → All IsEncoded dirs
      → let packet = pre ++ (word abi 4 (length raw) ++ (raw ++ dirs_bytes dirs)) in
        behind_numbers loader packet (length dirs) (length raw)
        ≡ ok (record { loader_type = loader; cwd = cwd; dirs = texts dirs })
  loader_texts loader pre cwd raw dirs h e hs =
      let w = word abi 4 (length raw) in
      let four = length-word abi 4 (length raw) in
      rw (← append_assoc pre w (raw ++ dirs_bytes dirs)) (
        rw
          (slice-append (pre ++ w) raw (dirs_bytes dirs) 14 (length raw)
            (omega (arith, length-append pre w, four)) refl)
          (rw (decode-encode cwd raw e) (
            rw (← append_assoc (pre ++ w) raw (dirs_bytes dirs)) (
              rw
                (decode_dirs-dirs_bytes dirs ((pre ++ w) ++ raw) (14 + length raw)
                  (omega (arith, length-append (pre ++ w) raw, length-append pre w, four)) hs)
                (rw (from_value-loader_type loader))))))

  -- A packet on the loader mechanism, with counts and lengths that fit 32 bits, is decoded to the
  -- loader type, the working directory and the directories, in order, that it was built from.
  pub decode_loader_mech-loader_mech_bytes :
      (loader : LoaderType) (size : ℕ) (cwd : Encoded) (dirs : List Encoded)
      → size < 2 ^ 32
      → length dirs < 2 ^ 32
      → IsEncoded cwd
      → All IsEncoded dirs
      → decode_loader_mech abi (loader_mech_bytes loader size cwd dirs)
        ≡ ok (record { loader_type = loader; cwd = cwd.0; dirs = texts dirs })
  unfolding decode_loader_mech
  decode_loader_mech-loader_mech_bytes loader size (cwd, raw) dirs hz hd (e, small) hs =
      let code = reply_value Reply.loader_mech in
      let kind = loader_type_value loader in
      let w1 = word abi 4 size in
      let w2 = word abi 4 (length dirs) in
      let w3 = word abi 4 (length raw) in
      let l1 = length-word abi 4 size in
      let l2 = length-word abi 4 (length dirs) in
      let l3 = length-word abi 4 (length raw) in
      let tail = raw ++ dirs_bytes dirs in
      rw (unpack_from-byte abi code kind (w1 ++ (w2 ++ (w3 ++ tail)))) (
        rw (unpack_from-word abi 4 size 2 (code ∷ kind ∷ []) (w2 ++ (w3 ++ tail)) hz refl) (
          rw
            (unpack_from-word abi 4 (length dirs) 6 (code ∷ kind ∷ w1) (w3 ++ tail) hd
              (omega (arith, l1)))
            (rw (← append_assoc w1 w2 (w3 ++ tail)) (
              rw
                (unpack_from-word abi 4 (length raw) 10 (code ∷ kind ∷ (w1 ++ w2)) tail small
                  (omega (arith, l1, l2, length-append w1 w2)))
                (loader_texts loader (code ∷ kind ∷ (w1 ++ w2)) cwd raw dirs
                  (omega (arith, l1, l2, length-append w1 w2)) e hs)))))
