-- ===== src/Tests/Requests.antt =====
-- The encoders of dinit-client/src/dinit_client/protocol.py on concrete requests.
use dinix.Shared.{refl, true, [], ◌∷◌, arith}
use dinix.Struct.{Bytes, x86_64}
use dinix.Utf8.{Str, encode, is_scalar, encode_char}
use dinix.Protocol.Enums.{Command}
use dinix.Protocol.Requests.{find_or_load}
use dinix.Protocol.Requests.Layout.{IsPacket, with_name}
use dinix.Protocol.Requests.Names.{find_or_load-IsPacket}

-- "dé"
abbrev name : Str
name = 100 ∷ 233 ∷ []

abbrev raw : Bytes
raw = 100 ∷ 195 ∷ 169 ∷ []

find_or_load-IsPacket_example :
    IsPacket x86_64 (find_or_load x86_64 name true) (with_name Command.loadservice raw)
unfolding encode encode_char is_scalar
find_or_load-IsPacket_example =
    find_or_load-IsPacket x86_64 name true raw refl (omega arith) (omega arith)
