-- ===== src/Protocol/Requests/Flags.antt =====
-- The flag byte of `start_stop` (dinit-client/src/dinit_client/protocol.py).
use dinix.Shared.{◌<◌, ◌≡◌, refl, Bool, true, false, arith}
use dinix.Protocol.Records.{has_flag}
use dinix.Protocol.Requests.{start_stop_flags}

-- In the flag byte of `start_stop`, bits 0x01, 0x02, 0x04 and 0x80 are set exactly if `pin`,
-- `gentle`, `restart` and `preack` are given, and the byte is below 256.
pub start_stop_flags_bits :
    (pin gentle restart preack : Bool)
    → let flags = start_stop_flags pin gentle restart preack in
      (has_flag flags 0x01 ≡ pin)
      × (has_flag flags 0x02 ≡ gentle)
      × (has_flag flags 0x04 ≡ restart)
      × (has_flag flags 0x80 ≡ preack)
      × (flags < 256)
unfolding start_stop_flags
start_stop_flags_bits true true true true = (refl, refl, refl, refl, omega arith)
start_stop_flags_bits true true true false = (refl, refl, refl, refl, omega arith)
start_stop_flags_bits true true false true = (refl, refl, refl, refl, omega arith)
start_stop_flags_bits true true false false = (refl, refl, refl, refl, omega arith)
start_stop_flags_bits true false true true = (refl, refl, refl, refl, omega arith)
start_stop_flags_bits true false true false = (refl, refl, refl, refl, omega arith)
start_stop_flags_bits true false false true = (refl, refl, refl, refl, omega arith)
start_stop_flags_bits true false false false = (refl, refl, refl, refl, omega arith)
start_stop_flags_bits false true true true = (refl, refl, refl, refl, omega arith)
start_stop_flags_bits false true true false = (refl, refl, refl, refl, omega arith)
start_stop_flags_bits false true false true = (refl, refl, refl, refl, omega arith)
start_stop_flags_bits false true false false = (refl, refl, refl, refl, omega arith)
start_stop_flags_bits false false true true = (refl, refl, refl, refl, omega arith)
start_stop_flags_bits false false true false = (refl, refl, refl, refl, omega arith)
start_stop_flags_bits false false false true = (refl, refl, refl, refl, omega arith)
start_stop_flags_bits false false false false = (refl, refl, refl, refl, omega arith)
