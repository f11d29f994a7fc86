-- ===== src/Protocol/Replies/Decoding.antt =====
-- The ends of the decoders of dinit-client/src/dinit_client/protocol.py on any buffer, a rule for each.
use dinix.Shared.{ℕ, zero, suc, Bool, true, false, List, [], ◌∷◌, get_elem?, Option-cases, inl, inr}
use dinix.Exceptions.{struct_error, index_error}
use dinix.Exceptions.Ends.{Ends, value, raised, Ends-if, Ends-bind, OnlyRaises-Ends}
use dinix.Struct.{Abi, Bytes, unpack_from, unpack_signed_from, byte_at}
use dinix.Utf8.{Str, decode}
use dinix.Utf8.Raises.{decode-OnlyRaises}
use dinix.Protocol.Enums.Interface.{IntEnum, from_value-OnlyRaises}
use dinix.Protocol.Enums.{
  from_value, service_state_enum, stopped_reason_enum, service_event_enum, loader_type_enum,
}
use dinix.Protocol.Replies.{
  add_entries, decode_version, decode_service_record, decode_process, decode_mod_time,
  decode_status, decode_dirs, decode_loader_mech, decode_allenv, decode_service_event,
  decode_service_event5, decode_legacy_event, unpack_u32, unpack_size_t, decode_env_event,
}

pub Ends-decode : (bs : Bytes) → Ends (decode bs)
Ends-decode bs = OnlyRaises-Ends (decode bs) (λ e. cc) (decode-OnlyRaises bs)

pub Ends-from_value : {A : Type 0} ⦃e : IntEnum A⦄ (n : ℕ) → Ends (from_value {A = A} n)
Ends-from_value n = OnlyRaises-Ends (from_value n) (λ e. cc) (from_value-OnlyRaises n)

pub Ends-byte_at : (buf : Bytes) (i : ℕ) → Ends (byte_at buf i)
unfolding byte_at
Ends-byte_at buf i = elim (Option-cases (get_elem? buf i)) [
  | inl nothing ↦ rw nothing (raised index_error (λ e. cc))
  | inr (b, found) ↦ rw found (value b)
]

module _ (abi : Abi) where
  pub Ends-unpack_from : (n : ℕ) (buf : Bytes) (k : ℕ) → Ends (unpack_from abi n buf k)
  unfolding unpack_from
  Ends-unpack_from n buf k = Ends-if _ _ _ (value _) (raised struct_error (λ e. cc))

  pub Ends-unpack_signed_from :
      (n : ℕ) (buf : Bytes) (k : ℕ) → Ends (unpack_signed_from abi n buf k)
  unfolding unpack_signed_from
  Ends-unpack_signed_from n buf k = Ends-bind _ _ (Ends-unpack_from n buf k) λ w. value _

ruleset decoding_rules = (
  Ends-if, Ends-bind, value, Ends-decode, Ends-from_value, Ends-byte_at, Ends-unpack_from,
  Ends-unpack_signed_from,
)

pub Ends-add_entries :
    (entries : List Bytes) (env : List (Str × Str)) → Ends (add_entries entries env)
unfolding add_entries
Ends-add_entries [] env = value env
Ends-add_entries ([] ∷ entries) env = Ends-add_entries entries env
Ends-add_entries ((b ∷ entry) ∷ entries) env =
    Ends-bind _ _ (Ends-decode (b ∷ entry)) λ text. Ends-add_entries entries _

module _ (abi : Abi) where
  pub Ends-decode_version : (buf : Bytes) → Ends (decode_version abi buf)
  unfolding decode_version
  Ends-decode_version buf = search decoding_rules depth 9

  pub Ends-decode_service_record : (buf : Bytes) → Ends (decode_service_record abi buf)
  unfolding decode_service_record
  Ends-decode_service_record buf = search decoding_rules depth 14

  Ends-decode_process :
      (buf : Bytes) (version : ℕ) (failed running : Bool)
      → Ends (decode_process abi buf version failed running)
  unfolding decode_process
  Ends-decode_process buf version true running = search decoding_rules depth 9
  Ends-decode_process buf version false true = search decoding_rules depth 9
  Ends-decode_process buf version false false = search decoding_rules depth 9

  Ends-decode_mod_time : (buf : Bytes) (version : ℕ) → Ends (decode_mod_time abi buf version)
  unfolding decode_mod_time
  Ends-decode_mod_time buf version = search decoding_rules depth 9

  pub Ends-decode_status : (buf : Bytes) (version : ℕ) → Ends (decode_status abi buf version)
  unfolding decode_status
  Ends-decode_status buf version =
      search (decoding_rules, Ends-decode_process, Ends-decode_mod_time) depth 24

  Ends-decode_dirs : (count : ℕ) (packet : Bytes) (at : ℕ) → Ends (decode_dirs abi count packet at)
  unfolding decode_dirs
  Ends-decode_dirs zero packet at = value []
  Ends-decode_dirs (suc count) packet at = Ends-bind _ _ (Ends-unpack_from abi 4 packet at) λ size.
      Ends-bind _ _ (Ends-decode _)
        λ dir. Ends-bind _ _ (Ends-decode_dirs count packet _) λ dirs. value _

  pub Ends-decode_loader_mech : (packet : Bytes) → Ends (decode_loader_mech abi packet)
  unfolding decode_loader_mech
  Ends-decode_loader_mech packet = search (decoding_rules, Ends-decode_dirs) depth 18

  pub Ends-decode_allenv : (payload : Bytes) → Ends (decode_allenv abi payload)
  unfolding decode_allenv
  Ends-decode_allenv payload = search (decoding_rules, Ends-add_entries) depth 9

  Ends-decode_service_event :
      (version : ℕ) (payload : Bytes) → Ends (decode_service_event abi version payload)
  unfolding decode_service_event
  Ends-decode_service_event version payload = search (decoding_rules, Ends-decode_status) depth 12

  pub Ends-decode_service_event5 : (payload : Bytes) → Ends (decode_service_event5 abi payload)
  unfolding decode_service_event5
  Ends-decode_service_event5 payload = Ends-decode_service_event 5 payload

  pub Ends-decode_legacy_event : (payload : Bytes) → Ends (decode_legacy_event abi payload)
  unfolding decode_legacy_event
  Ends-decode_legacy_event payload = Ends-decode_service_event 4 payload

  pub Ends-unpack_u32 : (buf : Bytes) (k : ℕ) → Ends (unpack_u32 abi buf k)
  unfolding unpack_u32
  Ends-unpack_u32 buf k = Ends-unpack_from abi 4 buf k

  pub Ends-unpack_size_t : (buf : Bytes) (k : ℕ) → Ends (unpack_size_t abi buf k)
  unfolding unpack_size_t
  Ends-unpack_size_t buf k = Ends-unpack_from abi _ buf k

  pub Ends-decode_env_event : (payload : Bytes) → Ends (decode_env_event abi payload)
  unfolding decode_env_event
  Ends-decode_env_event payload = search decoding_rules depth 9
