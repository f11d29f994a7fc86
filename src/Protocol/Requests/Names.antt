-- ===== src/Protocol/Requests/Names.antt =====
-- The requests that carry a text, `find_or_load` and `setenv` of
-- dinit-client/src/dinit_client/protocol.py: the packet of an accepted text, and the refusals.
use dinix.Shared.{
  suc, ◌≤◌, ◌<◌, ◌≡◌, refl, Bool, true, false, [], ◌∷◌, ◌++◌, arith, le→ltb, lt→ltb, if◌then◌else◌,
  length, ◌⊎◌, inl, inr, Bool-cases,
}
use dinix.Exceptions.{ok, err, value_error}
use dinix.Struct.{Abi, Bytes, word}
use dinix.Struct.RoundTrip.{pack_fits}
use dinix.Utf8.{Str, encode}
use dinix.Protocol.Enums.{Command, command_value, command_enum}
use dinix.Protocol.Requests.{service_name_max, is_malformed, service_name, find_or_load, setenv}
use dinix.Protocol.Requests.Layout.{
  shape, named, with_name, IsPacket, read_request-command, named_body,
}

module _ (abi : Abi) where
  service_name-ok :
      (name : Str) (raw : Bytes)
      → encode name ≡ ok raw
      → 1 ≤ length raw
      → length raw ≤ service_name_max
      → service_name name ≡ ok raw
  service_name-ok name [] e lo hi = absurd (omega arith)
  service_name-ok name (b ∷ raw) e lo hi =
      unfold service_name in rw e (rw (le→ltb service_name_max (suc (length raw)) hi))

  service_name-rejects :
      (name : Str) (raw : Bytes)
      → encode name ≡ ok raw
      → (length raw ≡ 0) ⊎ (service_name_max < length raw)
      → service_name name ≡ err value_error
  service_name-rejects name [] e h = unfold service_name in rw e
  service_name-rejects name (b ∷ raw) e (inl h) = absurd (omega arith)
  service_name-rejects name (b ∷ raw) e (inr h) =
      unfold service_name in rw e (rw (lt→ltb service_name_max (suc (length raw)) h))

  load_shape :
      (load : Bool) → shape (if load then Command.loadservice else Command.findservice) ≡ named
  load_shape true = refl
  load_shape false = refl

  -- For a name whose encoding has between 1 and 1021 bytes, `find_or_load` gives a packet that the
  -- daemon's reader takes apart into `LOADSERVICE` or `FINDSERVICE`, as `load` says, and the
  -- encoded name, with whatever follows the packet left over.
  pub find_or_load-IsPacket :
      (name : Str) (load : Bool) (raw : Bytes)
      → encode name ≡ ok raw
      → 1 ≤ length raw
      → length raw ≤ service_name_max
      → IsPacket abi
          (find_or_load abi name load)
          (with_name (if load then Command.loadservice else Command.findservice) raw)
  find_or_load-IsPacket name load raw e lo hi =
      let cmd = if load then Command.loadservice else Command.findservice in
      let size = word abi 2 (length raw) in
      (
        command_value cmd ∷ (size ++ raw),
        unfold find_or_load in
            rw (service_name-ok name raw e lo hi) (rw (pack_fits abi 2 (length raw) (omega arith))),
        λ rest.
            rw (read_request-command abi cmd ((size ++ raw) ++ rest), load_shape load)
              (named_body abi cmd raw rest hi),
      )

  -- For a name whose encoding is empty or has more than 1021 bytes, `find_or_load` raises a
  -- `ValueError`.
  pub find_or_load-rejects :
      (name : Str) (load : Bool) (raw : Bytes)
      → encode name ≡ ok raw
      → (length raw ≡ 0) ⊎ (service_name_max < length raw)
      → find_or_load abi name load ≡ err value_error
  unfolding find_or_load
  find_or_load-rejects name load raw e h = rw (service_name-rejects name raw e h)

  -- For a variable whose encoding is not empty, does not begin with `=` and has at most 1021
  -- bytes, `setenv` gives a packet that the daemon's reader takes apart into `SETENV` and the
  -- encoded variable, with whatever follows the packet left over.
  pub setenv-IsPacket :
      (variable : Str) (raw : Bytes)
      → encode variable ≡ ok raw
      → is_malformed raw ≡ false
      → length raw ≤ service_name_max
      → IsPacket abi (setenv abi variable) (with_name Command.setenv raw)
  setenv-IsPacket variable raw e form hi =
      let size = word abi 2 (length raw) in
      (
        command_value Command.setenv ∷ (size ++ raw),
        unfold setenv in
            rw (e) (
              rw (form, le→ltb service_name_max (length raw) hi)
                (rw (pack_fits abi 2 (length raw) (omega arith)))),
        λ rest.
            rw (read_request-command abi Command.setenv ((size ++ raw) ++ rest))
              (named_body abi Command.setenv raw rest hi),
      )

  -- For a variable whose encoding is empty, begins with `=` or has more than 1021 bytes, `setenv`
  -- raises a `ValueError`.
  pub setenv-rejects :
      (variable : Str) (raw : Bytes)
      → encode variable ≡ ok raw
      → (is_malformed raw ≡ true) ⊎ (service_name_max < length raw)
      → setenv abi variable ≡ err value_error
  unfolding setenv
  setenv-rejects variable raw e (inl form) = rw (e) (rw form)
  setenv-rejects variable raw e (inr long) = elim (Bool-cases (is_malformed raw)) [
    | inl form ↦ rw (e) (rw form)
    | inr form ↦ rw (e) (rw (form, lt→ltb service_name_max (length raw) long))
  ]
