-- ===== src/Exceptions.antt =====
-- The exceptions that the Python code raises, and results that may be one of them
-- (dinit-client/src/dinit_client/client.py, its exception classes; the built-in exceptions of
-- struct, bytes, str, enum and the file system; the stream exceptions of anyio). Messages are left out.
pub mod OnlyRaises
pub mod Ends
use dinix.Shared.{ℕ, List, Bool, true, false, ◌≡◌, refl}

pub data Exception : Type 0 where
  -- built in: `Enum(x)` and explicit raises, `struct.error`, `buf[i]`, `str.encode`, `bytes.decode`
  value_error struct_error index_error attribute_error unicode_encode_error unicode_decode_error :
      Exception
  -- `DinitError` and its subclasses
  dinit_error connection_closed protocol_error command_rejected bad_request : Exception
  out_of_memory shutting_down pinned : Exception
  dependents : List ℕ → Exception
  service_not_found service_load_error service_description_error signal_not_delivered : Exception
  -- anyio
  end_of_stream closed_resource broken_resource : Exception
  -- `RebuildError` of tui/src/dinix_tui/app.py; `OSError` and its subclasses
  rebuild_error os_error file_not_found file_exists : Exception
  -- what an anyio task group raises for an exception of one of its tasks
  exception_group : Exception → Exception
  -- no exception of the program: a loop of the model used up its rounds
  out_of_fuel : Exception

pub data Result {ℓ} (A : Type ℓ) : Type ℓ where
  ok : A → Result A
  err : Exception → Result A

-- What follows an exception does not run.
module _ {ℓ κ} {A : Type ℓ} {B : Type κ} where
  infixl 5 ◌>>=◌ ◌>>◌
  abbrev pub ◌>>=◌ : Result A → (A → Result B) → Result B
  err raised >>= next = err raised
  ok value >>= next = next value

  abbrev pub ◌>>◌ : Result A → Result B → Result B
  first >> second = first >>= λ _. second

abbrev pub raise_if : Bool → Exception → Result (Unit {0})
raise_if true e = err e
raise_if false e = ok tt
