-- ===== src/Stream.antt =====
-- `SocketStream` of anyio, which the client does not implement, and `_Reader` of
-- dinit-client/src/dinit_client/client.py.
pub mod Exact
pub mod Feed
use dinix.Shared.{ℕ, zero, suc, ◌+◌, ◌-◌, ◌≤◌, ◌<◌, ◌≡◌, List, [], ◌∷◌, ◌++◌, length, take, drop}
use dinix.Exceptions.{Exception, Result, ok, err, out_of_fuel}
use dinix.Struct.{Bytes}

pub data Received (A : Type 0) : Type 0 where
  chunk : Bytes → A → Received A
  failed : Exception → A → Received A

-- `receive(max_bytes)` and `send(item)`, on an unknown state.
pub record SocketStream : Type 1 where
  pub State : Type 0
  pub receive : ℕ → State → Received State
  pub send : Bytes → State → Result (Unit {0}) × State

-- What anyio documents of `receive`: while bytes are to come, it returns at least one and at most
-- `max_bytes` of them, in order; after the last it raises.
pub record Delivery (S : SocketStream) (incoming : S.State → Bytes) (n : ℕ) (s : S.State)
    : Type 0 where
  pub count : ℕ
  pub after : S.State
  pub some_bytes : 1 ≤ count
  pub at_most : count ≤ n
  pub available : count ≤ length (incoming s)
  pub received : S.receive n s ≡ chunk (take count (incoming s)) after
  pub remaining : incoming after ≡ drop count (incoming s)

pub record IsStream (S : SocketStream) : Type 0 where
  -- the bytes that are still to come, and the exception behind the last of them
  pub incoming : S.State → Bytes
  pub ending : Exception
  pub delivers : (n : ℕ) (s : S.State) → 1 ≤ n → 1 ≤ length (incoming s) → Delivery S incoming n s
  pub ends :
      (n : ℕ) (s : S.State)
      → incoming s ≡ []
      → (s' : S.State) × (S.receive n s ≡ failed ending s') × (incoming s' ≡ [])

module _ (S : SocketStream) where
  -- The loop of `_Reader.exactly`: what is still to be read, and the parts so far. Each round reads
  -- at least one byte, so `count` rounds are enough.
  unfoldable pub exactly_loop : ℕ → ℕ → Bytes → S.State → Result Bytes × S.State
  exactly_loop fuel zero parts s = (ok parts, s)
  exactly_loop zero (suc remaining) parts s = (err out_of_fuel, s)
  exactly_loop (suc fuel) (suc remaining) parts s = elim (S.receive (suc remaining) s) [
    | chunk b s' ↦ exactly_loop fuel (suc remaining - length b) (parts ++ b) s'
    | failed e s' ↦ (err e, s')
  ]

  unfoldable pub exactly : ℕ → S.State → Result Bytes × S.State
  unfolding exactly_loop
  exactly count s = exactly_loop count count [] s
