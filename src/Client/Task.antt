-- ===== src/Client/Task.antt =====
-- The state of a client, and the actions on it. The handlers are the closures that the methods pass
-- to `_request`, one constructor for each with what it captures; `Object` is the type of a result.
use dinix.Shared.{ℕ, Bool, Option, List}
use dinix.Exceptions.{Exception, Result, ok, err}
use dinix.Struct.{Bytes}
use dinix.Utf8.{Str}
use dinix.Protocol.Records.{Version, ServiceRecord, ServiceStatus, LoaderMech, Event}
use dinix.Stream.{SocketStream, exactly}

pub data Handler : Type 0 where
  on_version on_list on_record on_ack on_stop on_catlog on_all_env on_load_mech : Handler
  -- the size of a status, taken when the request is made
  on_status : ℕ → Handler

pub data Object : Type 0 where
  nothing : Object
  version : Version → Object
  services : List (Str × ServiceStatus) → Object
  service : ServiceRecord → Object
  status : ServiceStatus → Object
  log : Bytes → Object
  environment : List (Str × Str) → Object
  mechanism : LoaderMech → Object

-- `_Pending`
pub record Pending : Type 0 where
  pub handler : Handler
  pub result : Object
  pub error : Option Exception
  pub done : Bool

pub record Client (S : SocketStream) : Type 0 where
  pub stream : S.State
  pub pending : Option Pending
  pub closed : Bool
  pub version : ℕ
  pub events : List Event
  pub events_closed : Bool

abbrev pub Task : SocketStream → Type 0 → Type 0
Task S A = Client S → Result A × Client S

module _ {S : SocketStream} {A : Type 0} where
  abbrev pub pure : A → Task S A
  pure a c = (ok a, c)

  abbrev pub raise : Exception → Task S A
  raise e c = (err e, c)

  abbrev pub lift : Result A → Task S A
  lift r c = (r, c)

  abbrev pub gets : (Client S → A) → Task S A
  gets f c = (ok (f c), c)

module _ {S : SocketStream} {A B : Type 0} where
  abbrev pub continue : (A → Task S B) → Result A × Client S → Result B × Client S
  continue f (ok a, c) = f a c
  continue f (err e, c) = (err e, c)

infixl 5 ◌>>=◌ ◌>>◌
abbrev pub ◌>>=◌ : {S : SocketStream} {A B : Type 0} → Task S A → (A → Task S B) → Task S B
◌>>=◌ m f c = continue f (m c)

abbrev pub ◌>>◌ : {S : SocketStream} {B : Type 0} → Task S (Unit {0}) → Task S B → Task S B
m >> k = m >>= λ _. k

abbrev pub modify : {S : SocketStream} → (Client S → Client S) → Task S (Unit {0})
modify f c = (ok tt, f c)

-- `self._reader.exactly(count)`
module _ {S : SocketStream} where
  abbrev with_stream : Client S → Result Bytes × S.State → Result Bytes × Client S
  with_stream c (r, s) = (r, record c { stream = s })

  unfoldable pub read : ℕ → Task S Bytes
  read count c = with_stream c (exactly S count c.stream)
