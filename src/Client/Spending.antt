-- ===== src/Client/Spending.antt =====
-- The bytes that the actions of the reader (dinit-client/src/dinit_client/client.py) take from the
-- stream, with a rule for each way to build an action.
use dinix.Shared.{
  ℕ, ◌+◌, ◌≤◌, ◌<◌, ◌≢◌, ◌⊎◌, ap, Bool, true, false, arith, if◌then◌else◌, length, length-drop, inl,
  inr,
}
use dinix.Exceptions.{Exception, Result, ok, err, out_of_fuel, protocol_error}
use dinix.Exceptions.Ends.{Ends, value, raised}
use dinix.Struct.{Abi, Bytes}
use dinix.Protocol.Records.{Event}
use dinix.Protocol.Replies.Decoding.{
  Ends-decode, Ends-from_value, Ends-byte_at, Ends-decode_version, Ends-decode_service_record,
  Ends-decode_status, Ends-decode_loader_mech, Ends-decode_allenv, Ends-decode_service_event5,
  Ends-decode_legacy_event, Ends-unpack_u32, Ends-unpack_size_t, Ends-decode_env_event,
}
use dinix.Stream.{SocketStream, IsStream}
use dinix.Stream.Exact.{exactly-Reads, exactly-Fails}
use dinix.Client.Task.{Object, Client, Task, pure, raise, lift, gets, continue, ◌>>=◌, read}
use dinix.Client.Reader.{
  set_result, set_error, reject, read_byte, push_event, dispatch_info, info_packet,
}

le_or_lt : (a b : ℕ) → (a ≤ b) ⊎ (b < a)
le_or_lt a b = ground arith

module _ (S : SocketStream) (L : IsStream S) where
  -- The bytes that are still to come.
  abbrev pub to_come : Client S → ℕ
  to_come c = length (L.incoming c.stream)

  -- An end with at least `least` bytes taken if a value is returned, of `before` at first.
  pub data Spent {A : Type 0} (least before : ℕ) : Result A × Client S → Type 0 where
    returns : (a : A) (c : Client S) → to_come c + least ≤ before → Spent least before (ok a, c)
    raises :
        (e : Exception) (c : Client S)
        → e ≢ out_of_fuel
        → to_come c ≤ before
        → Spent least before (err e, c)

  -- A task, started with at most `n` bytes to come.
  pub record Spends {A : Type 0} (n least : ℕ) (m : Task S A) : Type 0 where
    pub at : (c : Client S) → to_come c ≤ n → Spent least (to_come c) (m c)

module _ {S : SocketStream} {L : IsStream S} {A : Type 0} (n : ℕ) where
  pub Spends-pure : (a : A) → Spends S L n 0 (pure a)
  Spends-pure a = record { at = λ c h. returns a c (omega arith) }

  pub Spends-raise :
      (e : Exception) (least : ℕ) → e ≢ out_of_fuel → Spends S L {A = A} n least (raise e)
  Spends-raise e least other = record { at = λ c h. raises e c other (omega arith) }

  lifted : (r : Result A) (c : Client S) → Ends r → Spent S L 0 (to_come S L c) (r, c)
  lifted r c (value a) = returns a c (omega arith)
  lifted r c (raised e other) = raises e c other (omega arith)

  pub Spends-lift : (r : Result A) → Ends r → Spends S L n 0 (lift r)
  Spends-lift r ends = record { at = λ c h. lifted r c ends }

  pub Spends-gets : (f : Client S → A) → Spends S L n 0 (gets f)
  Spends-gets f = record { at = λ c h. returns (f c) c (omega arith) }

  pub Spends-if :
      (b : Bool) (m k : Task S A)
      → Spends S L n 0 m
      → Spends S L n 0 k
      → Spends S L n 0 (if b then m else k)
  Spends-if true m k hm hk = hm
  Spends-if false m k hm hk = hk

module _ {S : SocketStream} {L : IsStream S} {A B : Type 0} (n : ℕ) where
  -- Behind a task that takes some bytes, what follows has less of them.
  continued :
      (least before : ℕ) (f : A → Task S B) (r : Result A × Client S)
      → before ≤ n
      → Spent S L least before r
      → ((a : A) (j : ℕ) → j + least ≤ n → Spends S L j 0 (f a))
      → Spent S L least before (continue f r)
  continued least before f r h (returns a c left) hf =
      further (f a c) ((hf a (to_come S L c) (omega arith)).at c (omega arith)) left
    where
      further :
          (r : Result B × Client S) {j : ℕ}
          → Spent S L 0 j r
          → j + least ≤ before
          → Spent S L least before r
      further r (returns b d less) left = returns b d (omega arith)
      further r (raises e d other less) left = raises e d other (omega arith)
  continued least before f r h (raises e c other left) hf = raises e c other left

  pub Spends-strict :
      (least : ℕ) (m : Task S A) (f : A → Task S B)
      → Spends S L n least m
      → ((a : A) (j : ℕ) → j + least ≤ n → Spends S L j 0 (f a))
      → Spends S L n least (m >>= f)
  Spends-strict least m f hm hf = record {
    at = λ c h. continued least (to_come S L c) f (m c) h (hm.at c h) hf;
  }

module _ {S : SocketStream} {L : IsStream S} {A : Type 0} where
  pub Spends-fewer :
      (n j least : ℕ) (m : Task S A) → j ≤ n → Spends S L n least m → Spends S L j least m
  Spends-fewer n j least m h hm = record { at = λ c few. hm.at c (omega arith) }

  pub Spends-weaken : {n least : ℕ} {m : Task S A} → Spends S L n least m → Spends S L n 0 m
  Spends-weaken {m} hm = record { at = λ c h. at_least (m c) (hm.at c h) }
    where
      at_least :
          (r : Result A × Client S) {before least : ℕ}
          → Spent S L least before r
          → Spent S L 0 before r
      at_least r (returns a d left) = returns a d (omega arith)
      at_least r (raises e d other left) = raises e d other left

module _ {S : SocketStream} {L : IsStream S} {A B : Type 0} (n : ℕ) where
  pub Spends-bind :
      (m : Task S A) (f : A → Task S B)
      → Spends S L n 0 m
      → ((a : A) → Spends S L n 0 (f a))
      → Spends S L n 0 (m >>= f)
  Spends-bind m f hm hf =
      Spends-strict n 0 m f hm λ a j few. Spends-fewer n j 0 (f a) (omega arith) (hf a)

-- The reads, on a stream whose last exception is not of the model.
module _ {S : SocketStream} {L : IsStream S} (quiet : L.ending ≢ out_of_fuel) where
  pub Spent-read : (count : ℕ) (c : Client S) → Spent S L count (to_come S L c) (read count c)
  unfolding read
  Spent-read count c = elim (le_or_lt count (to_come S L c)) [
    | inl enough ↦
        let (s', e, left) = exactly-Reads S L count c.stream enough in
        rw e (
          returns _ _
            (omega (arith, ap length left, length-drop count (L.incoming c.stream), enough)))
    | inr short ↦
        let (s', e, left) = exactly-Fails S L count c.stream short in
        rw e (raises L.ending _ quiet (omega (arith, ap length left)))
  ]

  pub Spends-some : (n count : ℕ) → Spends S L n count (read count)
  Spends-some n count = record { at = λ c h. Spent-read count c }

  pub Spends-read : (n count : ℕ) → Spends S L n 0 (read count)
  Spends-read n count = Spends-weaken (Spends-some n count)

  -- A byte is taken, or there is none.
  pub Spends-read_byte : (n : ℕ) → Spends S L n 1 read_byte
  unfolding read_byte
  Spends-read_byte n =
      Spends-strict n 1 (read 1) _ (Spends-some n 1) λ bs j few. Spends-lift j _ (Ends-byte_at bs 0)

  pub Spends-byte : (n : ℕ) → Spends S L n 0 read_byte
  unfolding read_byte
  Spends-byte n =
      Spends-bind n (read 1) _ (Spends-read n 1) λ bs. Spends-lift n _ (Ends-byte_at bs 0)

module _ {S : SocketStream} {L : IsStream S} (n : ℕ) where
  pub Spends-set_result : (obj : Object) → Spends S L n 0 (set_result obj)
  unfolding set_result
  Spends-set_result obj = record { at = λ c h. returns tt _ (omega arith) }

  pub Spends-set_error : (e : Exception) → Spends S L n 0 (set_error e)
  unfolding set_error
  Spends-set_error e = record { at = λ c h. returns tt _ (omega arith) }

  pub Spends-push_event : (event : Event) → Spends S L n 0 (push_event event)
  unfolding push_event
  Spends-push_event event = record { at = λ c h. returns tt _ (omega arith) }

pub ruleset spending_rules = (
  Spends-pure, Spends-lift, Spends-gets, Spends-if, Spends-bind, Spends-read, Spends-byte,
  Spends-set_result, Spends-set_error, Spends-push_event, Ends-decode, Ends-from_value,
  Ends-byte_at, Ends-decode_version, Ends-decode_service_record, Ends-decode_status,
  Ends-decode_loader_mech, Ends-decode_allenv, Ends-decode_service_event5, Ends-decode_legacy_event,
  Ends-unpack_u32, Ends-unpack_size_t, Ends-decode_env_event,
)

module _ {S : SocketStream} {L : IsStream S} (quiet : L.ending ≢ out_of_fuel) (abi : Abi) where
  pub Spends-reject : (n reply : ℕ) → Spends S L n 0 (reject reply)
  unfolding reject
  Spends-reject n reply = search spending_rules

  pub Spends-refuse : (n : ℕ) {A : Type 0} → Spends S L {A = A} n 0 (raise protocol_error)
  Spends-refuse n = Spends-raise n protocol_error 0 (λ e. cc)

  pub Spends-dispatch_info :
      (n kind : ℕ) (payload : Bytes) → Spends S L n 0 (dispatch_info abi kind payload)
  unfolding dispatch_info
  Spends-dispatch_info n kind payload = search spending_rules depth 9

  pub Spends-info_packet :
      (n : ℕ) (behind : Task S ℕ) (kind : ℕ)
      → Spends S L n 0 behind
      → Spends S L n 0 (info_packet abi behind kind)
  unfolding info_packet
  Spends-info_packet n behind kind h =
      search (spending_rules, Spends-dispatch_info, Spends-refuse) depth 9

  pub Spends-elim :
      {A : Type 0} (n : ℕ) (b : Bool) (m k : Task S A)
      → Spends S L n 0 m
      → Spends S L n 0 k
      → Spends S L n 0 (elim b [ true ↦ m | false ↦ k ])
  Spends-elim n true m k hm hk = hm
  Spends-elim n false m k hm hk = hk
