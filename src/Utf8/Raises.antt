-- ===== src/Utf8/Raises.antt =====
-- What `bytes.decode` raises.
use dinix.Shared.{ℕ, zero, suc, Bool, true, false, List, [], ◌∷◌, if◌then◌else◌}
use dinix.Exceptions.{Exception, Result, unicode_decode_error}
use dinix.Exceptions.OnlyRaises.{OnlyRaises, returns, raises, OnlyRaises-bind}
use dinix.Utf8.{Partial, start, first_byte, next_byte, finish, decode_from, decode}

OnlyRaises-if :
    {A : Type 0} {e : Exception} (b : Bool) (x y : Result A)
    → OnlyRaises e x
    → OnlyRaises e y
    → OnlyRaises e (if b then x else y)
OnlyRaises-if true x y hx hy = hx
OnlyRaises-if false x y hx hy = hy

ruleset raising_rules = (OnlyRaises-if, returns, raises)

first_byte-OnlyRaises : (b : ℕ) → OnlyRaises unicode_decode_error (first_byte b)
unfolding first_byte
first_byte-OnlyRaises b = search raising_rules depth 9

next_byte-OnlyRaises :
    (due : ℕ) (p : Partial) (b : ℕ) → OnlyRaises unicode_decode_error (next_byte due p b)
unfolding next_byte
next_byte-OnlyRaises zero p b = first_byte-OnlyRaises b
next_byte-OnlyRaises (suc due) p b = search raising_rules depth 9

finish-OnlyRaises : (due : ℕ) → OnlyRaises unicode_decode_error (finish due)
unfolding finish
finish-OnlyRaises zero = returns []
finish-OnlyRaises (suc due) = raises

decode_from-OnlyRaises :
    (p : Partial) (bs : List ℕ) → OnlyRaises unicode_decode_error (decode_from p bs)
unfolding decode_from
decode_from-OnlyRaises p [] = finish-OnlyRaises p.due
decode_from-OnlyRaises p (b ∷ bs) =
    OnlyRaises-bind (next_byte-OnlyRaises p.due p b)
      λ r. OnlyRaises-bind (decode_from-OnlyRaises r.0 bs) λ s. returns _

pub decode-OnlyRaises : (bs : List ℕ) → OnlyRaises unicode_decode_error (decode bs)
unfolding decode
decode-OnlyRaises bs = decode_from-OnlyRaises start bs
