-- ===== src/Exceptions/OnlyRaises.antt =====
-- Results that are a value or one given exception, with a rule for each way to build a result.
use dinix.Exceptions.{Exception, Result, ok, err, ◌>>=◌}

pub data OnlyRaises {ℓ} {A : Type ℓ} (e : Exception) : Result A → Type ℓ where
  returns : (a : A) → OnlyRaises e (ok a)
  raises : OnlyRaises e (err e)

module _ {ℓ κ} {A : Type ℓ} {B : Type κ} {e : Exception} where
  pub OnlyRaises-bind :
      {m : Result A} {f : A → Result B}
      → OnlyRaises e m
      → ((a : A) → OnlyRaises e (f a))
      → OnlyRaises e (m >>= f)
  OnlyRaises-bind (returns a) k = k a
  OnlyRaises-bind raises k = raises
