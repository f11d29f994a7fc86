-- ===== src/Exceptions/Ends.antt =====
-- Results that no loop of the model has cut short, with a rule for each way to build a result.
use dinix.Shared.{◌≢◌, Bool, true, false, if◌then◌else◌}
use dinix.Exceptions.{Exception, Result, ok, err, out_of_fuel, ◌>>=◌}
use dinix.Exceptions.OnlyRaises.{OnlyRaises, returns, raises}

pub data Ends {A : Type 0} : Result A → Type 0 where
  value : (a : A) → Ends (ok a)
  raised : (e : Exception) → e ≢ out_of_fuel → Ends (err e)

module _ {A : Type 0} where
  pub Ends-if : (b : Bool) (x y : Result A) → Ends x → Ends y → Ends (if b then x else y)
  Ends-if true x y hx hy = hx
  Ends-if false x y hx hy = hy

  pub OnlyRaises-Ends : {e : Exception} (r : Result A) → e ≢ out_of_fuel → OnlyRaises e r → Ends r
  OnlyRaises-Ends r other (returns a) = value a
  OnlyRaises-Ends r other raises = raised _ other

module _ {A B : Type 0} where
  pub Ends-bind :
      (m : Result A) (f : A → Result B) → Ends m → ((a : A) → Ends (f a)) → Ends (m >>= f)
  Ends-bind m f (value a) hf = hf a
  Ends-bind m f (raised e other) hf = raised e other
