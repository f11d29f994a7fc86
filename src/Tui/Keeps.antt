-- ===== src/Tui/Keeps.antt =====
-- Invariants of the application in every action of tui/src/dinix_tui/app.py: one rule for each way to
-- build an action, whatever the client and the host do.
use dinix.Shared.{Bool, true, false, List, [], ◌∷◌, if◌then◌else◌}
use dinix.Exceptions.{Exception, Result, ok, err}
use dinix.Tui.Act.{Act, pure, raise, lift, gets, handled, try, next, ◌>>=◌, for_each}
use dinix.Tui.State.{App}
use dinix.Tui.Interfaces.{Dinit, Host, World, on_dinit, on_host}

-- The action keeps `P` of the application, whether it returns or raises.
pub record Keeps {D : Dinit} {H : Host} {A : Type 0} (P : App → Type 0) (m : Act (World D H) A)
    : Type 0 where
  pub at : (w : World D H) → P w.app → P ((m w).1.app)

module _ {D : Dinit} {H : Host} {A : Type 0} {P : App → Type 0} where
  pub Keeps-pure : (a : A) → Keeps {D = D} {H = H} P (pure a)
  Keeps-pure a = record { at = λ w h. h }

  pub Keeps-raise : (e : Exception) → Keeps {D = D} {H = H} {A = A} P (raise e)
  Keeps-raise e = record { at = λ w h. h }

  pub Keeps-lift : (r : Result A) → Keeps {D = D} {H = H} P (lift r)
  Keeps-lift r = record { at = λ w h. h }

  pub Keeps-gets : (f : World D H → A) → Keeps P (gets f)
  Keeps-gets f = record { at = λ w h. h }

  pub Keeps-on_dinit : (m : Act D.State A) → Keeps {D = D} {H = H} P (on_dinit m)
  unfolding on_dinit
  Keeps-on_dinit m = record { at = λ w h. h }

  pub Keeps-on_host : (m : Act H.State A) → Keeps {D = D} {H = H} P (on_host m)
  unfolding on_host
  Keeps-on_host m = record { at = λ w h. h }

  pub Keeps-if :
      (b : Bool) (m n : Act (World D H) A) → Keeps P m → Keeps P n → Keeps P (if b then m else n)
  Keeps-if true m n km kn = km
  Keeps-if false m n km kn = kn

  handled-keeps :
      (caught : Exception → Bool) (f : Exception → Act (World D H) A) (r : Result A × World D H)
      → ((e : Exception) → Keeps P (f e))
      → P r.1.app
      → P ((handled caught f r).1.app)
  handled-keeps caught f (ok a, w) kf h = h
  handled-keeps caught f (err e, w) kf h =
      (Keeps-if (caught e) (f e) (raise e) (kf e) (Keeps-raise e)).at w h

  pub Keeps-try :
      (caught : Exception → Bool) (m : Act (World D H) A) (f : Exception → Act (World D H) A)
      → Keeps P m
      → ((e : Exception) → Keeps P (f e))
      → Keeps P (try caught m f)
  Keeps-try caught m f km kf = record { at = λ w h. handled-keeps caught f (m w) kf (km.at w h) }

module _ {D : Dinit} {H : Host} {A B : Type 0} {P : App → Type 0} where
  next-keeps :
      (f : A → Act (World D H) B) (r : Result A × World D H)
      → ((a : A) → Keeps P (f a))
      → P r.1.app
      → P ((next f r).1.app)
  next-keeps f (ok a, w) kf h = (kf a).at w h
  next-keeps f (err e, w) kf h = h

  pub Keeps-bind :
      (m : Act (World D H) A) (f : A → Act (World D H) B)
      → Keeps P m
      → ((a : A) → Keeps P (f a))
      → Keeps P (m >>= f)
  Keeps-bind m f km kf = record { at = λ w h. next-keeps f (m w) kf (km.at w h) }

module _ {D : Dinit} {H : Host} {A : Type 0} {P : App → Type 0} where
  pub Keeps-for_each :
      (xs : List A) (f : A → Act (World D H) (Unit {0}))
      → ((x : A) → Keeps P (f x))
      → Keeps P (for_each xs f)
  unfolding for_each
  Keeps-for_each [] f kf = Keeps-pure tt
  Keeps-for_each (x ∷ xs) f kf =
      Keeps-bind (f x) (λ _. for_each xs f) (kf x) (λ _. Keeps-for_each xs f kf)

pub ruleset keeps_rules = (
  Keeps-pure, Keeps-raise, Keeps-lift, Keeps-gets, Keeps-on_dinit, Keeps-on_host, Keeps-if,
  Keeps-try, Keeps-bind, Keeps-for_each,
)
