-- ===== src/Tui/Act.antt =====
-- Code that reads and writes a state and may raise: `await`, `raise` and `try` of
-- tui/src/dinix_tui/app.py. What was written before a raise stays written.
use dinix.Shared.{Bool, List, [], ◌∷◌, if◌then◌else◌}
use dinix.Exceptions.{Exception, Result, ok, err}

abbrev pub Act : Type 0 → Type 0 → Type 0
Act W A = W → Result A × W

module _ {W A : Type 0} where
  abbrev pub pure : A → Act W A
  pure a w = (ok a, w)

  abbrev pub raise : Exception → Act W A
  raise e w = (err e, w)

  abbrev pub lift : Result A → Act W A
  lift r w = (r, w)

  abbrev pub gets : (W → A) → Act W A
  gets f w = (ok (f w), w)

  -- What an `except` clause makes of a result.
  abbrev pub handled : (Exception → Bool) → (Exception → Act W A) → Result A × W → Result A × W
  handled caught f (ok a, w) = (ok a, w)
  handled caught f (err e, w) = (if caught e then f e else raise e) w

  -- `try: m` with an `except` clause for the exceptions that pass the test.
  abbrev pub try : (Exception → Bool) → Act W A → (Exception → Act W A) → Act W A
  try caught m f w = handled caught f (m w)

module _ {W A B : Type 0} where
  abbrev pub next : (A → Act W B) → Result A × W → Result B × W
  next f (ok a, w) = f a w
  next f (err e, w) = (err e, w)

  infixl 5 ◌>>=◌
  abbrev pub ◌>>=◌ : Act W A → (A → Act W B) → Act W B
  ◌>>=◌ m f w = next f (m w)

infixl 5 ◌>>◌
abbrev pub ◌>>◌ : {W B : Type 0} → Act W (Unit {0}) → Act W B → Act W B
m >> k = m >>= λ _. k

abbrev pub modify : {W : Type 0} → (W → W) → Act W (Unit {0})
modify f w = (ok tt, f w)

-- `for x in xs: f(x)`
unfoldable pub for_each : {W A : Type 0} → List A → (A → Act W (Unit {0})) → Act W (Unit {0})
for_each [] f = pure tt
for_each (x ∷ xs) f = f x >> for_each xs f
