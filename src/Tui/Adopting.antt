-- ===== src/Tui/Adopting.antt =====
-- What `_nix_reload` of tui/src/dinix_tui/app.py does to the services: each is reloaded once, whatever
-- becomes of the others, and a build that cannot be used changes nothing.
use dinix.Shared.{
  ℕ, ◌+◌, ◌≡◌, refl, sym, subst, ap, ◌∙◌, Bool, true, false, List, [], ◌∷◌, arith, if◌then◌else◌,
}
use dinix.Exceptions.{Result, ok, err}
use dinix.Utf8.{Str}
use dinix.Tui.State.{App, log, reload_failed, emit}
use dinix.Tui.Interfaces.{Dinit, Host, World, on_dinit, is_dinit_error}
use dinix.Tui.Reload.{attempt, reload_each}

-- The call returned, or raised a `DinitError`.
abbrev pub Answers : {A : Type 0} → Result A → Type 0
Answers (ok a) = Unit {0}
Answers (err e) = is_dinit_error e ≡ true

abbrev pub returned : {A : Type 0} → Result A → Bool
returned (ok a) = true
returned (err e) = false

counted :
    (b : Bool) (count n : ℕ)
    → (if b then count + 1 else count) + n ≡ count + ((if b then 1 else 0) + n)
counted true count n = omega arith
counted false count n = omega arith

module _ (D : Dinit) where
  -- The client behind a reload of each name, one after the other, and how many of them returned.
  unfoldable pub reload_all : List Str → D.State → D.State × ℕ
  reload_all [] d = (d, 0)
  reload_all (name ∷ names) d =
      let (r, d') = D.reload name d in
      let (d'', count) = reload_all names d' in (d'', (if returned r then 1 else 0) + count)

module _ (D : Dinit) where
  -- Each of these reloads, one after the other, returns or raises a `DinitError`.
  abbrev pub AnswerAlong : List Str → D.State → Type 0
  AnswerAlong [] d = Unit {0}
  AnswerAlong (name ∷ names) d = Answers (D.reload name d).0 × AnswerAlong names (D.reload name d).1

module _ {D : Dinit} {H : Host} where
  -- Only the screen differs.
  pub record SameButScreen (w w' : World D H) : Type 0 where
    pub same_host : w'.host ≡ w.host
    pub same_app : w'.app ≡ record w.app { screen = w'.app.screen }

  attempted :
      (name : Str) (w : World D H) (r : Result (Unit {0})) (d : D.State)
      → D.reload name w.dinit ≡ (r, d)
      → Answers r
      → (w' : World D H) × (attempt (on_dinit (D.reload name)) (reload_failed name) w
          ≡ (ok (returned r), w'))
        × (w'.dinit ≡ d)
        × SameButScreen w w'
  unfolding attempt on_dinit
  attempted name w (ok x) d e a =
      (record w { dinit = d }, rw e, refl, record { same_host = refl; same_app = refl })
  attempted name w (err x) d e a = (
    record w { dinit = d; app = emit (log (reload_failed name x)) w.app },
    rw e (rw a),
    refl,
    record { same_host = refl; same_app = refl },
  )

  SameButScreen-trans :
      {w w' w'' : World D H} → SameButScreen w w' → SameButScreen w' w'' → SameButScreen w w''
  SameButScreen-trans {w'' = w''} s t = record {
    same_host = t.same_host ∙ s.same_host;
    same_app = t.same_app ∙ ap (λ (a : App). record a { screen = w''.app.screen }) s.same_app;
  }

  -- If the reloads of the names, one after the other, each return or raise a `DinitError`, the
  -- loop of `_nix_reload` makes exactly these reloads, each name once and in order, also behind
  -- one that fails, and returns the count with the number of the reloads that returned added; the
  -- host and the attributes of the application but the screen stay as they were.
  pub reload_each-reload_all :
      (names : List Str) (count : ℕ) (w : World D H)
      → AnswerAlong D names w.dinit
      → (w' : World D H) × (reload_each names count w
          ≡ (ok (count + (reload_all D names w.dinit).1), w'))
        × (w'.dinit ≡ (reload_all D names w.dinit).0)
        × SameButScreen w w'
  unfolding reload_each reload_all
  reload_each-reload_all [] count w h =
      (w, ap (λ n. (ok n, w)) (omega arith), refl, record { same_host = refl; same_app = refl })
  reload_each-reload_all (name ∷ names) count w h =
      let (r, d) = D.reload name w.dinit in
      let (w1, e1, d1, s1) = attempted name w r d refl h.0 in
      let (w2, e2, d2, s2) =
        reload_each-reload_all names (if returned r then count + 1 else count) w1
          (subst (AnswerAlong D names) (sym d1) h.1) in
      let to_count : ℕ → Result ℕ × World D H = λ n. (ok n, w2) in
      (
        w2,
        rw e1 (
            e2
            ∙ ap to_count (
                ap (λ d'. (if returned r then count + 1 else count) + (reload_all D names d').1) d1
                ∙ counted (returned r) count (reload_all D names d).1)),
        d2 ∙ ap (λ d'. (reload_all D names d').0) d1,
        SameButScreen-trans s1 s2,
      )
