-- ===== src/Tui/Rejecting.antt =====
-- `_nix_reload` of tui/src/dinix_tui/app.py on a build that cannot be used: what it leaves as it was.
use dinix.Shared.{ap, ◌≡◌, refl, ◌∙◌, Bool, false, Option, none, some, List, [], ◌∷◌}
use dinix.Exceptions.{Exception, Result, ok, err, rebuild_error}
use dinix.Utf8.{Str}
use dinix.Tui.Act.{Act, lift, raise, gets, next, ◌>>=◌, for_each}
use dinix.Tui.State.{App, Output, log, notify, emit, rebuilding, running_rebuild}
use dinix.Tui.Interfaces.{Dinit, Host, World, on_host}
use dinix.Tui.Text.{child}
use dinix.Tui.Reload.{
  output, run_command, by_command, rebuild, rebuild_with, find_services, nix_reload, services_name,
}

-- Dinit is not called, and of the application only the calls on the widgets are more.
pub record Spared {D : Dinit} {H : Host} (w w' : World D H) : Type 0 where
  pub same_dinit : w'.dinit ≡ w.dinit
  pub same_app : w'.app ≡ record w.app { screen = w'.app.screen }

-- An action that spares dinit, whether it returns or raises.
record Spares {D : Dinit} {H : Host} {A : Type 0} (m : Act (World D H) A) : Type 0 where
  pub at : (w : World D H) → Spared w ((m w).1)

Spared-refl : {D : Dinit} {H : Host} (w : World D H) → Spared w w
Spared-refl w = record { same_dinit = refl; same_app = refl }

Spared-trans : {D : Dinit} {H : Host} {u v w : World D H} → Spared u v → Spared v w → Spared u w
Spared-trans {w = w} s t = record {
  same_dinit = t.same_dinit ∙ s.same_dinit;
  same_app = t.same_app ∙ ap (λ (a : App). record a { screen = w.app.screen }) s.same_app;
}

module _ {D : Dinit} {H : Host} {A : Type 0} where
  Spares-raise : (e : Exception) → Spares {D = D} {H = H} {A = A} (raise e)
  Spares-raise e = record { at = λ w. Spared-refl w }

  Spares-lift : (r : Result A) → Spares {D = D} {H = H} (lift r)
  Spares-lift r = record { at = λ w. Spared-refl w }

  Spares-gets : (f : World D H → A) → Spares (gets f)
  Spares-gets f = record { at = λ w. Spared-refl w }

  Spares-on_host : (m : Act H.State A) → Spares {D = D} {H = H} (on_host m)
  unfolding on_host
  Spares-on_host m = record { at = λ w. record { same_dinit = refl; same_app = refl } }

Spares-output : {D : Dinit} {H : Host} (o : Output) → Spares {D = D} {H = H} (output o)
Spares-output o = record { at = λ w. record { same_dinit = refl; same_app = refl } }

module _ {D : Dinit} {H : Host} {A B : Type 0} where
  next-Spared :
      (f : A → Act (World D H) B) (r : Result A × World D H) (w : World D H)
      → ((a : A) → Spares (f a))
      → Spared w r.1
      → Spared w ((next f r).1)
  next-Spared f (ok a, v) w sf h = Spared-trans h ((sf a).at v)
  next-Spared f (err e, v) w sf h = h

  Spares-bind :
      (m : Act (World D H) A) (f : A → Act (World D H) B)
      → Spares m
      → ((a : A) → Spares (f a))
      → Spares (m >>= f)
  Spares-bind m f sm sf = record { at = λ w. next-Spared f (m w) w sf (sm.at w) }

Spares-for_each :
    {D : Dinit} {H : Host} {A : Type 0} (xs : List A) (f : A → Act (World D H) (Unit {0}))
    → ((x : A) → Spares (f x))
    → Spares (for_each xs f)
unfolding for_each
Spares-for_each [] f sf = record { at = λ w. Spared-refl w }
Spares-for_each (x ∷ xs) f sf =
    Spares-bind (f x) (λ _. for_each xs f) (sf x) (λ _. Spares-for_each xs f sf)

ruleset spares_rules = (
  Spares-raise, Spares-lift, Spares-gets, Spares-on_host, Spares-output, Spares-bind,
  Spares-for_each,
)

-- What an unusable build raises.
abbrev pub complaint : Result Str → Exception
complaint (ok config_dir) = rebuild_error
complaint (err e) = e

module _ {D : Dinit} {H : Host} where
  Spares-run_command : (command : Str) → Spares {D = D} {H = H} (run_command command)
  unfolding run_command
  Spares-run_command command = search spares_rules

  Spares-by_command : (command : Option Str) → Spares {D = D} {H = H} (by_command command)
  unfolding by_command
  Spares-by_command none = Spares-raise rebuild_error
  Spares-by_command (some command) = Spares-run_command command

  Spares-rebuild_with :
      (rebuilder : Option (Act H.State Str)) → Spares {D = D} {H = H} (rebuild_with rebuilder)
  unfolding rebuild_with
  Spares-rebuild_with (some rebuilder) = Spares-on_host rebuilder
  Spares-rebuild_with none = Spares-bind _ _ (Spares-gets _) Spares-by_command

  -- The world in which the rebuild starts.
  abbrev pub announced : World D H → World D H
  announced w = record w { app = emit (log running_rebuild) (emit (notify rebuilding) w.app) }

  announced-Spared : (w : World D H) → Spared w (announced w)
  announced-Spared w = record { same_dinit = refl; same_app = refl }

  -- The rebuild raised, or its directory has no directory of services.
  abbrev pub Unusable : Result Str × World D H → Type 0
  Unusable (ok config_dir, w) = H.is_dir (child config_dir services_name) w.host ≡ false
  Unusable (err e, w) = Unit {0}

  rejected_by :
      (restart_running : Bool) (w v : World D H) (r : Result Str)
      → rebuild (announced w) ≡ (r, v)
      → Unusable (r, v)
      → nix_reload restart_running w ≡ (err (complaint r), v)
  unfolding nix_reload find_services
  rejected_by b w v (ok config_dir) e u = rw e (rw u)
  rejected_by b w v (err x) e u = rw e

  -- If the rebuild raises, or the directory that it returns has no directory `services`,
  -- `_nix_reload` raises the exception of the rebuild, or `RebuildError`, in the state that the
  -- rebuild left: the pointer is not touched, dinit is not called, and the attributes of the
  -- application are as they were.
  pub nix_reload-rejects :
      (restart_running : Bool) (w : World D H)
      → Unusable (rebuild (announced w))
      → (nix_reload restart_running w
          ≡ (err (complaint (rebuild (announced w)).0), (rebuild (announced w)).1))
        × Spared w (nix_reload restart_running w).1
  nix_reload-rejects b w u =
      let (r, v) = rebuild (announced w) in
      let e = rejected_by b w v r refl u in
      (
        e,
        rw e (
            Spared-trans (announced-Spared w)
              (unfold rebuild in (Spares-rebuild_with H.rebuilder).at (announced w))),
      )
