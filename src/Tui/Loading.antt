-- ===== src/Tui/Loading.antt =====
-- `_load_every_service` and `_consume_events` of tui/src/dinix_tui/app.py together: the handles of the
-- loads are those of the events.
use dinix.Shared.{
  ℕ, ◌≡◌, refl, ap, ◌∙◌, true, ◌==◌, some, List, [], ◌∷◌, arith, Bool-cases, inl, inr, ◌⊎◌,
}
use dinix.Shared.Dict.{key_eq, key_eq_refl, key_eq_iff}
use dinix.Exceptions.{ok}
use dinix.Utf8.{Str}
use dinix.Protocol.Records.{ServiceRecord, ServiceEventInfo, service_event}
use dinix.Tui.Act.{for_each}
use dinix.Tui.State.{contains, log, emit, event_line, set_row}
use dinix.Tui.Interfaces.{Dinit, Host, World, on_dinit}
use dinix.Tui.Handles.{name_of, assign, name_of-assign}
use dinix.Tui.Worker.{load_service, consume_event, show_event, row}

-- The loads of the services, one after the other, return records with these handles.
abbrev pub LoadsAlong : (D : Dinit) → (Str → ℕ) → List Str → D.State → Type 0
LoadsAlong D handle_of [] d = Unit {0}
LoadsAlong D handle_of (name ∷ names) d =
    (r : ServiceRecord) × (d' : D.State) × (D.load name d ≡ (ok r, d'))
    × (r.handle ≡ handle_of name)
    × LoadsAlong D handle_of names d'

-- No two of the services have the same handle.
pub record Distinct (handle_of : Str → ℕ) (services : List Str) : Type 0 where
  pub distinct :
      (m n : Str)
      → contains services m ≡ true
      → contains services n ≡ true
      → handle_of m ≡ handle_of n
      → m ≡ n

-- The name is registered under its handle.
abbrev pub Registered : (Str → ℕ) → List (ℕ × Str) → Str → Type 0
Registered handle_of names name = name_of (handle_of name) names ≡ some name

nothing_else :
    (handle_of : Str → ℕ) (known : List (ℕ × Str)) (n : Str)
    → (contains [] n ≡ true) ⊎ Registered handle_of known n
    → Registered handle_of known n
unfolding contains
nothing_else handle_of known n (inl e) = absurd (ground (arith, e))
nothing_else handle_of known n (inr k) = k

in_head : (names : List Str) (m : Str) → contains (m ∷ names) m ≡ true
unfolding contains
in_head names m = rw (key_eq_refl m)

in_tail : (names : List Str) (m n : Str) → contains names n ≡ true → contains (m ∷ names) n ≡ true
unfolding contains
in_tail names m n h = ground (arith, h)

same_test : (a b : ℕ) → a ≡ b → (a == b) ≡ true
same_test a b e = ground arith

module _ (handle_of : Str → ℕ) (services : List Str) (l : Distinct handle_of services) where
  assign-Registered :
      (names : List (ℕ × Str)) (m n : Str)
      → contains services m ≡ true
      → contains services n ≡ true
      → (key_eq m n ≡ true) ⊎ Registered handle_of names n
      → Registered handle_of (assign (handle_of m) m names) n
  assign-Registered names m n hm hn (inl e) =
      let same : m ≡ n = (key_eq_iff m n).0 e in
      name_of-assign (handle_of m) (handle_of n) m names
      ∙ rw (same_test (handle_of m) (handle_of n) (ap handle_of same)) (ap some same)
  assign-Registered names m n hm hn (inr known) =
      name_of-assign (handle_of m) (handle_of n) m names
      ∙ elim (Bool-cases (handle_of m == handle_of n)) [
        | inl same ↦ rw same (ap some (l.distinct m n hm hn (ground (arith, same))))
        | inr other ↦ rw other known
      ]

  -- A name is that of the load, or among the others, or known before.
  after_load :
      (names : List Str) (known : List (ℕ × Str)) (m n : Str) (h : ℕ)
      → h ≡ handle_of m
      → contains services m ≡ true
      → contains services n ≡ true
      → (contains (m ∷ names) n ≡ true) ⊎ Registered handle_of known n
      → (contains names n ≡ true) ⊎ Registered handle_of (assign h m known) n
  unfolding contains
  after_load names known m n h at hm hn (inl e) = elim (Bool-cases (key_eq m n)) [
    | inl same ↦ inr (rw at (assign-Registered known m n hm hn (inl same)))
    | inr other ↦ inl (ground (arith, other, e))
  ]
  after_load names known m n h at hm hn (inr k) =
      inr (rw at (assign-Registered known m n hm hn (inr k)))

module _ {D : Dinit} {H : Host} where
  -- The world once an event of a known service has been shown.
  abbrev pub with_event : Str → ServiceEventInfo → World D H → World D H
  with_event name e w = record w {
    app = set_row name e.status (emit (log (event_line name e.event e.status.state)) w.app);
  }

module _ {D : Dinit} {H : Host} (handle_of : Str → ℕ) (services : List Str)
    (l : Distinct handle_of services) where
  loaded :
      (names : List Str) (w : World D H)
      → LoadsAlong D handle_of names w.dinit
      → ((n : Str) → contains names n ≡ true → contains services n ≡ true)
      → (w' : World D H) × (for_each names load_service w ≡ (ok tt, w'))
        × ((n : Str)
            → contains services n ≡ true
            → (contains names n ≡ true) ⊎ Registered handle_of w.app.handle_names n
            → Registered handle_of w'.app.handle_names n)
  unfolding for_each load_service on_dinit
  loaded [] w lo within = (w, refl, λ n _. nothing_else handle_of w.app.handle_names n)
  loaded (m ∷ names) w (r, d, e, at, lo) within =
      let w1 : World D H = record w {
        dinit = d;
        app = record w.app { handle_names = assign r.handle m w.app.handle_names };
      } in
      let (w2, e2, keeps) = loaded names w1 lo (λ n h. within n (in_tail names m n h)) in
      (
        w2,
        rw e e2,
        λ n hn k. keeps n hn (
            after_load handle_of services l names w.app.handle_names m n r.handle at
              (within m (in_head names m)) hn k),
      )

  shown_event :
      (name : Str) (e : ServiceEventInfo) (w : World D H)
      → e.handle ≡ handle_of name
      → Registered handle_of w.app.handle_names name
      → consume_event (service_event e) w ≡ (ok tt, with_event name e w)
  unfolding consume_event show_event row
  shown_event name e w at known = rw at (rw known)

-- If the loads of the names, one after the other, return records, the handle of each name's record
-- is that of the name, and no two of the names have the same handle, the loop of
-- `_load_every_service` over the names ends without an exception, and in any later world with the
-- same `_handle_names` the event of the handle of one of the names logs its line and sets the row
-- of that name, and does nothing else.
pub for_each-load_service :
    {D : Dinit} {H : Host} (handle_of : Str → ℕ) (names : List Str)
    → Distinct handle_of names
    → (w : World D H) → LoadsAlong D handle_of names w.dinit
    → (w' : World D H) × (for_each names load_service w ≡ (ok tt, w'))
      × ((name : Str) (e : ServiceEventInfo) (v : World D H)
          → contains names name ≡ true
          → e.handle ≡ handle_of name
          → v.app.handle_names ≡ w'.app.handle_names
          → consume_event (service_event e) v ≡ (ok tt, with_event name e v))
for_each-load_service handle_of names l w lo =
    let (w', e, keeps) = loaded handle_of names l names w lo (λ n h. h) in
    (
      w',
      e,
      λ name event v here at same.
          shown_event handle_of names l name event v at (rw same (keeps name here (inl here))),
    )
