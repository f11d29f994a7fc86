-- ===== src/Tui/Pointer.antt =====
-- `_point_at` of tui/src/dinix_tui/app.py on a file system with the behaviour that POSIX documents:
-- the pointer to the services is replaced in one step, by a rename.
use dinix.Shared.{
  ℕ, zero, suc, ◌≡◌, refl, ◌∙◌, true, false, none, some, [], arith, if◌then◌else◌, Bool-cases, inl,
  inr, ◌⊎◌, take,
}
use dinix.Shared.Dict.{key_eq, key_eq_iff}
use dinix.Exceptions.{ok}
use dinix.Utf8.{Str}
use dinix.Tui.Act.{Act, try, pure}
use dinix.Tui.Interfaces.{Host, is_file_not_found}
use dinix.Tui.Directory.{is_entry, link, Directory}
use dinix.Tui.Text.{child}
use dinix.Tui.Reload.{pointer_name, temporary_name, point_steps, run_steps}

take_nil : {A : Type 0} (k : ℕ) → take {A = A} k [] ≡ []
take_nil zero = refl
take_nil (suc k) = refl

module _ (H : Host) (runtime : Str) (R : Directory H runtime) where
  -- Nothing, or a link.
  abbrev pub IsLink : H.State → Str → Type 0
  IsLink h name = (R.node h name ≡ none) ⊎ ((target : Str) × (R.node h name ≡ some (link target)))

  abbrev unlink_step : Str → Act H.State (Unit {0})
  unlink_step name = try is_file_not_found (H.unlink (child runtime name)) (λ e. pure tt)

  -- The temporary link is removed if it is there.
  unlink_quietly :
      (name : Str) (h : H.State)
      → R.Exists h
      → is_entry name ≡ true
      → IsLink h name
      → (h' : H.State) × (unlink_step name h ≡ (ok tt, h'))
        × R.Exists h'
        × ((q : Str)
            → is_entry q ≡ true
            → R.node h' q ≡ (if key_eq q name then none else R.node h q))
  unlink_quietly name h x n (inl missing) =
      (h, rw (R.unlinks_none name h x n missing), x, λ q _. same q (Bool-cases (key_eq q name)))
    where
      same :
          (q : Str)
          → (key_eq q name ≡ true) ⊎ (key_eq q name ≡ false)
          → R.node h q ≡ (if key_eq q name then none else R.node h q)
      same q (inl e) = rw e (rw ((key_eq_iff q name).0 e) missing)
      same q (inr e) = rw e
  unlink_quietly name h x n (inr (target, there)) =
      let (h', e, x', changed) = R.unlinks name target h x n there in (h', rw e, x', changed)

  -- The states between the steps of `_point_at`, with what they hold.
  record Stages (services : Str) (h : H.State) : Type 0 where
    made : H.State
    unlinked : H.State
    linked : H.State
    renamed : H.State
    at_make : H.mkdir runtime h ≡ (ok tt, made)
    at_unlink : unlink_step temporary_name made ≡ (ok tt, unlinked)
    at_link : H.symlink_to (child runtime temporary_name) services unlinked ≡ (ok tt, linked)
    at_rename :
        H.rename (child runtime temporary_name) (child runtime pointer_name) linked
        ≡ (ok tt, renamed)
    made_nodes : (q : Str) → is_entry q ≡ true → R.node made q ≡ R.node h q
    unlinked_nodes :
        (q : Str)
        → is_entry q ≡ true
        → R.node unlinked q ≡ (if key_eq q temporary_name then none else R.node h q)
    linked_nodes :
        (q : Str)
        → is_entry q ≡ true
        → R.node linked q ≡ (if key_eq q temporary_name then some (link services) else R.node h q)
    renamed_nodes :
        (q : Str)
        → is_entry q ≡ true
        → R.node renamed q ≡ (
            if key_eq q pointer_name
            then some (link services)
            else if key_eq q temporary_name
            then none
            else R.node h q)

  stages :
      (services : Str) (h made : H.State)
      → H.mkdir runtime h ≡ (ok tt, made)
      → IsLink h pointer_name
      → IsLink h temporary_name
      → Stages services h
  unfolding key_eq
  stages services h made em lp lt =
      let (x1, n1) = R.makes h made em in
      let l1 : IsLink made temporary_name = rw (n1 temporary_name refl) lt in
      let (h2, e2, x2, n2) = unlink_quietly temporary_name made x1 refl l1 in
      let (h3, e3, x3, n3) = R.links temporary_name services h2 x2 refl (n2 temporary_name refl) in
      let l3 : IsLink h3 pointer_name =
        rw (n3 pointer_name refl ∙ n2 pointer_name refl ∙ n1 pointer_name refl) lp in
      let (h4, e4, n4) =
        R.renames temporary_name pointer_name services h3 x3 refl refl (n3 temporary_name refl)
          l3 in
      record {
        made = made;
        unlinked = h2;
        linked = h3;
        renamed = h4;
        at_make = em;
        at_unlink = e2;
        at_link = e3;
        at_rename = e4;
        made_nodes = n1;
        unlinked_nodes = λ q e. rw (n2 q e, n1 q e);
        linked_nodes = λ q e. ground (arith, n1 q e, n2 q e, n3 q e);
        renamed_nodes = λ q e. ground (arith, n1 q e, n2 q e, n3 q e, n4 q e);
      }

  -- In a runtime directory with POSIX's `unlink`, `symlink` and `rename` that can be made and
  -- whose entries `current` and `current.new` are links or missing, `_point_at` succeeds; then
  -- `current` is a link to the new services, `current.new` is gone, and every other entry is as it
  -- was.
  pub point_steps-adopts :
      (services : Str) (h made : H.State)
      → H.mkdir runtime h ≡ (ok tt, made)
      → IsLink h pointer_name
      → IsLink h temporary_name
      → (h' : H.State) × (run_steps H (point_steps H runtime services) h ≡ (ok tt, h'))
        × ((q : Str)
            → is_entry q ≡ true
            → R.node h' q ≡ (
                if key_eq q pointer_name
                then some (link services)
                else if key_eq q temporary_name
                then none
                else R.node h q))
  unfolding run_steps point_steps
  point_steps-adopts services h made em lp lt =
      let s = stages services h made em lp lt in
      (s.renamed, rw s.at_make (rw s.at_unlink (rw s.at_link (rw s.at_rename))), s.renamed_nodes)

  -- In a runtime directory with POSIX's `unlink`, `symlink` and `rename` that can be made and
  -- whose entries `current` and `current.new` are links or missing, the awaits of `_point_at`
  -- succeed, and behind any number of them `current` is either what it was or a link to the new
  -- services.
  pub point_steps-IsAtomic :
      (services : Str) (h made : H.State)
      → H.mkdir runtime h ≡ (ok tt, made)
      → IsLink h pointer_name
      → IsLink h temporary_name
      → (k : ℕ)
      → (h' : H.State) × (run_steps H (take k (point_steps H runtime services)) h ≡ (ok tt, h'))
        × ((R.node h' pointer_name ≡ R.node h pointer_name)
            ⊎ (R.node h' pointer_name ≡ some (link services)))
  unfolding run_steps point_steps key_eq
  point_steps-IsAtomic services h made em lp lt zero = (h, refl, inl refl)
  point_steps-IsAtomic services h made em lp lt (suc zero) =
      let s = stages services h made em lp lt in
      (s.made, rw s.at_make, inl (s.made_nodes pointer_name refl))
  point_steps-IsAtomic services h made em lp lt (suc (suc zero)) =
      let s = stages services h made em lp lt in
      (s.unlinked, rw s.at_make (rw s.at_unlink), inl (s.unlinked_nodes pointer_name refl))
  point_steps-IsAtomic services h made em lp lt (suc (suc (suc zero))) =
      let s = stages services h made em lp lt in
      (
        s.linked,
        rw s.at_make (rw s.at_unlink (rw s.at_link)),
        inl (s.linked_nodes pointer_name refl),
      )
  point_steps-IsAtomic services h made em lp lt (suc (suc (suc (suc k)))) =
      let s = stages services h made em lp lt in
      (
        s.renamed,
        rw s.at_make (rw s.at_unlink (rw s.at_link (rw s.at_rename (rw (take_nil k))))),
        inr (s.renamed_nodes pointer_name refl),
      )
