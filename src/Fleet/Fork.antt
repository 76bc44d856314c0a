-- ===== src/Fleet/Fork.antt =====
-- crates/amber/src/daemon.rs: what a staging that fails leaves of its reservation.
use amber.Prelude.{
  ℕ, ◌+◌, ◌≡◌, refl, ap, ◌⊎◌, inl, inr, Bool, true, false, not, ◌&&◌, Option, none, some, List, [],
  ◌∷◌, arith, ◌==◌, Bool-cases, Option-cases, wrapping_add, ==_iff,
}
use Prim.Native.String.{String}
use amber.Fleet.{
  VmEntry, Fleet, Manifest, Admission, admitted, refused, find_vm, remove_vm, reserve, update_vm,
  reserved, over_budget, Staging, stage, spawn_paused, warm_worker, forget, used_ram,
}

-- An id that the registry does not have.
abbrev pub is_fresh : List VmEntry → ℕ → Bool
is_fresh [] id = true
is_fresh (e ∷ es) id = not (e.id == id) && is_fresh es id

remove_vm-fresh : (es : List VmEntry) (id : ℕ) → is_fresh es id ≡ true → remove_vm es id ≡ es
remove_vm-fresh [] id h = refl
remove_vm-fresh (e ∷ es) id h = elim (Bool-cases (e.id == id)) [
  | inl q ↦ absurd (ground (arith, q, h))
  | inr q ↦ rw (q, remove_vm-fresh es id (ground (arith, q, h))) refl
]

update_vm-fresh :
    (es : List VmEntry) (id : ℕ) (f : VmEntry → VmEntry)
    → is_fresh es id ≡ true
    → update_vm es id f ≡ es
update_vm-fresh [] id f h = refl
update_vm-fresh (e ∷ es) id f h = elim (Bool-cases (e.id == id)) [
  | inl q ↦ absurd (ground (arith, q, h))
  | inr q ↦ rw (q, update_vm-fresh es id f (ground (arith, q, h))) refl
]

module _ (f : Fleet) (e : VmEntry) (fresh : is_fresh f.registry e.id ≡ true) where
  abbrev with_entry : Fleet
  with_entry = record f { registry = e ∷ f.registry }

  own : (e.id == e.id) ≡ true
  own = (==_iff e.id e.id).1 refl

  forget-entry : (forget with_entry e.id).registry ≡ f.registry
  unfolding forget
  forget-entry = rw own (remove_vm-fresh f.registry e.id fresh)

  warm_worker-undone :
      (pid : ℕ) (warm : Bool)
      → (warm_worker with_entry e.id pid warm).1 ≡ none
      → (warm_worker with_entry e.id pid warm).0.registry ≡ f.registry
  unfolding warm_worker forget
  warm_worker-undone pid true n = absurd (cc n)
  warm_worker-undone pid false n =
      rw (own, own, update_vm-fresh f.registry e.id (λ e. record e { pid = pid }) fresh)
        (remove_vm-fresh f.registry e.id fresh)

  -- A staging that fails after its log file and its program's path are found.
  pub stage-undone :
      (s : Staging)
      → s.logs ≡ true
      → (stage with_entry e.id s).1 ≡ none
      → (stage with_entry e.id s).0.registry ≡ f.registry
  unfolding stage
  stage-undone s h n = go s.logs s.attach s.spawn h n
    where
      go :
          (logs attach : Bool) (spawn : Option ℕ)
          → logs ≡ true
          → (stage with_entry e.id (record s { logs = logs; attach = attach; spawn = spawn })).1
            ≡ none
          → (stage with_entry e.id
              (record s { logs = logs; attach = attach; spawn = spawn })).0.registry
            ≡ f.registry
      go false attach spawn h n = absurd (cc h)
      go true false spawn h n = forget-entry
      go true true none h n = forget-entry
      go true true (some pid) h n = warm_worker-undone pid s.warm n

-- The id that the next admission gives.
abbrev pub next_id : Fleet → ℕ
next_id f = wrapping_add 64 f.counter 1

reserve-admits :
    (man : Manifest) (f : Fleet) (reference : String)
    → is_fresh f.registry (next_id f) ≡ true
    → over_budget man f.registry (man.ram reference) ≡ none
    → reserve man f reference ≡ (
      record f {
        registry = reserved (next_id f) reference (man.ram reference) ∷ f.registry;
        counter = next_id f;
      },
      admitted (next_id f),
    )
unfolding reserve
reserve-admits man f reference fresh e =
    simp (reserve, e, remove_vm-fresh f.registry (next_id f) fresh)

reserve-cases :
    (man : Manifest) (f : Fleet) (reference : String)
    → is_fresh f.registry (next_id f) ≡ true
    → ((budget : ℕ) × (used : ℕ) × (requested : ℕ) × (reserve man f reference
          ≡ (f, refused budget used requested)))
      ⊎ (reserve man f reference ≡ (
        record f {
          registry = reserved (next_id f) reference (man.ram reference) ∷ f.registry;
          counter = next_id f;
        },
        admitted (next_id f),
      ))
unfolding reserve
reserve-cases man f reference fresh =
    elim (Option-cases (over_budget man f.registry (man.ram reference))) [
      | inr ((budget, used, requested), e) ↦ inl (budget, used, requested, simp (reserve, e))
      | inl e ↦ inr (reserve-admits man f reference fresh e)
    ]

spawn_paused-after :
    (man : Manifest) (f : Fleet) (template : String) (s : Staging) (r : Fleet × Admission)
    → reserve man f template ≡ r
    → spawn_paused man f template s ≡ elim r.1 as (λ _. Fleet × Option ℕ) [
      | refused budget used requested ↦ (r.0, none)
      | admitted id ↦ stage r.0 id s
    ]
unfolding spawn_paused
spawn_paused-after man f template s r e =
    ap
      (λ (r : Fleet × Admission). elim r.1 as (λ _. Fleet × Option ℕ) [
        | refused budget used requested ↦ (r.0, none)
        | admitted id ↦ stage r.0 id s
      ])
      e

-- A staging that fails, with an id that the registry does not have yet, leaves the registry and so the
-- fleet's RAM as they were, whether it is the admission, the control socket, the process or the
-- worker's ready byte that fails, unless it is the log file or the program's path.
pub spawn_paused-undone :
    (man : Manifest) (f : Fleet) (template : String) (s : Staging)
    → is_fresh f.registry (next_id f) ≡ true
    → s.logs ≡ true
    → (spawn_paused man f template s).1 ≡ none
    → (spawn_paused man f template s).0.registry ≡ f.registry
spawn_paused-undone man f template s fresh h = elim (reserve-cases man f template fresh) [
  | inl (budget, used, requested, e) ↦ rw (spawn_paused-after man f template s _ e) (λ n. refl)
  | inr e ↦ rw (spawn_paused-after man f template s _ e) (
      stage-undone (record f { counter = next_id f })
        (reserved (next_id f) template (man.ram template)) fresh s h)
]

-- A staging that is admitted, with an id that the registry does not have yet, and cannot make its log
-- file gives no worker, but its reservation stays: an entry without a process, on which the fleet's
-- used RAM has grown by the template's.
pub spawn_paused-leaks :
    (man : Manifest) (f : Fleet) (template : String) (s : Staging)
    → is_fresh f.registry (next_id f) ≡ true
    → over_budget man f.registry (man.ram template) ≡ none
    → s.logs ≡ false
    → ((spawn_paused man f template s).1 ≡ none)
      × (find_vm (spawn_paused man f template s).0.registry (next_id f)
          ≡ some (reserved (next_id f) template (man.ram template)))
      × (used_ram (spawn_paused man f template s).0.registry
          ≡ used_ram f.registry + man.ram template)
unfolding stage
spawn_paused-leaks man f template s fresh o h =
    rw
      (
        spawn_paused-after man f template s _ (reserve-admits man f template fresh o),
        h,
        (==_iff (next_id f) (next_id f)).1 refl,
      )
      (refl, refl, omega arith)
