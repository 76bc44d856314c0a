-- ===== src/Fleet/Within.antt =====
-- crates/amber/src/daemon.rs: no admission, staging, fork or refill takes the fleet over its budget.
use amber.Prelude.{
  ℕ, zero, suc, ◌+◌, ◌^◌, ◌≤◌, ◌<◌, ◌≡◌, refl, sym, ◌∙◌, ◌⊎◌, inl, inr, Bool, true, false, not,
  Option, none, some, List, [], ◌∷◌, arith, leb, ◌==◌, if◌then◌else◌, Bool-cases, Option-cases,
  wrapping_add,
}
use Prim.Native.String.{String}
use amber.Fleet.{
  Reply, acknowledged, pooled_for, Fleet, VmEntry, Manifest, Admission, admitted, refused, find_vm,
  remove_vm, update_vm, used_ram, over_budget, reserve, pop_pooled, evict_one_pooled,
  reserve_with_evict, forget, Staging, warm_worker, stage, spawn_paused, control_op, pop_template,
  push_template, take_worker, release_worker, refill_pool, handle_fork,
}

pub remove_vm-le : (es : List VmEntry) (id : ℕ) → used_ram (remove_vm es id) ≤ used_ram es
remove_vm-le [] id = omega arith
remove_vm-le (e ∷ es) id = ground (arith, remove_vm-le es id)

-- A change of an entry that leaves its RAM.
pub update_vm-ram :
    (es : List VmEntry) (id : ℕ) (f : VmEntry → VmEntry)
    → ((e : VmEntry) → (f e).ram_bytes ≡ e.ram_bytes)
    → used_ram (update_vm es id f) ≡ used_ram es
update_vm-ram [] id f h = refl
update_vm-ram (e ∷ es) id f h = elim (Bool-cases (e.id == id)) [
  | inl q ↦ rw q (omega (arith, h e, update_vm-ram es id f h))
  | inr q ↦ rw q (omega (arith, update_vm-ram es id f h))
]

Admission-cases :
    (a : Admission)
    → ((id : ℕ) × (a ≡ admitted id))
      ⊎ ((budget : ℕ) × (used : ℕ) × (requested : ℕ) × (a ≡ refused budget used requested))
Admission-cases (admitted id) = inl (id, refl)
Admission-cases (refused budget used requested) = inr (budget, used, requested, refl)

-- The three ways in which a round of an admission with eviction goes on.
pub reserve_with_evict-cases :
    (fuel : ℕ) (man : Manifest) (f : Fleet) (reference : String)
    → (((id : ℕ) × ((reserve man f reference).1 ≡ admitted id))
        × (reserve_with_evict (suc fuel) man f reference ≡ some (reserve man f reference)))
      ⊎ (((evict_one_pooled f).1 ≡ true)
          × (reserve_with_evict (suc fuel) man f reference
              ≡ reserve_with_evict fuel man (evict_one_pooled f).0 reference))
      ⊎ (((evict_one_pooled f).1 ≡ false)
          × ((budget : ℕ) × (used : ℕ) × (requested : ℕ) × ((reserve man f reference).1
                ≡ refused budget used requested))
          × (reserve_with_evict (suc fuel) man f reference ≡ some (reserve man f reference)))
unfolding reserve_with_evict
reserve_with_evict-cases fuel man f reference = elim (Admission-cases (reserve man f reference).1) [
  | inl (id, a) ↦ inl ((id, a), simp (reserve_with_evict, a))
  | inr (budget, used, requested, a) ↦ elim (Bool-cases (evict_one_pooled f).1) [
    | inl e ↦ inr (inl (e, simp (reserve_with_evict, a, e)))
    | inr e ↦ inr (inr (e, (budget, used, requested, a), simp (reserve_with_evict, a, e)))
  ]
]

module _ (man : Manifest) (b : ℕ) (capped : man.budget ≡ some b)
    (small : (t : String) → man.ram t + b < 2 ^ 64) where
  -- The RAM that the registry accounts for is within the budget.
  pub record IsWithin (f : Fleet) : Type 0 where
    pub within : used_ram f.registry ≤ b

  IsWithin-if :
      (c : Bool) (x y : Fleet × Option ℕ)
      → IsWithin x.0
      → IsWithin y.0
      → IsWithin (if c then x else y).0
  IsWithin-if true x y hx hy = hx
  IsWithin-if false x y hx hy = hy

  over_budget-none :
      (reg : List VmEntry) (requested : ℕ)
      → requested + b < 2 ^ 64
      → used_ram reg ≤ b
      → over_budget man reg requested ≡ none
      → used_ram reg + requested ≤ b
  unfolding over_budget
  over_budget-none reg requested lt h e = ground (arith, e, capped)

  reserve-IsWithin :
      (f : Fleet) (reference : String) → IsWithin f → IsWithin (reserve man f reference).0
  reserve-IsWithin f reference k =
      elim (Option-cases (over_budget man f.registry (man.ram reference))) [
        | inr ((budget, used, requested), e) ↦ unfold reserve in rw (reserve, e) k
        | inl e ↦
            unfold reserve in
            rw (reserve, e)
              (record {
                within = omega (
                  arith,
                  over_budget-none f.registry (man.ram reference) (small reference) k.within e,
                  remove_vm-le f.registry (wrapping_add 64 f.counter 1),
                );
              })
      ]

  pub forget-IsWithin : (f : Fleet) (id : ℕ) → IsWithin f → IsWithin (forget f id)
  unfolding forget
  forget-IsWithin f id k = record { within = omega (arith, k.within, remove_vm-le f.registry id) }

  evict_one_pooled-IsWithin : (f : Fleet) → IsWithin f → IsWithin (evict_one_pooled f).0
  evict_one_pooled-IsWithin f k = elim (Option-cases (pop_pooled f.pool)) [
    | inl e ↦ unfold evict_one_pooled in rw (evict_one_pooled, e) k
    | inr ((id, pool), e) ↦
        unfold evict_one_pooled in
        rw (evict_one_pooled, e)
          (record { within = omega (arith, k.within, remove_vm-le f.registry id) })
  ]

  pub update_vm-IsWithin :
      (f : Fleet) (id : ℕ) (g : VmEntry → VmEntry)
      → ((e : VmEntry) → (g e).ram_bytes ≡ e.ram_bytes)
      → IsWithin f
      → IsWithin (record f { registry = update_vm f.registry id g })
  update_vm-IsWithin f id g h k = record {
    within = omega (arith, k.within, update_vm-ram f.registry id g h);
  }

  warm_worker-IsWithin :
      (f : Fleet) (id pid : ℕ) (warm : Bool) → IsWithin f → IsWithin (warm_worker f id pid warm).0
  unfolding warm_worker
  warm_worker-IsWithin f id pid warm k =
      let spawned = update_vm-IsWithin f id (λ e. record e { pid = pid }) (λ e. refl) k in
      IsWithin-if warm _ _
        (update_vm-IsWithin
          (record f { registry = update_vm f.registry id (λ e. record e { pid = pid }) }) id
          (λ e. record e { pid = pid; control = true; console = true; vsock = true }) (λ e. refl)
          spawned)
        (forget-IsWithin _ id spawned)

  stage-IsWithin : (f : Fleet) (id : ℕ) (s : Staging) → IsWithin f → IsWithin (stage f id s).0
  unfolding stage
  stage-IsWithin f id s k =
      IsWithin-if (not s.logs) _ _ k
        (IsWithin-if (not s.attach) _ _ (forget-IsWithin f id k) (spawned s.spawn))
    where
      spawned :
          (pid : Option ℕ)
          → IsWithin
              (elim pid as (λ _. Fleet × Option ℕ) [
                | none ↦ (forget f id, none)
                | some pid ↦ warm_worker f id pid s.warm
              ]).0
      spawned none = forget-IsWithin f id k
      spawned (some pid) = warm_worker-IsWithin f id pid s.warm k

  pub spawn_paused-IsWithin :
      (f : Fleet) (template : String) (s : Staging)
      → IsWithin f
      → IsWithin (spawn_paused man f template s).0
  unfolding spawn_paused
  spawn_paused-IsWithin f template s k = staged (reserve man f template).1
    where
      staged :
          (a : Admission)
          → IsWithin
              (elim a as (λ _. Fleet × Option ℕ) [
                | refused budget used requested ↦ ((reserve man f template).0, none)
                | admitted id ↦ stage (reserve man f template).0 id s
              ]).0
      staged (refused budget used requested) = reserve-IsWithin f template k
      staged (admitted id) =
          stage-IsWithin (reserve man f template).0 id s (reserve-IsWithin f template k)

  take_worker-IsWithin :
      (f : Fleet) (template : String) (s : Staging)
      → IsWithin f
      → IsWithin (take_worker man f template s).0
  take_worker-IsWithin f template s k = elim (Option-cases (pop_template f.pool template)) [
    | inl e ↦ unfold take_worker in rw (take_worker, e) (spawn_paused-IsWithin f template s k)
    | inr ((id, pool), e) ↦ unfold take_worker in rw (take_worker, e) (record { within = k.within })
  ]

  release_worker-IsWithin :
      (f : Fleet) (id : ℕ) (wrote : Bool) → IsWithin f → IsWithin (release_worker f id wrote).0
  unfolding release_worker
  release_worker-IsWithin f id wrote k =
      update_vm-IsWithin f id (λ e. record e { console = false }) (λ e. refl) k

  pub refill_pool-IsWithin :
      (target : ℕ) (f : Fleet) (template : String) (stagings : List Staging)
      → IsWithin f
      → IsWithin (refill_pool man target f template stagings)
  unfolding refill_pool
  refill_pool-IsWithin target f template [] k = k
  refill_pool-IsWithin target f template (s ∷ stagings) k =
      elim (Bool-cases (leb target (pooled_for f.pool template))) [
        | inl e ↦ rw (refill_pool, e) k
        | inr e ↦ elim (Option-cases (spawn_paused man f template s).1) [
          | inl n ↦ rw (refill_pool, e, n) staged
          | inr (id, n) ↦
              rw (refill_pool, e, n)
                (refill_pool-IsWithin target
                  (record (spawn_paused man f template s).0 {
                    pool = push_template (spawn_paused man f template s).0.pool template id;
                  })
                  template stagings (record { within = staged.within }))
        ]
      ]
    where
      staged : IsWithin (spawn_paused man f template s).0
      staged = spawn_paused-IsWithin f template s k

  pub handle_fork-IsWithin :
      (target : ℕ) (f : Fleet) (template : String) (s : Staging) (wrote : Bool)
      (stagings : List Staging)
      → IsWithin f
      → IsWithin (handle_fork man target f template s wrote stagings).0
  handle_fork-IsWithin target f template s wrote stagings k =
      let taken = take_worker-IsWithin f template s k in
      elim (Option-cases (take_worker man f template s).1) [
        | inl n ↦ unfold handle_fork in rw (handle_fork, n) taken
        | inr (id, n) ↦
            unfold handle_fork in
            rw (handle_fork, n)
              (IsWithin-if (release_worker (take_worker man f template s).0 id wrote).1 _ _
                (refill_pool-IsWithin target _ template stagings
                  (release_worker-IsWithin (take_worker man f template s).0 id wrote taken))
                (release_worker-IsWithin (take_worker man f template s).0 id wrote taken))
      ]

  pub control_op-IsWithin :
      (f : Fleet) (id : ℕ) (wrote : Bool) (set_paused : Option Bool)
      → IsWithin f
      → IsWithin (control_op f id wrote set_paused).0
  control_op-IsWithin f id wrote set_paused k = elim (Option-cases (find_vm f.registry id)) [
    | inl n ↦ unfold control_op in rw (control_op, n) k
    | inr (e, n) ↦
        unfold control_op in
        elim (Bool-cases e.control) [
          | inr c ↦ rw (control_op, n, c) k
          | inl c ↦ elim (Bool-cases wrote) [
            | inr w ↦ rw (control_op, n, c, w) k
            | inl w ↦ rw (control_op, n, c, w) (acknowledge set_paused)
          ]
        ]
  ]
    where
      acknowledge :
          (p : Option Bool)
          → IsWithin
              (elim p as (λ _. Fleet × Reply) [
                | none ↦ (f, acknowledged)
                | some p ↦ (
                  record f { registry = update_vm f.registry id (λ e. record e { paused = p }) },
                  acknowledged,
                )
              ]).0
      acknowledge none = k
      acknowledge (some p) = update_vm-IsWithin f id (λ e. record e { paused = p }) (λ e. refl) k

  pub reserve_with_evict-IsWithin :
      (fuel : ℕ) (f : Fleet) (reference : String) (r : Fleet × Admission)
      → reserve_with_evict fuel man f reference ≡ some r
      → IsWithin f
      → IsWithin r.0
  reserve_with_evict-IsWithin zero f reference r e k = unfold reserve_with_evict in absurd (cc e)
  reserve_with_evict-IsWithin (suc fuel) f reference r e k =
      elim (reserve_with_evict-cases fuel man f reference) [
        | inl (a, q) ↦ subst_reserve (cc (e, q))
        | inr (inl (a, q)) ↦
            reserve_with_evict-IsWithin fuel (evict_one_pooled f).0 reference r (sym q ∙ e)
              (evict_one_pooled-IsWithin f k)
        | inr (inr (a, c, q)) ↦ subst_reserve (cc (e, q))
      ]
    where
      subst_reserve : r ≡ reserve man f reference → IsWithin r.0
      subst_reserve same = rw same (reserve-IsWithin f reference k)
