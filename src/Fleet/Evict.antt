-- ===== src/Fleet/Evict.antt =====
-- crates/amber/src/daemon.rs: an admission under pressure gives up warm workers and nothing else.
use amber.Prelude.{
  ℕ, zero, suc, ◌+◌, ◌<◌, ◌≡◌, refl, sym, ap, ◌∙◌, ◌≢◌, ◌⊎◌, inl, inr, Bool, true, false, ◌||◌,
  none, some, List, [], ◌∷◌, arith, ◌==◌, Bool-cases, Option-cases, length, wrapping_add, ==_iff,
}
use Prim.Native.String.{String}
use amber.Fleet.{
  VmEntry, Fleet, Manifest, Admission, admitted, refused, find_vm, remove_vm, last, init,
  pop_pooled, reserve, evict_one_pooled, reserve_with_evict, over_budget,
}
use amber.Fleet.Within.{reserve_with_evict-cases}

-- The number of warm workers, and whether one has the id.
abbrev pub pooled : List (String × List ℕ) → ℕ
pooled [] = 0
pooled ((template, ids) ∷ pool) = length ids + pooled pool

abbrev pub holds : List ℕ → ℕ → Bool
holds [] id = false
holds (i ∷ ids) id = (i == id) || holds ids id

abbrev pub in_pool : List (String × List ℕ) → ℕ → Bool
in_pool [] id = false
in_pool ((template, ids) ∷ pool) id = holds ids id || in_pool pool id

length-init : (i : ℕ) (ids : List ℕ) → length (init i ids) ≡ length ids
length-init i [] = refl
length-init i (j ∷ ids) = ap suc (length-init j ids)

||-true : (a b : Bool) → (a || b) ≡ true → (a ≡ true) ⊎ (b ≡ true)
||-true true b e = inl refl
||-true false b e = inr e

||-left : (a b : Bool) → a ≡ true → (a || b) ≡ true
||-left true b e = refl
||-left false b e = absurd (cc e)

||-right : (a b : Bool) → b ≡ true → (a || b) ≡ true
||-right true b e = refl
||-right false b e = e

holds-last : (i : ℕ) (ids : List ℕ) → holds (i ∷ ids) (last i ids) ≡ true
holds-last i [] = ||-left _ _ ((==_iff i i).1 refl)
holds-last i (j ∷ ids) = ||-right (i == last j ids) _ (holds-last j ids)

holds-init : (i : ℕ) (ids : List ℕ) (k : ℕ) → holds (init i ids) k ≡ true → holds (i ∷ ids) k ≡ true
holds-init i [] k h = absurd (cc h)
holds-init i (j ∷ ids) k h = elim (||-true (i == k) _ h) [
  | inl e ↦ ||-left _ _ e
  | inr e ↦ ||-right (i == k) _ (holds-init j ids k e)
]

-- What a worker taken from the pool leaves: it was one of the pool's, the others stay, and no id is new.
pub record IsPopped (pool : List (String × List ℕ)) (id : ℕ) (rest : List (String × List ℕ))
    : Type 0 where
  pub counted : pooled pool ≡ pooled rest + 1
  pub member : in_pool pool id ≡ true
  pub older : (k : ℕ) → in_pool rest k ≡ true → in_pool pool k ≡ true

pub pop_pooled-cases :
    (pool : List (String × List ℕ))
    → ((pop_pooled pool ≡ none) × (pooled pool ≡ 0))
      ⊎ ((id : ℕ) × (rest : List (String × List ℕ)) × (pop_pooled pool ≡ some (id, rest))
          × IsPopped pool id rest)
unfolding pop_pooled
pop_pooled-cases [] = inl (refl, refl)
pop_pooled-cases ((t, []) ∷ pool) = elim (pop_pooled-cases pool) [
  | inl (n, z) ↦ inl (rw n refl, omega (arith, z))
  | inr (id, rest, n, k) ↦ inr (
    id,
    (t, []) ∷ rest,
    rw n refl,
    record { counted = omega (arith, k.counted); member = k.member; older = k.older },
  )
]
pop_pooled-cases ((t, id ∷ ids) ∷ pool) = inr (
  last id ids,
  (t, init id ids) ∷ pool,
  refl,
  record {
    counted = omega (arith, length-init id ids);
    member = ||-left _ _ (holds-last id ids);
    older = λ k h. elim (||-true (holds (init id ids) k) _ h) [
      | inl e ↦ ||-left _ _ (holds-init id ids k e)
      | inr e ↦ ||-right (holds (id ∷ ids) k) _ e
    ];
  },
)

find_vm-remove_vm :
    (es : List VmEntry) (id k : ℕ) → id ≢ k → find_vm (remove_vm es id) k ≡ find_vm es k
find_vm-remove_vm [] id k ne = refl
find_vm-remove_vm (e ∷ es) id k ne = elim (Bool-cases (e.id == id)) [
  | inl q ↦ elim (Bool-cases (e.id == k)) [
    | inl w ↦ absurd (ne (sym ((==_iff e.id id).0 q) ∙ (==_iff e.id k).0 w))
    | inr w ↦ rw (q, w) (find_vm-remove_vm es id k ne)
  ]
  | inr q ↦ rw (q, find_vm-remove_vm es id k ne) refl
]

-- A worker that is not in the pool keeps its entry, and the pool gets no worker.
pub record IsSpared (f g : Fleet) : Type 0 where
  pub entries : (k : ℕ) → in_pool f.pool k ≡ false → find_vm g.registry k ≡ find_vm f.registry k
  pub ids : (k : ℕ) → in_pool f.pool k ≡ false → in_pool g.pool k ≡ false

member-≢ :
    (pool : List (String × List ℕ)) (id k : ℕ)
    → in_pool pool id ≡ true
    → in_pool pool k ≡ false
    → id ≢ k
member-≢ pool id k t f = λ e. absurd (cc (t, f, e))

false-older : (a b : Bool) → (a ≡ true → b ≡ true) → b ≡ false → a ≡ false
false-older true b h f = absurd (cc (h refl, f))
false-older false b h f = refl

-- An eviction that finds a worker takes one from the pool and spares the other VMs.
pub evict_one_pooled-cases :
    (f : Fleet)
    → (((evict_one_pooled f).1 ≡ false) × (pooled f.pool ≡ 0))
      ⊎ (((evict_one_pooled f).1 ≡ true)
          × (pooled f.pool ≡ pooled (evict_one_pooled f).0.pool + 1)
          × IsSpared f (evict_one_pooled f).0)
unfolding evict_one_pooled
evict_one_pooled-cases f = elim (pop_pooled-cases f.pool) [
  | inl (n, z) ↦ inl (rw (evict_one_pooled, n) refl, z)
  | inr (id, rest, n, k) ↦ inr (
    rw (evict_one_pooled, n) refl,
    rw (evict_one_pooled, n) k.counted,
    rw (evict_one_pooled, n)
        (record {
          entries = λ j o. find_vm-remove_vm f.registry id j (member-≢ f.pool id j k.member o);
          ids = λ j o. false-older _ _ (k.older j) o;
        }),
  )
]

-- What an admission leaves: VMs outside the pool that do not get the new id keep their entries.
reserve-keeps :
    (man : Manifest) (f : Fleet) (reference : String) (k : ℕ)
    → ((id : ℕ) → (reserve man f reference).1 ≡ admitted id → id ≢ k)
    → find_vm (reserve man f reference).0.registry k ≡ find_vm f.registry k
unfolding reserve
reserve-keeps man f reference k ne =
    elim (Option-cases (over_budget man f.registry (man.ram reference))) [
      | inr ((budget, used, requested), e) ↦ rw (reserve, e) refl
      | inl e ↦
          let id = wrapping_add 64 f.counter 1 in
          elim (Bool-cases (id == k)) [
            | inl q ↦ absurd (ne id (rw (reserve, e) refl) ((==_iff id k).0 q))
            | inr q ↦
                rw (reserve, e, q)
                  (find_vm-remove_vm f.registry id k (ne id (rw (reserve, e) refl)))
          ]
    ]

reserve-pool :
    (man : Manifest) (f : Fleet) (reference : String) → (reserve man f reference).0.pool ≡ f.pool
unfolding reserve
reserve-pool man f reference =
    elim (Option-cases (over_budget man f.registry (man.ram reference))) [
      | inl e ↦ rw (reserve, e) refl
      | inr (r, e) ↦ rw (reserve, e) refl
    ]

-- What an admission with eviction promises of its result.
pub record IsFair (f : Fleet) (r : Fleet × Admission) : Type 0 where
  pub exhausted :
      (budget used requested : ℕ) → r.1 ≡ refused budget used requested → pooled r.0.pool ≡ 0
  pub spared :
      (k : ℕ)
      → in_pool f.pool k ≡ false
      → ((id : ℕ) → r.1 ≡ admitted id → id ≢ k)
      → find_vm r.0.registry k ≡ find_vm f.registry k

-- With fuel above the number of warm workers, an admission with eviction ends. It is refused only when no
-- warm worker is left to evict. In either case a VM outside the warm pool keeps its registry entry,
-- unless it has the id of the VM admitted.
pub reserve_with_evict-IsFair :
    (fuel : ℕ) (man : Manifest) (f : Fleet) (reference : String)
    → pooled f.pool < fuel
    → (r : Fleet × Admission) × (reserve_with_evict fuel man f reference ≡ some r) × IsFair f r
reserve_with_evict-IsFair zero man f reference lt = absurd (omega arith)
reserve_with_evict-IsFair (suc fuel) man f reference lt =
    elim (reserve_with_evict-cases fuel man f reference) [
      | inl ((id, a), q) ↦ (
        reserve man f reference,
        q,
        record {
          exhausted = λ b u n e. absurd (cc (a, e));
          spared = λ k o ne. reserve-keeps man f reference k ne;
        },
      )
      | inr (inl (t, q)) ↦ elim (evict_one_pooled-cases f) [
        | inl (n, z) ↦ absurd (cc (t, n))
        | inr (y, c, k) ↦ evicted q k (
            reserve_with_evict-IsFair fuel man (evict_one_pooled f).0 reference
              (omega (arith, c, lt)))
      ]
      | inr (inr (t, a, q)) ↦ elim (evict_one_pooled-cases f) [
        | inl (n, z) ↦ (
          reserve man f reference,
          q,
          record {
            exhausted = λ b u n e. ap pooled (reserve-pool man f reference) ∙ z;
            spared = λ k o ne. reserve-keeps man f reference k ne;
          },
        )
        | inr (y, c, k) ↦ absurd (cc (t, y))
      ]
    ]
  where
    evicted :
        reserve_with_evict (suc fuel) man f reference
          ≡ reserve_with_evict fuel man (evict_one_pooled f).0 reference
        → IsSpared f (evict_one_pooled f).0
        → ((r : Fleet × Admission) × (reserve_with_evict fuel man (evict_one_pooled f).0 reference
              ≡ some r)
            × IsFair (evict_one_pooled f).0 r)
        → ((r : Fleet × Admission) × (reserve_with_evict (suc fuel) man f reference ≡ some r)
            × IsFair f r)
    evicted q s (r, e, k) = (
      r,
      q ∙ e,
      record {
        exhausted = k.exhausted;
        spared = λ j o ne. k.spared j (s.ids j o) ne ∙ s.entries j o;
      },
    )
