-- ===== src/Gic/Deliver.antt =====
-- crates/amber-hvf/src/gicv2.rs: which interrupt is delivered: the scan of `highest_pending` against its specification.
use amber.Prelude.{
  subst, ℕ, zero, suc, ◌+◌, ◌≤◌, ◌<◌, ◌≡◌, refl, inl, inr, Bool, true, false, ◌&&◌, Option, none,
  some, arith, ◌==◌, if◌then◌else◌, Bool-cases, ==_iff,
}
use amber.Gic.{
  GicV2, CpuBank, num_intid, deliverable, priority_at, better, highest_loop, highest_pending,
}

module _ (g : GicV2) (cpu : ℕ) (b : CpuBank) where
  -- `best` is right for the INTIDs below `n`: the least priority value among those deliverable, and
  -- among equals the least INTID; or none of them is deliverable.
  abbrev pub IsBest : ℕ → Option (ℕ × ℕ) → Type 0
  IsBest n none = (j : ℕ) → j < n → deliverable g cpu b j ≡ false
  IsBest n (some (i, p)) =
      (i < n)
      × (deliverable g cpu b i ≡ true)
      × (p ≡ priority_at g b i)
      × ((j : ℕ)
          → j < n
          → deliverable g cpu b j ≡ true
          → (p ≤ priority_at g b j) × (j < i → p < priority_at g b j))

  -- One more INTID that is not deliverable changes nothing.
  IsBest-skip :
      (n : ℕ) (best : Option (ℕ × ℕ))
      → deliverable g cpu b n ≡ false
      → IsBest n best
      → IsBest (n + 1) best
  IsBest-skip n none d h = λ j lt. elim (Bool-cases (j == n)) [
    | inl e ↦ let same = (==_iff j n).0 e in rw same d
    | inr e ↦ h j (ground arith)
  ]
  IsBest-skip n (some (i, p)) d (lt, di, pi, all) = (
    omega arith,
    di,
    pi,
    λ j jlt dj. elim (Bool-cases (j == n)) [
      | inl e ↦ let same = (==_iff j n).0 e in absurd (clash j same dj)
      | inr e ↦ all j (ground arith) dj
    ],
  )
    where
      clash : (j : ℕ) → j ≡ n → deliverable g cpu b j ≡ true → ⊥
      clash j e dj = let d' : deliverable g cpu b j ≡ false = rw e d in cc

  -- A deliverable INTID that is strictly better takes the place.
  IsBest-take :
      (n : ℕ) (best : Option (ℕ × ℕ))
      → deliverable g cpu b n ≡ true
      → better best (priority_at g b n) ≡ true
      → IsBest n best
      → IsBest (n + 1) (some (n, priority_at g b n))
  unfolding better
  IsBest-take n best d t h = (
    omega arith,
    d,
    refl,
    λ j jlt dj. elim (Bool-cases (j == n)) [
      | inl e ↦ let same = (==_iff j n).0 e in rw same (omega arith, λ x. absurd (omega arith))
      | inr e ↦ below best t h j (ground arith) dj
    ],
  )
    where
      below :
          (o : Option (ℕ × ℕ))
          → better o (priority_at g b n) ≡ true
          → IsBest n o
          → (j : ℕ) → j < n
          → deliverable g cpu b j ≡ true
          → (priority_at g b n ≤ priority_at g b j)
            × (j < n → priority_at g b n < priority_at g b j)
      below none t h j lt dj = let no = h j lt in cc
      below (some (i, p)) t (_, _, _, all) j lt dj =
          let a = (all j lt dj).0 in
          let s : priority_at g b n < p = ground arith in (omega arith, λ x. omega arith)

  -- One that is not better leaves the place: it comes later, so equals lose.
  IsBest-keep :
      (n : ℕ) (best : Option (ℕ × ℕ))
      → deliverable g cpu b n ≡ true
      → better best (priority_at g b n) ≡ false
      → IsBest n best
      → IsBest (n + 1) best
  unfolding better
  IsBest-keep n none d t h = cc
  IsBest-keep n (some (i, p)) d t (lt, di, pi, all) =
      let worse : p ≤ priority_at g b n = ground arith in
      (
        omega arith,
        di,
        pi,
        λ j jlt dj. elim (Bool-cases (j == n)) [
          | inl e ↦ let same = (==_iff j n).0 e in rw same (worse, λ x. absurd (omega arith))
          | inr e ↦ all j (ground arith) dj
        ],
      )

  IsBest-step :
      (n : ℕ) (best : Option (ℕ × ℕ))
      → IsBest n best
      → IsBest (n + 1) (
          if deliverable g cpu b n && better best (priority_at g b n)
          then some (n, priority_at g b n)
          else best)
  IsBest-step n best h = elim (Bool-cases (deliverable g cpu b n)) [
    | inr d ↦ rw d (IsBest-skip n best d h)
    | inl d ↦ elim (Bool-cases (better best (priority_at g b n))) [
      | inl t ↦ rw (d, t) (IsBest-take n best d t h)
      | inr t ↦ rw (d, t) (IsBest-keep n best d t h)
    ]
  ]

  highest_loop-IsBest :
      (i rounds n : ℕ) (best : Option (ℕ × ℕ))
      → i + rounds ≡ n
      → IsBest i best
      → IsBest n (highest_loop g cpu b i rounds best)
  unfolding highest_loop
  highest_loop-IsBest i zero n best e h = let same : n ≡ i = omega arith in rw same h
  highest_loop-IsBest i (suc rounds) n best e h =
      highest_loop-IsBest (i + 1) rounds n _ (omega arith) (IsBest-step i best h)

-- With the distributor enabled, `highest_pending` finds the deliverable INTID of the least priority
-- value, the lowest INTID among equals, with its priority; it answers none exactly when no INTID is
-- deliverable to that CPU.
pub highest_pending-IsBest :
    (g : GicV2) (cpu : ℕ) (b : CpuBank)
    → g.dist_enabled ≡ true
    → IsBest g cpu b num_intid (highest_pending g cpu b)
unfolding highest_pending
highest_pending-IsBest g cpu b e = pick g.dist_enabled e
  where
    pick :
        (on : Bool)
        → on ≡ true
        → IsBest g cpu b num_intid (if on then highest_loop g cpu b 0 num_intid none else none)
    pick true e =
        highest_loop-IsBest g cpu b 0 num_intid num_intid none (omega arith)
          (λ j lt. absurd (omega arith))
    pick false e = cc

-- What it finds is deliverable, also where the distributor is off and it finds nothing.
pub highest_pending-deliverable :
    (g : GicV2) (cpu : ℕ) (b : CpuBank) (i p : ℕ)
    → highest_pending g cpu b ≡ some (i, p)
    → (i < num_intid) × (deliverable g cpu b i ≡ true) × (p ≡ priority_at g b i)
highest_pending-deliverable g cpu b i p e = elim (Bool-cases g.dist_enabled) [
  | inl on ↦
      let best = subst (IsBest g cpu b num_intid) e (highest_pending-IsBest g cpu b on) in
      (best.0, best.1, best.2)
  | inr off ↦ absurd (ground (arith, silent off))
]
  where
    silent : g.dist_enabled ≡ false → highest_pending g cpu b ≡ none
    silent off = unfold highest_pending in pick g.dist_enabled off
      where
        pick :
            (on : Bool)
            → on ≡ false
            → (if on then highest_loop g cpu b 0 num_intid none else none) ≡ none
        pick true e = cc
        pick false e = refl
