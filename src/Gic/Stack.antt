-- ===== src/Gic/Stack.antt =====
-- crates/amber-hvf/src/gicv2.rs, the running-priority stack: acknowledge pushes, end of interrupt pops.
use amber.Prelude.{
  get_elem?-set-some, ℕ, zero, suc, ◌+◌, ◌≤◌, ◌<◌, ◌≡◌, refl, ap, ◌∙◌, Bool, true, false, none,
  some, List, [], ◌∷◌, arith, length, get_elem?, get_or, set, drop, length-set,
}
use amber.Gic.{
  GicV2, CpuBank, num_intid, private_count, spurious, deliverable, active_at, running_prio,
  highest_pending, acknowledge, end_of_interrupt, put_bank, gic_taken, bank_taken, iar_value,
  gic_ended, bank_ended,
}
use amber.Gic.Deliver.{highest_pending-deliverable}

-- Each priority value on the stack is below the one under it, and the lowest one below idle.
abbrev pub IsStack : List ℕ → Type 0
IsStack [] = Unit {0}
IsStack (p ∷ rest) = (p < get_or rest 0 255) × IsStack rest

-- So the stack holds at most 255 entries: the bound at which `capture` would cut it off.
pub length-IsStack : (rs : List ℕ) → IsStack rs → length rs + get_or rs 0 255 ≤ 255
length-IsStack [] h = omega arith
length-IsStack (p ∷ rest) h = omega (arith, length-IsStack rest h.1)

pub preempts :
    (g : GicV2) (cpu : ℕ) (b : CpuBank) (i p : ℕ)
    → highest_pending g cpu b ≡ some (i, p)
    → (p < running_prio b) × (active_at g b i ≡ false)
unfolding deliverable running_prio
preempts g cpu b i p e =
    let (_, d, q) = highest_pending-deliverable g cpu b i p e in ground (arith, d, q)

pub acknowledge_found :
    (g : GicV2) (cpu : ℕ) (b : CpuBank) (i p : ℕ)
    → get_elem? g.cpus cpu ≡ some b
    → highest_pending g cpu b ≡ some (i, p)
    → acknowledge g cpu ≡ some (put_bank (gic_taken g i) cpu (bank_taken b i p), iar_value b i)
unfolding acknowledge
acknowledge_found g cpu b i p e h = ground (arith, e, h)

pub acknowledge-spurious :
    (g : GicV2) (cpu : ℕ) (b : CpuBank)
    → get_elem? g.cpus cpu ≡ some b
    → highest_pending g cpu b ≡ none
    → acknowledge g cpu ≡ some (g, spurious)
unfolding acknowledge
acknowledge-spurious g cpu b e h = ground (arith, e, h)

pub taken_running : (b : CpuBank) (i p : ℕ) → (bank_taken b i p).running ≡ p ∷ b.running
unfolding bank_taken
taken_running b i p = ground arith

pub ended_running : (b : CpuBank) (i : ℕ) → (bank_ended b i).running ≡ drop 1 b.running
unfolding bank_ended
ended_running b i = ground arith

pub taken_cpus : (g : GicV2) (i : ℕ) → (gic_taken g i).cpus ≡ g.cpus
unfolding gic_taken
taken_cpus g i = ground arith

pub ended_cpus : (g : GicV2) (i : ℕ) → (gic_ended g i).cpus ≡ g.cpus
unfolding gic_ended
ended_cpus g i = ground arith

get_or-set_self :
    (xs : List Bool) (i : ℕ) (v d : Bool) → i < length xs → get_or (set xs i v) i d ≡ v
get_or-set_self [] i v d h = absurd (omega arith)
get_or-set_self (x ∷ xs) zero v d h = refl
get_or-set_self (x ∷ xs) (suc i) v d h = get_or-set_self xs i v d (omega arith)

-- The arrays have the sizes of the source.
pub record IsSized (g : GicV2) (b : CpuBank) : Type 0 where
  pub shared : length g.active ≡ num_intid
  pub banked : length b.active ≡ private_count

active_blocks :
    (g : GicV2) (cpu : ℕ) (b : CpuBank) (i : ℕ)
    → active_at g b i ≡ true
    → deliverable g cpu b i ≡ false
unfolding deliverable
active_blocks g cpu b i h = ground arith

module _ (g : GicV2) (cpu : ℕ) (b : CpuBank) (i p : ℕ) (z : IsSized g b) (lt : i < num_intid) where
  active_taken :
      active_at (put_bank (gic_taken g i) cpu (bank_taken b i p)) (bank_taken b i p) i ≡ true
  unfolding active_at gic_taken bank_taken
  active_taken = ground (
    arith,
    z.shared,
    z.banked,
    get_or-set_self b.active i true false,
    get_or-set_self g.active i true false,
  )

  active_ended :
      active_at
        (put_bank
          (gic_ended (put_bank (gic_taken g i) cpu (bank_taken b i p)) i)
          cpu
          (bank_ended (bank_taken b i p) i))
        (bank_ended (bank_taken b i p) i)
        i
      ≡ false
  unfolding active_at gic_taken bank_taken gic_ended bank_ended
  active_ended = ground (
    arith,
    z.shared,
    z.banked,
    length-set b.active i true,
    length-set g.active i true,
    get_or-set_self (set b.active i true) i false false,
    get_or-set_self (set g.active i true) i false false,
  )

-- On a CPU with a deliverable interrupt, an acknowledge reads the best INTID `i` (with its source
-- for an SGI), marks it active, so that it is not deliverable again, and pushes its priority, which
-- is strictly above the running one, as the new running priority. The end of interrupt for `i`
-- takes the mark away and restores the stack.
pub acknowledge-end_of_interrupt :
    (g : GicV2) (cpu : ℕ) (b : CpuBank) (i p : ℕ)
    → get_elem? g.cpus cpu ≡ some b
    → IsSized g b
    → highest_pending g cpu b ≡ some (i, p)
    → let g₁ = put_bank (gic_taken g i) cpu (bank_taken b i p) in
      let g₂ = put_bank (gic_ended g₁ i) cpu (bank_ended (bank_taken b i p) i) in
      (acknowledge g cpu ≡ some (g₁, iar_value b i))
      × (deliverable g₁ cpu (bank_taken b i p) i ≡ false)
      × (running_prio (bank_taken b i p) ≡ p)
      × (p < running_prio b)
      × (end_of_interrupt g₁ cpu i ≡ some g₂)
      × (active_at g₂ (bank_ended (bank_taken b i p) i) i ≡ false)
      × ((bank_ended (bank_taken b i p) i).running ≡ b.running)
acknowledge-end_of_interrupt g cpu b i p e z h =
    let (below, fresh) = preempts g cpu b i p h in
    let lt = (highest_pending-deliverable g cpu b i p h).0 in
    (
      acknowledge_found g cpu b i p e h,
      active_blocks _ cpu _ i (active_taken g cpu b i p z lt),
      new_top,
      below,
      finished,
      active_ended g cpu b i p z lt,
      ended_running (bank_taken b i p) i ∙ ap (drop 1) (taken_running b i p),
    )
  where
    new_top : running_prio (bank_taken b i p) ≡ p
    new_top = unfold running_prio in rw (taken_running b i p) refl

    finished :
        end_of_interrupt (put_bank (gic_taken g i) cpu (bank_taken b i p)) cpu i
        ≡ some (
            put_bank
              (gic_ended (put_bank (gic_taken g i) cpu (bank_taken b i p)) i)
              cpu
              (bank_ended (bank_taken b i p) i))
    finished =
        unfold end_of_interrupt in
        rw (taken_cpus g i, get_elem?-set-some g.cpus cpu (bank_taken b i p) e) refl
