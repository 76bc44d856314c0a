-- ===== src/Gic/Events.antt =====
-- crates/amber-hvf/src/gicv2.rs: every access by a guest or the run loop keeps the running-priority stacks nested.
use amber.Prelude.{
  subst, ℕ, zero, suc, ◌*◌, ◌/◌, ◌%◌, ◌^◌, ◌≤◌, min, max, bit_and, ◌≡◌, refl, sym, inl, inr, Bool,
  true, false, not, Option, none, some, List, [], ◌∷◌, arith, ◌==◌, if◌then◌else◌, Option-cases,
  ◌>>=◌, length, get_elem?, set, drop, replicate, All,
}
use amber.Gic.{
  running_prio, spurious, GicV2, CpuBank, default_bank, put_bank, acknowledge, end_of_interrupt,
  set_level, with_cpus, highest_pending, gic_taken, bank_taken, iar_value, gic_ended, bank_ended,
  max_cpus,
}
use amber.Gic.Stack.{
  IsStack, length-IsStack, preempts, acknowledge_found, acknowledge-spurious, taken_running,
  ended_running, taken_cpus, ended_cpus,
}
use amber.Gic.Mmio.{dist_write, cpu_read, cpu_write}
use amber.Gic.Kept.{stacks, stacks-set_same, Keeps, Keeps-same, dist_write-Keeps, set_level-Keeps}

-- The stacks of all CPUs are nested.
abbrev pub IsNested : GicV2 → Type 0
IsNested g = All IsStack (stacks g.cpus)

IsStack-of :
    (banks : List CpuBank) (cpu : ℕ) (b : CpuBank)
    → get_elem? banks cpu ≡ some b
    → All IsStack (stacks banks)
    → IsStack b.running
IsStack-of [] cpu b e h = cc
IsStack-of (x ∷ banks) zero b e h = let same : x ≡ b = cc in rw (← same) h.0
IsStack-of (x ∷ banks) (suc cpu) b e h = IsStack-of banks cpu b e h.1

stacks-set :
    (banks : List CpuBank) (cpu : ℕ) (b : CpuBank)
    → IsStack b.running
    → All IsStack (stacks banks)
    → All IsStack (stacks (set banks cpu b))
stacks-set [] cpu b k h = tt
stacks-set (x ∷ banks) zero b k h = (k, h.1)
stacks-set (x ∷ banks) (suc cpu) b k h = (h.0, stacks-set banks cpu b k h.1)

drop-IsStack : (rs : List ℕ) → IsStack rs → IsStack (drop 1 rs)
drop-IsStack [] h = tt
drop-IsStack (p ∷ rs) h = h.1

Keeps-IsNested : (g g' : GicV2) → stacks g'.cpus ≡ stacks g.cpus → IsNested g → IsNested g'
Keeps-IsNested g g' e h = subst (All IsStack) (sym e) h

acknowledge-IsNested :
    (g : GicV2) (cpu : ℕ) (r : GicV2 × ℕ) → acknowledge g cpu ≡ some r → IsNested g → IsNested r.0
acknowledge-IsNested g cpu r e h = elim (Option-cases (get_elem? g.cpus cpu)) [
  | inl n ↦ absurd (none_ne n)
  | inr (b, n) ↦ elim (Option-cases (highest_pending g cpu b)) [
    | inl q ↦ let same : (g, spurious) ≡ r = cc (acknowledge-spurious g cpu b n q) in rw (← same) h
    | inr ((i, p), q) ↦
        let same : (put_bank (gic_taken g i) cpu (bank_taken b i p), iar_value b i) ≡ r =
          cc (acknowledge_found g cpu b i p n q) in
        rw (← same, taken_cpus g i) (stacks-set g.cpus cpu (bank_taken b i p) (pushed b n i p q) h)
  ]
]
  where
    none_ne : get_elem? g.cpus cpu ≡ none → ⊥
    none_ne n = unfold acknowledge in ground (arith, e, n)

    pushed :
        (b : CpuBank)
        → get_elem? g.cpus cpu ≡ some b
        → (i p : ℕ) → highest_pending g cpu b ≡ some (i, p)
        → IsStack (bank_taken b i p).running
    pushed b n i p q =
        rw (taken_running b i p)
          (unfold running_prio in (preempts g cpu b i p q).0, IsStack-of g.cpus cpu b n h)

end_of_interrupt-IsNested :
    (g : GicV2) (cpu i : ℕ) (g' : GicV2)
    → end_of_interrupt g cpu i ≡ some g'
    → IsNested g
    → IsNested g'
unfolding end_of_interrupt
end_of_interrupt-IsNested g cpu i g' e h = elim (Option-cases (get_elem? g.cpus cpu)) [
  | inl n ↦ absurd (ground (arith, e, n))
  | inr (b, n) ↦
      let same : put_bank (gic_ended g i) cpu (bank_ended b i) ≡ g' = ground (arith, e, n) in
      let popped : IsStack (bank_ended b i).running =
        rw (ended_running b i) (drop-IsStack b.running (IsStack-of g.cpus cpu b n h)) in
      rw (← same, ended_cpus g i) (stacks-set g.cpus cpu (bank_ended b i) popped h)
]

-- An answer whose state is nested.
abbrev Nested-answer : Option (GicV2 × ℕ) → Type 0
Nested-answer r = (a : GicV2 × ℕ) → r ≡ some a → IsNested a.0

answer-if :
    (c : Bool) {x y : Option (GicV2 × ℕ)}
    → Nested-answer x
    → Nested-answer y
    → Nested-answer (if c then x else y)
answer-if true hx hy = hx
answer-if false hx hy = hy

answer-view :
    (g : GicV2) (v : CpuBank → ℕ) (o : Option CpuBank)
    → IsNested g
    → Nested-answer (◌>>=◌ {B = GicV2 × ℕ} o (λ b. some (g, v b)))
answer-view g v none h a e = cc
answer-view g v (some b) h a e = let same : g ≡ a.0 = ground (arith, e) in rw (← same) h

answer-same : (g : GicV2) (v : ℕ) → IsNested g → Nested-answer (some (g, v))
answer-same g v h a e = let same : g ≡ a.0 = ground (arith, e) in rw (← same) h

answer-acknowledge :
    (f : ℕ → ℕ) (r : Option (GicV2 × ℕ))
    → Nested-answer r
    → Nested-answer (◌>>=◌ {B = GicV2 × ℕ} r (λ x. some (x.0, f x.1)))
answer-acknowledge f none h a e = cc
answer-acknowledge f (some x) h a e =
    let same : x.0 ≡ a.0 = ground (arith, e) in rw (← same) (h x refl)

cpu_read-IsNested :
    (g : GicV2) (cpu off size : ℕ) (a : GicV2 × ℕ)
    → cpu_read g cpu off size ≡ some a
    → IsNested g
    → IsNested a.0
unfolding cpu_read
cpu_read-IsNested g cpu off size a e h = all a e
  where
    all : Nested-answer (cpu_read g cpu off size)
    all =
        let o = off / 4 * 4 in
        answer-if (o == 0x00) (answer-view g _ (get_elem? g.cpus cpu) h) (
          answer-if (o == 0x04) (answer-view g _ (get_elem? g.cpus cpu) h) (
            answer-if (o == 0x08) (answer-same g _ h) (
              answer-if (o == 0x0c)
                (answer-acknowledge _ (acknowledge g cpu) (λ x q. acknowledge-IsNested g cpu x q h))
                (answer-if (o == 0x14) (answer-view g _ (get_elem? g.cpus cpu) h) (
                  answer-if (o == 0x18) (answer-view g _ (get_elem? g.cpus cpu) h)
                    (answer-if (o == 0xfc) (answer-same g _ h) (answer-same g _ h)))))))

bank-Keeps :
    (g : GicV2) (cpu : ℕ) (f : CpuBank → CpuBank) (o : Option CpuBank)
    → get_elem? g.cpus cpu ≡ o
    → ((b : CpuBank) → (f b).running ≡ b.running)
    → Keeps g (o >>= (λ b. some (put_bank g cpu (f b))))
bank-Keeps g cpu f none e h g' q = cc
bank-Keeps g cpu f (some b) e h g' q =
    let same : put_bank g cpu (f b) ≡ g' = cc in
    rw (← same) (stacks-set_same g.cpus cpu b (f b) e (h b))

Nested-if :
    (c : Bool) (x y : Option GicV2)
    → ((g' : GicV2) → x ≡ some g' → IsNested g')
    → ((g' : GicV2) → y ≡ some g' → IsNested g')
    → (g' : GicV2) → (if c then x else y) ≡ some g'
    → IsNested g'
Nested-if true x y hx hy = hx
Nested-if false x y hx hy = hy

cpu_write-IsNested :
    (g : GicV2) (cpu off val : ℕ) (g' : GicV2)
    → cpu_write g cpu off val ≡ some g'
    → IsNested g
    → IsNested g'
unfolding cpu_write
cpu_write-IsNested g cpu off val g' e h =
    let v = val % 2 ^ 32 in
    let o = off / 4 * 4 in
    let kept =
      λ (f : CpuBank → CpuBank) (r : (b : CpuBank) → (f b).running ≡ b.running) (k : GicV2)
          (q : (get_elem? g.cpus cpu >>= (λ b. some (put_bank g cpu (f b)))) ≡ some k).
        Keeps-IsNested g k (bank-Keeps g cpu f (get_elem? g.cpus cpu) refl r k q) h in
    Nested-if (o == 0x00) _ _
      (kept (λ b. record b { cpu_enabled = not (bit_and v 1 == 0) }) (λ b. refl))
      (Nested-if (o == 0x04) _ _ (kept (λ b. record b { pmr = v % 2 ^ 8 }) (λ b. refl)) (
        Nested-if (o == 0x10) _ _ (λ k q. end_of_interrupt-IsNested g cpu (bit_and v 0x3ff) k q h)
          (λ k q. Keeps-IsNested g k (Keeps-same g g refl k q) h)))
      g' e

-- An access that the run loop makes for a guest, or a line that it drives. The value and the target
-- CPU are any; the access must not have panicked.
pub data Event (g : GicV2) : GicV2 → Type 0 where
  dist_writes :
      {g' : GicV2} (cpu off size val : ℕ) → dist_write g cpu off size val ≡ some g' → Event g g'
  cpu_writes : {g' : GicV2} (cpu off val : ℕ) → cpu_write g cpu off val ≡ some g' → Event g g'
  cpu_reads :
      {g' : GicV2} (cpu off size v : ℕ) → cpu_read g cpu off size ≡ some (g', v) → Event g g'
  drives :
      {g' : GicV2} (cpu intid : ℕ) (high : Bool) → set_level g cpu intid high ≡ some g' → Event g g'

pub data Reach (g : GicV2) : GicV2 → Type 0 where
  here : Reach g g
  later : {g' g'' : GicV2} → Reach g g' → Event g' g'' → Reach g g''

Event-IsNested : {g g' : GicV2} → Event g g' → IsNested g → IsNested g'
Event-IsNested {g} {g'} (dist_writes cpu off size val e) h =
    Keeps-IsNested g g' (dist_write-Keeps g cpu off size val g' e) h
Event-IsNested {g} {g'} (cpu_writes cpu off val e) h = cpu_write-IsNested g cpu off val g' e h
Event-IsNested {g} {g'} (cpu_reads cpu off size v e) h =
    cpu_read-IsNested g cpu off size (g', v) e h
Event-IsNested {g} {g'} (drives cpu intid high e) h =
    Keeps-IsNested g g' (set_level-Keeps g cpu intid high g' e) h

Reach-IsNested : {g g' : GicV2} → Reach g g' → IsNested g → IsNested g'
Reach-IsNested here h = h
Reach-IsNested (later r e) h = Event-IsNested e (Reach-IsNested r h)

fresh_stacks : (n : ℕ) → All IsStack (stacks (replicate n default_bank))
fresh_stacks zero = tt
fresh_stacks (suc n) = (tt, fresh_stacks n)

depth :
    (banks : List CpuBank) → All IsStack (stacks banks) → All (λ b. length b.running ≤ 255) banks
depth [] h = tt
depth (b ∷ banks) h = (omega (arith, length-IsStack b.running h.0), depth banks h.1)

-- After any sequence of register accesses and line changes on a fresh GIC, the stack of every CPU is
-- nested: each running priority is strictly above the one it preempted and below idle, so at most
-- 255 interrupts are in service, which is the depth that a snapshot keeps.
pub with_cpus-Reach-IsNested :
    (n : ℕ) {g : GicV2}
    → Reach (with_cpus n) g
    → IsNested g × All (λ b. length b.running ≤ 255) g.cpus
unfolding with_cpus
with_cpus-Reach-IsNested n {g} r =
    let h = Reach-IsNested r (fresh_stacks (min (max n 1) max_cpus)) in (h, depth g.cpus h)
