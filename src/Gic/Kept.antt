-- ===== src/Gic/Kept.antt =====
-- crates/amber-hvf/src/gicv2.rs: the distributor writes and line changes that leave the running-priority
-- stacks of the CPUs as they are.
use amber.Prelude.{
  ℕ, zero, suc, ◌+◌, ◌-◌, ◌*◌, ◌/◌, ◌%◌, ◌^◌, bit_and, ◌≡◌, refl, ap, ◌∙◌, inl, inr, Bool, true,
  false, ◌&&◌, Option, some, List, [], ◌∷◌, arith, ltb, leb, ◌==◌, if◌then◌else◌, Bool-cases,
  Option-cases, get_elem?, set,
}
use amber.Gic.{GicV2, CpuBank, num_intid, private_count, sgir, sgi_post, sgi_hit, set_level}
use amber.Gic.Mmio.{
  in_block, Mark, enable_mark, pending_mark, active_mark, set_bank_mark, set_gic_mark, update_intid,
  for_each, bits_set, write_priorities, write_target, write_targets, write_config, dist_write,
}

abbrev pub stacks : List CpuBank → List (List ℕ)
stacks [] = []
stacks (b ∷ banks) = b.running ∷ stacks banks

pub stacks-set_same :
    (banks : List CpuBank) (cpu : ℕ) (b b' : CpuBank)
    → get_elem? banks cpu ≡ some b
    → b'.running ≡ b.running
    → stacks (set banks cpu b') ≡ stacks banks
stacks-set_same [] cpu b b' e r = refl
stacks-set_same (x ∷ banks) zero b b' e r =
    let same : x ≡ b = cc in let r' : b'.running ≡ x.running = rw same r in rw r' refl
stacks-set_same (x ∷ banks) (suc cpu) b b' e r =
    ap (◌∷◌ x.running) (stacks-set_same banks cpu b b' e r)

-- A step that leaves the stacks alone, where it succeeds.
abbrev pub Keeps : GicV2 → Option GicV2 → Type 0
Keeps g r = (g' : GicV2) → r ≡ some g' → stacks g'.cpus ≡ stacks g.cpus

update_intid-Keeps :
    (g : GicV2) (cpu i : ℕ) (banked : CpuBank → CpuBank) (shared : GicV2 → GicV2)
    → ((b : CpuBank) → (banked b).running ≡ b.running)
    → ((g : GicV2) → (shared g).cpus ≡ g.cpus)
    → Keeps g (update_intid g cpu i banked shared)
unfolding update_intid
update_intid-Keeps g cpu i banked shared hb hs g' e = elim (Option-cases (get_elem? g.cpus cpu)) [
  | inl n ↦ ground (arith, e, n, hs g)
  | inr (b, n) ↦ ground (arith, e, n, hs g, stacks-set_same g.cpus cpu b (banked b) n (hb b))
]

pub for_each-Keeps :
    (step : GicV2 → ℕ → Option GicV2)
    → ((g : GicV2) (k : ℕ) → Keeps g (step g k))
    → (rounds k : ℕ) (g : GicV2) → Keeps g (for_each step k rounds g)
unfolding for_each
for_each-Keeps step h zero k g g' e = let same : g ≡ g' = cc in rw same refl
for_each-Keeps step h (suc rounds) k g g' e = elim (Option-cases (step g k)) [
  | inl n ↦ absurd (ground (arith, e, n))
  | inr (m, n) ↦ for_each-Keeps step h rounds (k + 1) m g' (rw n at e) ∙ h g k m n
]

pub Keeps-same : (g g' : GicV2) → g'.cpus ≡ g.cpus → Keeps g (some g')
Keeps-same g g' h g'' e = let same : g' ≡ g'' = cc in rw (← same, h) refl

pub Keeps-if :
    (g : GicV2) (c : Bool) {x y : Option GicV2}
    → Keeps g x
    → Keeps g y
    → Keeps g (if c then x else y)
Keeps-if g true hx hy = hx
Keeps-if g false hx hy = hy

set_bank_mark-running :
    (mark : Mark) (b : CpuBank) (i : ℕ) (on : Bool)
    → (set_bank_mark mark b i on).running ≡ b.running
unfolding set_bank_mark
set_bank_mark-running enable_mark b i on = refl
set_bank_mark-running pending_mark b i on = refl
set_bank_mark-running active_mark b i on = refl

set_gic_mark-cpus :
    (mark : Mark) (g : GicV2) (i : ℕ) (on : Bool) → (set_gic_mark mark g i on).cpus ≡ g.cpus
unfolding set_gic_mark
set_gic_mark-cpus enable_mark g i on = refl
set_gic_mark-cpus pending_mark g i on = refl
set_gic_mark-cpus active_mark g i on = refl

bits_set-Keeps :
    (mark : Mark) (on : Bool) (cpu base v : ℕ) (g : GicV2) → Keeps g (bits_set mark on cpu base v g)
unfolding bits_set
bits_set-Keeps mark on cpu base v g =
    for_each-Keeps _
      (λ g b. Keeps-if g (bit_and v (2 ^ b) == 0) {x = some g} (Keeps-same g g refl) (
        update_intid-Keeps g cpu (base + b) _ _ (λ k. set_bank_mark-running mark k (base + b) on)
          (λ g. set_gic_mark-cpus mark g (base + b) on)))
      32 0 g

write_priorities-Keeps :
    (cpu idx size v : ℕ) (g : GicV2) → Keeps g (write_priorities cpu idx size v g)
unfolding write_priorities
write_priorities-Keeps cpu idx size v g =
    for_each-Keeps _ (λ g k. update_intid-Keeps g cpu (idx + k) _ _ (λ b. refl) (λ g. refl)) size 0
      g

write_targets-Keeps : (idx size v : ℕ) (g : GicV2) → Keeps g (write_targets idx size v g)
unfolding write_targets write_target
write_targets-Keeps idx size v g =
    for_each-Keeps _
      (λ g k.
        Keeps-if g (leb private_count (idx + k) && ltb (idx + k) num_intid) (Keeps-same g _ refl)
          (Keeps-same g g refl))
      size 0 g

write_config-Keeps : (cpu base v : ℕ) (g : GicV2) → Keeps g (write_config cpu base v g)
unfolding write_config
write_config-Keeps cpu base v g =
    for_each-Keeps _
      (λ g b.
        Keeps-if g (ltb (base + b) 16) (Keeps-same g g refl)
          (update_intid-Keeps g cpu (base + b) _ _ (λ b. refl) (λ g. refl)))
      16 0 g

sgi_post-stacks :
    (sgi filter list cpu t : ℕ) (banks : List CpuBank)
    → stacks (sgi_post sgi filter list cpu t banks) ≡ stacks banks
unfolding sgi_post
sgi_post-stacks sgi filter list cpu t [] = refl
sgi_post-stacks sgi filter list cpu t (b ∷ banks) = elim (Bool-cases (sgi_hit filter list cpu t)) [
  | inl e ↦ rw (e, sgi_post-stacks sgi filter list cpu (t + 1) banks) refl
  | inr e ↦ rw (e, sgi_post-stacks sgi filter list cpu (t + 1) banks) refl
]

pub dist_write-Keeps : (g : GicV2) (cpu off size val : ℕ) → Keeps g (dist_write g cpu off size val)
unfolding dist_write sgir
dist_write-Keeps g cpu off size val =
    let v = val % 2 ^ 32 in
    let o = off / 4 * 4 in
    Keeps-if g (in_block off 0x400 64) (write_priorities-Keeps cpu (off - 0x400) size val g) (
      Keeps-if g (in_block off 0x800 64) (write_targets-Keeps (off - 0x800) size val g) (
        Keeps-if g (o == 0x000) (Keeps-same g _ refl) (
          Keeps-if g (in_block o 0x100 32) (bits_set-Keeps enable_mark true cpu _ v g) (
            Keeps-if g (in_block o 0x180 32) (bits_set-Keeps enable_mark false cpu _ v g) (
              Keeps-if g (in_block o 0x200 32) (bits_set-Keeps pending_mark true cpu _ v g) (
                Keeps-if g (in_block o 0x280 32) (bits_set-Keeps pending_mark false cpu _ v g) (
                  Keeps-if g (in_block o 0x300 32) (bits_set-Keeps active_mark true cpu _ v g) (
                    Keeps-if g (in_block o 0x380 32) (bits_set-Keeps active_mark false cpu _ v g) (
                      Keeps-if g (in_block o 0xc00 16) (write_config-Keeps cpu _ v g)
                        (Keeps-if g (o == 0xf00) posted (Keeps-same g g refl)))))))))))
  where
    posted : Keeps g (some (sgir g cpu (val % 2 ^ 32)))
    posted g' e =
        let same : sgir g cpu (val % 2 ^ 32) ≡ g' = cc in
        rw (← same) (
          sgi_post-stacks (bit_and (val % 2 ^ 32) 0xf) (bit_and (val % 2 ^ 32 / 2 ^ 24) 0x3)
            (bit_and (val % 2 ^ 32 / 2 ^ 16) 0xff) cpu 0 g.cpus)

pub set_level-Keeps :
    (g : GicV2) (cpu intid : ℕ) (high : Bool) → Keeps g (set_level g cpu intid high)
unfolding set_level
set_level-Keeps g cpu intid high g' e = elim (Option-cases (get_elem? g.cpus cpu)) [
  | inl n ↦ ground (arith, e, n)
  | inr (b, n) ↦ ground (
    arith,
    e,
    n,
    stacks-set_same g.cpus cpu b
        (record b { level = set b.level intid high; edge = set b.edge intid false }) n refl,
  )
]
