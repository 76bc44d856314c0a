-- ===== src/Gic.antt =====
-- crates/amber-hvf/src/gicv2.rs: the software GICv2, distributor and CPU interfaces, as pure state.
-- The arrays are lists; a `u8` is a number below 256. An access of `self.cpus[cpu]` past the end is
-- a panic in the source, and `none` here.
pub mod Deliver
pub mod Stack
pub mod Mmio
pub mod Kept
pub mod Events
pub mod Blob
pub mod Restore
pub mod Tests
use amber.Prelude.{
  ℕ, zero, suc, ◌+◌, ◌-◌, ◌*◌, ◌/◌, ◌%◌, ◌^◌, ◌≤◌, ◌<◌, min, max, bit_and, bit_or, ◌≡◌, refl, sym,
  ap, ◌∙◌, ◌≢◌, ◌↔◌, ◌⊎◌, inl, inr, Bool, true, false, not, ◌&&◌, ◌||◌, Option, none, some, List,
  [], ◌∷◌, ◌++◌, map, append-nil, append_assoc, arith, ltb, leb, ◌==◌, if◌then◌else◌, Bool-cases,
  Option-cases, ◌>>=◌, is_some, length, get_elem?, get_or, set, take, drop, replicate, All, IsByte,
  keep, length-append, length-set, All-append, All-set, All-get_elem?, wrapping_add, wrapping_sub,
  not_u32, to_le, from_le, ==_iff, ltb→lt, lt→ltb, leb→le, le→leb, length-take, length-drop,
  length-replicate,
}

abbrev pub num_intid : ℕ
num_intid = 256

abbrev pub private_count : ℕ
private_count = 32

abbrev pub spurious : ℕ
spurious = 1023

abbrev pub idle_prio : ℕ
idle_prio = 0xff

abbrev pub max_cpus : ℕ
max_cpus = 8

-- `running` has its top first.
pub record CpuBank : Type 0 where
  pub cpu_enabled : Bool
  pub pmr : ℕ
  pub running : List ℕ
  pub enabled : List Bool
  pub pending : List Bool
  pub active : List Bool
  pub priority : List ℕ
  pub level : List Bool
  pub edge : List Bool
  pub sgi_src : List ℕ

pub record GicV2 : Type 0 where
  pub dist_enabled : Bool
  pub cpus : List CpuBank
  pub enabled : List Bool
  pub pending : List Bool
  pub active : List Bool
  pub priority : List ℕ
  pub level : List Bool
  pub edge : List Bool
  pub targets : List ℕ

-- `CpuBank::default`: SGIs are edge by nature.
abbrev pub default_bank : CpuBank
default_bank = record {
  cpu_enabled = false;
  pmr = 0;
  running = [];
  enabled = replicate 32 false;
  pending = replicate 32 false;
  active = replicate 32 false;
  priority = replicate 32 0;
  level = replicate 32 false;
  edge = replicate 16 true ++ replicate 16 false;
  sgi_src = replicate 16 0;
}

unfoldable pub with_cpus : ℕ → GicV2
with_cpus n = record {
  dist_enabled = false;
  cpus = replicate (min (max n 1) max_cpus) default_bank;
  enabled = replicate 256 false;
  pending = replicate 256 false;
  active = replicate 256 false;
  priority = replicate 256 0;
  level = replicate 256 false;
  edge = replicate 256 false;
  targets = replicate 256 1;
}

-- The accessors for one INTID: `b` is the bank of the CPU that asks, the GIC holds the SPIs.
-- The lists have 32 and 256 entries, and `i < 256` wherever these are called.
unfoldable pub enabled_at : GicV2 → CpuBank → ℕ → Bool
enabled_at g b i =
    if ltb i private_count then get_or b.enabled i false else get_or g.enabled i false

unfoldable pub active_at : GicV2 → CpuBank → ℕ → Bool
active_at g b i = if ltb i private_count then get_or b.active i false else get_or g.active i false

unfoldable pub priority_at : GicV2 → CpuBank → ℕ → ℕ
priority_at g b i = if ltb i private_count then get_or b.priority i 0 else get_or g.priority i 0

unfoldable pub edge_at : GicV2 → CpuBank → ℕ → Bool
edge_at g b i = if ltb i private_count then get_or b.edge i false else get_or g.edge i false

-- Latched bit for edge, live line for level; an SPI must also target this CPU.
unfoldable pub is_pending : GicV2 → ℕ → CpuBank → ℕ → Bool
is_pending g cpu b i =
    if ltb i private_count
    then (if get_or b.edge i false then get_or b.pending i false else get_or b.level i false)
    else if bit_and (get_or g.targets i 0) (2 ^ cpu) == 0
    then false
    else if get_or g.edge i false
    then get_or g.pending i false
    else get_or g.level i false

unfoldable pub running_prio : CpuBank → ℕ
running_prio b = get_or b.running 0 idle_prio

-- The tests of one round of `highest_pending`'s loop that do not depend on the best so far.
unfoldable pub deliverable : GicV2 → ℕ → CpuBank → ℕ → Bool
deliverable g cpu b i =
    enabled_at g b i
    && not (active_at g b i)
    && is_pending g cpu b i
    && ltb (priority_at g b i) b.pmr
    && ltb (priority_at g b i) (running_prio b)

-- `best.is_none_or(|(_, bp)| p < bp)`.
unfoldable pub better : Option (ℕ × ℕ) → ℕ → Bool
better none p = true
better (some (i, best)) p = ltb p best

-- `for i in 0..NUM_INTID`, from `i` on with the rounds left.
unfoldable pub highest_loop : GicV2 → ℕ → CpuBank → ℕ → ℕ → Option (ℕ × ℕ) → Option (ℕ × ℕ)
highest_loop g cpu b i zero best = best
highest_loop g cpu b i (suc rounds) best =
    let p = priority_at g b i in
    highest_loop g cpu b (i + 1) rounds
      (if deliverable g cpu b i && better best p then some (i, p) else best)

unfoldable pub highest_pending : GicV2 → ℕ → CpuBank → Option (ℕ × ℕ)
highest_pending g cpu b = if g.dist_enabled then highest_loop g cpu b 0 num_intid none else none

unfoldable pub irq_pending : GicV2 → ℕ → Option Bool
irq_pending g cpu = do
  b ← get_elem? g.cpus cpu
  some (b.cpu_enabled && is_some (highest_pending g cpu b))

abbrev pub put_bank : GicV2 → ℕ → CpuBank → GicV2
put_bank g cpu b = record g { cpus = set g.cpus cpu b }

unfoldable pub set_level : GicV2 → ℕ → ℕ → Bool → Option GicV2
set_level g cpu intid high =
    if ltb intid private_count
    then (do
      b ← get_elem? g.cpus cpu
      some (
          put_bank g cpu
            (record b { level = set b.level intid high; edge = set b.edge intid false })))
    else if ltb intid num_intid
    then some (record g { level = set g.level intid high; edge = set g.edge intid false })
    else some g

-- What an acknowledge does to the bank and to the shared block. Only the side that holds the INTID
-- gets the active mark; the priority is pushed either way.
unfoldable pub bank_taken : CpuBank → ℕ → ℕ → CpuBank
bank_taken b i prio =
    if ltb i private_count
    then record b {
      active = set b.active i true;
      pending = if get_or b.edge i false then set b.pending i false else b.pending;
      running = prio ∷ b.running;
    }
    else record b { running = prio ∷ b.running }

unfoldable pub gic_taken : GicV2 → ℕ → GicV2
gic_taken g i = if ltb i private_count then g else record g {
  active = set g.active i true;
  pending = if get_or g.edge i false then set g.pending i false else g.pending;
}

-- The value read: an SGI carries its source CPU in bits 12:10.
unfoldable pub iar_value : CpuBank → ℕ → ℕ
iar_value b i = if ltb i 16 then bit_or i (get_or b.sgi_src i 0 * 2 ^ 10) else i

-- GICC_IAR.
unfoldable pub acknowledge : GicV2 → ℕ → Option (GicV2 × ℕ)
acknowledge g cpu = do
  b ← get_elem? g.cpus cpu
  elim (highest_pending g cpu b) [
    | none ↦ some (g, spurious)
    | some (i, prio) ↦ some (put_bank (gic_taken g i) cpu (bank_taken b i prio), iar_value b i)
  ]

-- GICC_EOIR: the mark goes, and one priority is popped.
unfoldable pub bank_ended : CpuBank → ℕ → CpuBank
bank_ended b i =
    if ltb i private_count
    then record b { active = set b.active i false; running = drop 1 b.running }
    else record b { running = drop 1 b.running }

unfoldable pub gic_ended : GicV2 → ℕ → GicV2
gic_ended g i =
    if ltb i private_count
    then g
    else if ltb i num_intid
    then record g { active = set g.active i false }
    else g

unfoldable pub end_of_interrupt : GicV2 → ℕ → ℕ → Option GicV2
end_of_interrupt g cpu i = do
  b ← get_elem? g.cpus cpu
  some (put_bank (gic_ended g i) cpu (bank_ended b i))

-- The targets of a software-generated interrupt, by the filter of GICD_SGIR.
unfoldable pub sgi_hit : ℕ → ℕ → ℕ → ℕ → Bool
sgi_hit filter list cpu t =
    if filter == 0
    then not (bit_and list (2 ^ t) == 0)
    else if filter == 1
    then not (t == cpu)
    else t == cpu

-- `for t in 0..self.cpus.len()`, over the banks from `t` on.
unfoldable pub sgi_post : ℕ → ℕ → ℕ → ℕ → ℕ → List CpuBank → List CpuBank
sgi_post sgi filter list cpu t [] = []
sgi_post sgi filter list cpu t (b ∷ banks) =
    (if sgi_hit filter list cpu t
      then record b { pending = set b.pending sgi true; sgi_src = set b.sgi_src sgi (cpu % 2 ^ 8) }
      else b)
    ∷ sgi_post sgi filter list cpu (t + 1) banks

unfoldable pub sgir : GicV2 → ℕ → ℕ → GicV2
sgir g cpu v = record g {
  cpus =
      sgi_post (bit_and v 0xf) (bit_and (v / 2 ^ 24) 0x3) (bit_and (v / 2 ^ 16) 0xff) cpu 0 g.cpus;
}
