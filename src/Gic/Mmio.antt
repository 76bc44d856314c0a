-- ===== src/Gic/Mmio.antt =====
-- The register windows of crates/amber-hvf/src/gicv2.rs: `dist_read`, `dist_write`, `cpu_read` and
-- `cpu_write`. A register over private INTIDs uses the bank of the accessing CPU and panics (`none`)
-- if there is none; one over SPIs does not look at the banks. `x & !0x3` is `x / 4 * 4`.
use amber.Prelude.{
  ℕ, zero, suc, ◌+◌, ◌-◌, ◌*◌, ◌/◌, ◌%◌, ◌^◌, bit_and, bit_or, Bool, true, false, not, ◌&&◌, ◌||◌,
  Option, none, some, ltb, leb, ◌==◌, if◌then◌else◌, ◌>>=◌, length, get_elem?, get_or, set,
}
use amber.Gic.{
  GicV2, CpuBank, default_bank, num_intid, private_count, spurious, enabled_at, active_at,
  priority_at, edge_at, is_pending, running_prio, highest_pending, put_bank, acknowledge,
  end_of_interrupt, sgir,
}

abbrev pub align4 : ℕ → ℕ
align4 off = off / 4 * 4

-- `range`: is `off` in the block of `count` registers at `start`?
unfoldable pub in_block : ℕ → ℕ → ℕ → Bool
in_block off start count = leb start off && ltb off (start + count * 4)

unfoldable pub base_index : ℕ → ℕ → ℕ
base_index off start = align4 (off - start) * 8

unfoldable pub base_index_cfg : ℕ → ℕ
base_index_cfg off = align4 (off - 0xc00) * 4

unfoldable pub extract : ℕ → ℕ → ℕ → ℕ
extract reg off size =
    bit_and (reg / 2 ^ (off % 4 * 8))
      (if size == 1 then 0xff else if size == 2 then 0xffff else 0xffff_ffff)

-- The bank that the INTIDs from `base` on need.
unfoldable pub bank_for : GicV2 → ℕ → ℕ → Option CpuBank
bank_for g cpu base = if ltb base private_count then get_elem? g.cpus cpu else some default_bank

-- `for b in 0..rounds { if base + b < NUM_INTID && f(base + b) { v |= 1 << b } }`, from `b` on.
unfoldable pub bitset_loop : (ℕ → Bool) → ℕ → ℕ → ℕ → ℕ → ℕ
bitset_loop f base b zero v = v
bitset_loop f base b (suc rounds) v =
    bitset_loop f base (b + 1) rounds
      (if ltb (base + b) num_intid && f (base + b) then bit_or v (2 ^ b) else v)

-- The fields of `width` bits packed into one register, `count` of them from `b` on.
unfoldable pub fields_loop : (ℕ → ℕ) → ℕ → ℕ → ℕ → ℕ → ℕ → ℕ
fields_loop f width base b zero v = v
fields_loop f width base b (suc rounds) v =
    fields_loop f width base (b + 1) rounds
      (if ltb (base + b) num_intid then bit_or v (f (base + b) * 2 ^ (b * width)) else v)

-- ITARGETSR reads as "this CPU" for private INTIDs.
unfoldable pub target_at : GicV2 → ℕ → ℕ → ℕ
target_at g cpu i = if ltb i private_count then bit_and (2 ^ cpu) 0xff else get_or g.targets i 0

unfoldable pub dist_read32 : GicV2 → ℕ → ℕ → Option ℕ
dist_read32 g cpu off =
    let bits = λ (start : ℕ) (f : CpuBank → ℕ → Bool).
      bank_for g cpu (base_index off start)
      >>= (λ b. some (bitset_loop (f b) (base_index off start) 0 32 0)) in
    if off == 0x000
    then some (if g.dist_enabled then 1 else 0)
    else if off == 0x004
    then some (bit_or (bit_and (num_intid / 32 - 1) 0x1f) ((length g.cpus - 1) * 2 ^ 5))
    else if off == 0x008
    then some 0x0200_043b
    else if in_block off 0x080 32
    then some 0
    else if in_block off 0x100 32 || in_block off 0x180 32
    then bits (if ltb off 0x180 then 0x100 else 0x180) (λ b i. enabled_at g b i)
    else if in_block off 0x200 32 || in_block off 0x280 32
    then bits (if ltb off 0x280 then 0x200 else 0x280) (λ b i. is_pending g cpu b i)
    else if in_block off 0x300 32 || in_block off 0x380 32
    then bits (if ltb off 0x380 then 0x300 else 0x380) (λ b i. active_at g b i)
    else if in_block off 0x400 64
    then (do
      b ← bank_for g cpu (align4 (off - 0x400))
      some (fields_loop (λ i. priority_at g b i) 8 (align4 (off - 0x400)) 0 4 0))
    else if in_block off 0x800 64
    then some (fields_loop (λ i. target_at g cpu i) 8 (align4 (off - 0x800)) 0 4 0)
    else if in_block off 0xc00 16
    then (do
      b ← bank_for g cpu (base_index_cfg off)
      some (fields_loop (λ i. if edge_at g b i then 2 else 0) 2 (base_index_cfg off) 0 16 0))
    else some 0

unfoldable pub dist_read : GicV2 → ℕ → ℕ → ℕ → Option ℕ
dist_read g cpu off size = do v ← dist_read32 g cpu (align4 off); some (extract v off size)

-- The arrays that the set and clear registers write.
pub data Mark : Type 0 where
  enable_mark pending_mark active_mark : Mark

unfoldable pub set_bank_mark : Mark → CpuBank → ℕ → Bool → CpuBank
set_bank_mark enable_mark b i on = record b { enabled = set b.enabled i on }
set_bank_mark pending_mark b i on = record b { pending = set b.pending i on }
set_bank_mark active_mark b i on = record b { active = set b.active i on }

unfoldable pub set_gic_mark : Mark → GicV2 → ℕ → Bool → GicV2
set_gic_mark enable_mark g i on = record g { enabled = set g.enabled i on }
set_gic_mark pending_mark g i on = record g { pending = set g.pending i on }
set_gic_mark active_mark g i on = record g { active = set g.active i on }

-- The bank or the shared block, by the INTID: `if i < PRIVATE { g.cpus[c]... } else { g... }`.
unfoldable pub update_intid : GicV2 → ℕ → ℕ → (CpuBank → CpuBank) → (GicV2 → GicV2) → Option GicV2
update_intid g cpu i banked shared =
    if ltb i private_count
    then (do b ← get_elem? g.cpus cpu; some (put_bank g cpu (banked b)))
    else if ltb i num_intid
    then some (shared g)
    else some g

-- `for k in 0..rounds { g = step(g, k) }`, from `k` on.
unfoldable pub for_each : (GicV2 → ℕ → Option GicV2) → ℕ → ℕ → GicV2 → Option GicV2
for_each step k zero g = some g
for_each step k (suc rounds) g = step g k >>= (λ g'. for_each step (k + 1) rounds g')

unfoldable pub bits_set : Mark → Bool → ℕ → ℕ → ℕ → GicV2 → Option GicV2
bits_set mark on cpu base v g =
    for_each
      (λ g b.
        if bit_and v (2 ^ b) == 0
        then some g
        else update_intid g cpu (base + b) (λ k. set_bank_mark mark k (base + b) on)
            (λ g. set_gic_mark mark g (base + b) on))
      0 32 g

unfoldable pub byte_of : ℕ → ℕ → ℕ
byte_of v k = v / 2 ^ (k * 8) % 2 ^ 8

unfoldable pub write_priorities : ℕ → ℕ → ℕ → ℕ → GicV2 → Option GicV2
write_priorities cpu idx size v g =
    for_each
      (λ g k.
        update_intid g cpu (idx + k)
          (λ b. record b { priority = set b.priority (idx + k) (byte_of v k) })
          (λ g. record g { priority = set g.priority (idx + k) (byte_of v k) }))
      0 size g

-- Private targets are read-only; SPI targets clamp to real CPUs.
unfoldable pub write_target : ℕ → ℕ → GicV2 → ℕ → Option GicV2
write_target idx v g k =
    if leb private_count (idx + k) && ltb (idx + k) num_intid
    then some (record g {
      targets = set g.targets (idx + k) (bit_and (byte_of v k) ((2 ^ length g.cpus - 1) % 2 ^ 8));
    })
    else some g

unfoldable pub write_targets : ℕ → ℕ → ℕ → GicV2 → Option GicV2
write_targets idx size v g = for_each (write_target idx v) 0 size g

-- SGIs are fixed edge; PPIs are banked; SPIs shared.
unfoldable pub write_config : ℕ → ℕ → ℕ → GicV2 → Option GicV2
write_config cpu base v g =
    for_each
      (λ g b.
        let edge = not (bit_and (v / 2 ^ (b * 2 + 1)) 1 == 0) in
        if ltb (base + b) 16
        then some g
        else update_intid g cpu (base + b) (λ k. record k { edge = set k.edge (base + b) edge })
            (λ g. record g { edge = set g.edge (base + b) edge }))
      0 16 g

unfoldable pub dist_write : GicV2 → ℕ → ℕ → ℕ → ℕ → Option GicV2
dist_write g cpu off size val =
    let o = align4 off in
    let v = val % 2 ^ 32 in
    if in_block off 0x400 64
    then write_priorities cpu (off - 0x400) size val g
    else if in_block off 0x800 64
    then write_targets (off - 0x800) size val g
    else if o == 0x000
    then some (record g { dist_enabled = not (bit_and v 1 == 0) })
    else if in_block o 0x100 32
    then bits_set enable_mark true cpu (base_index o 0x100) v g
    else if in_block o 0x180 32
    then bits_set enable_mark false cpu (base_index o 0x180) v g
    else if in_block o 0x200 32
    then bits_set pending_mark true cpu (base_index o 0x200) v g
    else if in_block o 0x280 32
    then bits_set pending_mark false cpu (base_index o 0x280) v g
    else if in_block o 0x300 32
    then bits_set active_mark true cpu (base_index o 0x300) v g
    else if in_block o 0x380 32
    then bits_set active_mark false cpu (base_index o 0x380) v g
    else if in_block o 0xc00 16
    then write_config cpu (base_index_cfg o) v g
    else if o == 0xf00
    then some (sgir g cpu v)
    else some g

-- A read of IAR acknowledges, so the state comes back too.
unfoldable pub cpu_read : GicV2 → ℕ → ℕ → ℕ → Option (GicV2 × ℕ)
cpu_read g cpu off size =
    let o = align4 off in
    let view = λ (f : CpuBank → ℕ).
      ◌>>=◌ {B = GicV2 × ℕ} (get_elem? g.cpus cpu) (λ b. some (g, extract (f b) off size)) in
    if o == 0x00
    then view (λ b. if b.cpu_enabled then 1 else 0)
    else if o == 0x04
    then view (λ b. b.pmr)
    else if o == 0x08
    then some (g, extract 0 off size)
    else if o == 0x0c
    then ◌>>=◌ {B = GicV2 × ℕ} (acknowledge g cpu) (λ r. some (r.0, extract r.1 off size))
    else if o == 0x14
    then view running_prio
    else if o == 0x18
    then view (λ b. elim (highest_pending g cpu b) [ none ↦ spurious | some (i, p) ↦ i ])
    else if o == 0xfc
    then some (g, extract 0x0002_043b off size)
    else some (g, extract 0 off size)

unfoldable pub cpu_write : GicV2 → ℕ → ℕ → ℕ → Option GicV2
cpu_write g cpu off val =
    let v = val % 2 ^ 32 in
    let o = align4 off in
    let bank =
      λ (f : CpuBank → CpuBank). get_elem? g.cpus cpu >>= (λ b. some (put_bank g cpu (f b))) in
    if o == 0x00
    then bank (λ b. record b { cpu_enabled = not (bit_and v 1 == 0) })
    else if o == 0x04
    then bank (λ b. record b { pmr = v % 2 ^ 8 })
    else if o == 0x10
    then end_of_interrupt g cpu (bit_and v 0x3ff)
    else some g
