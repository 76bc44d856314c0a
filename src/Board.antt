-- ===== src/Board.antt =====
-- crates/amber-core/src/vm.rs and crates/amber-core/src/lib.rs (`layout`): the devices at their MMIO windows,
-- the dispatch of a guest access, and the interrupt lines. All devices share guest RAM: a device
-- is attached to the RAM as it is, and leaves it as it makes it. The devices are of one type, with
-- their operations in a record. The hypervisor is its interrupt lines and its answers to the calls.
-- A rate limit's sleep is left out: it comes after the locks are released and changes no state.
pub mod Windows
pub mod Followed
pub mod Delivery
pub mod Poked
pub mod Lines
pub mod Pumps
pub mod Assembly
pub mod Recreate
pub mod Tests
use amber.Prelude.{
  ℕ, zero, suc, ◌+◌, ◌-◌, ◌*◌, ◌/◌, ◌%◌, ◌^◌, ◌≤◌, ◌<◌, min, max, bit_and, bit_or, ◌≡◌, refl, sym,
  ap, ◌∙◌, ◌≢◌, ◌↔◌, ◌⊎◌, inl, inr, Bool, true, false, not, ◌&&◌, ◌||◌, Option, none, some, List,
  [], ◌∷◌, ◌++◌, map, append-nil, append_assoc, arith, ltb, leb, ◌==◌, if◌then◌else◌, Bool-cases,
  Option-cases, ◌>>=◌, is_some, length, get_elem?, get_or, set, take, drop, replicate, All, IsByte,
  keep, length-append, length-set, All-append, All-set, All-get_elem?, wrapping_add, wrapping_sub,
  not_u32, to_le, from_le, ==_iff, ltb→lt, lt→ltb, leb→le, le→leb, length-take, length-drop,
  length-replicate,
}
use amber.Memory.{GuestRam}
use amber.Pl011.{Pl011}
use amber.Pl011
use amber.Transport.{VirtioDevice, VirtioMmio}
use amber.Transport

abbrev pub pl011_base : ℕ
pl011_base = 0x09000000

abbrev pub pl011_size : ℕ
pl011_size = 0x1000

abbrev pub gic_spi_base : ℕ
gic_spi_base = 32

abbrev pub pl011_intid : ℕ
pl011_intid = 33

abbrev pub virtio_mmio_base : ℕ
virtio_mmio_base = 0x0c000000

abbrev pub virtio_mmio_stride : ℕ
virtio_mmio_stride = 0x200

abbrev pub virtio_spi_base : ℕ
virtio_spi_base = 2

pub record VirtioDev (D : Type 0) : Type 0 where
  pub base : ℕ
  pub size : ℕ
  pub intid : ℕ
  pub mmio : VirtioMmio D

-- A read where `write` is none.
pub record MmioAccess : Type 0 where
  pub ipa : ℕ
  pub write : Option ℕ

-- Whether the hypervisor's calls succeed: `complete_mmio_read`, `set_irq`, `advance_mmio`.
pub record Calls : Type 0 where
  pub read_ok : Bool
  pub irq_ok : Bool
  pub advance_ok : Bool

pub record Board (D : Type 0) : Type 0 where
  pub pl011 : Pl011
  pub virtio : List (VirtioDev D)
  pub ram : GuestRam
  pub lines : ℕ → Bool

-- What the guest gets: the value of a read.
pub data Dispatched : Type 0 where
  completed : Option ℕ → Dispatched
  failed : Dispatched

abbrev pub set_irq : (ℕ → Bool) → ℕ → Bool → ℕ → Bool
set_irq lines intid level line = if line == intid then level else lines line

unfoldable pub contains : {D : Type 0} → VirtioDev D → ℕ → Bool
contains d ipa = leb d.base ipa && ltb ipa (d.base + d.size)

-- The end of an access: the read is completed, the line set, the instruction stepped over.
unfoldable pub finish : {D : Type 0} → Calls → Board D → ℕ → Bool → Option ℕ → Board D × Dispatched
finish calls b intid level value =
    if is_some value && not calls.read_ok
    then (b, failed)
    else if not calls.irq_ok
    then (b, failed)
    else (
      record b { lines = set_irq b.lines intid level },
      if calls.advance_ok then completed value else failed,
    )

unfoldable pub pl011_access : Pl011 → ℕ → Option ℕ → Pl011 × Option ℕ
pl011_access u off none = let r = Pl011.read u off in (r.0, some r.1)
pl011_access u off (some v) = (Pl011.write u off v, none)

-- Guest RAM after a device has run on it.
abbrev pub ram_after : Option GuestRam → GuestRam → GuestRam
ram_after none ram = ram
ram_after (some r) ram = r

module _ {D : Type 0} (ops : VirtioDevice D) where
  unfoldable pub place : ℕ → D → VirtioDev D
  place index dev = record {
    base = virtio_mmio_base + index * virtio_mmio_stride;
    size = virtio_mmio_stride;
    intid = gic_spi_base + virtio_spi_base + index;
    mmio = Transport.new ops dev;
  }

  unfoldable pub mmio_access : VirtioMmio D → ℕ → Option ℕ → VirtioMmio D × Option ℕ
  mmio_access m off none = (m, some (Transport.read ops m off))
  mmio_access m off (some v) = (Transport.write ops m off v, none)

  -- The first device whose window has the address: the list after the access, that device and the
  -- value.
  unfoldable pub access_first :
      List (VirtioDev D)
      → GuestRam
      → MmioAccess
      → Option (List (VirtioDev D) × VirtioDev D × Option ℕ)
  access_first [] ram a = none
  access_first (d ∷ ds) ram a =
      let r = mmio_access (Transport.attach d.mmio ram) (a.ipa - d.base) a.write in
      let d' = record d { mmio = r.0 } in
      if contains d a.ipa
      then some (d' ∷ ds, d', r.1)
      else elim (access_first ds ram a) [ none ↦ none | some (ds', e, v) ↦ some (d ∷ ds', e, v) ]

  unfoldable pub dispatch_mmio : Calls → Board D → MmioAccess → Board D × Dispatched
  dispatch_mmio calls b a =
      if leb pl011_base a.ipa && ltb a.ipa (pl011_base + pl011_size)
      then (let r = pl011_access b.pl011 (a.ipa - pl011_base) a.write in
          finish calls (record b { pl011 = r.0 }) pl011_intid (Pl011.irq_level r.0) r.1)
      else elim (access_first b.virtio b.ram a) [
        | some (ds, d, v) ↦
            finish calls (record b { virtio = ds; ram = ram_after d.mmio.ram b.ram }) d.intid
              (Transport.irq_level ops d.mmio) v
        | none ↦ elim a.write [
          | some v ↦ (b, if calls.advance_ok then completed none else failed)
          | none ↦ (b, if calls.read_ok && calls.advance_ok then completed (some 0) else failed)
        ]
      ]

  -- The run loop's delivery to the receive queues; `none` is the fuel running out. `irq_ok` is what `set_irq`
  -- answers for a line. The last answer is false where it failed, which ends the step.
  unfoldable pub pump_devices :
      ℕ
      → (ℕ → Bool)
      → List (VirtioDev D)
      → GuestRam
      → (ℕ → Bool)
      → Option (List (VirtioDev D) × GuestRam × (ℕ → Bool) × Bool)
  pump_devices fuel irq_ok [] ram lines = some ([], ram, lines, true)
  pump_devices fuel irq_ok (d ∷ ds) ram lines = do
    r ← Transport.pump_rx ops fuel (Transport.attach d.mmio ram)
    let d' = record d { mmio = r.0 }
    let ram' = ram_after r.0.ram ram
    if r.1 && not (irq_ok d.intid) then some (d' ∷ ds, ram', lines, false) else do
      rest ←
          pump_devices fuel irq_ok ds ram'
            (if r.1 then set_irq lines d.intid (Transport.irq_level ops r.0) else lines)
      some (d' ∷ rest.0, rest.1, rest.2, rest.3)

abbrev pub push_all : Pl011 → List ℕ → Pl011
push_all u [] = u
push_all u (b ∷ bs) = push_all (Pl011.push_rx u b) bs

-- Console input: the bytes are pushed, then the line is set; a failed call is ignored.
unfoldable pub console_input : {D : Type 0} → Bool → Board D → List ℕ → Board D
console_input irq_ok b bytes =
    let u = push_all b.pl011 bytes in
    record b {
      pl011 = u;
      lines = if irq_ok then set_irq b.lines pl011_intid (Pl011.irq_level u) else b.lines;
    }

-- The device at an index after a store through a handle that shares its state.
abbrev pub poke : {D : Type 0} → (D → D) → ℕ → List (VirtioDev D) → List (VirtioDev D)
poke store index [] = []
poke store zero (d ∷ ds) = record d { mmio = record d.mmio { dev = store d.mmio.dev } } ∷ ds
poke store (suc index) (d ∷ ds) = d ∷ poke store index ds

-- A balloon frame: the target and the flag are stored through the balloon's handle, then its line is raised; a
-- failed call is ignored. `set_target` is what the two stores make of the device.
unfoldable pub balloon_frame : {D : Type 0} → Bool → (ℕ → D → D) → ℕ → ℕ → ℕ → Board D → Board D
balloon_frame irq_ok set_target index intid mib b = record b {
  virtio = poke (set_target (mib * 256 % 2 ^ 64)) index b.virtio;
  lines = if irq_ok then set_irq b.lines intid true else b.lines;
}
