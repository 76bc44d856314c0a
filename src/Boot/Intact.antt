-- ===== src/Boot/Intact.antt =====
-- crates/amber-core/src/loader.rs: the kernel, the initramfs and the device tree after `boot`.
use amber.Prelude.{
  ℕ, zero, suc, ◌+◌, ◌-◌, ◌*◌, ◌/◌, ◌%◌, ◌^◌, ◌≤◌, ◌<◌, bit_and, ◌≡◌, refl, sym, ap, ◌∙◌, ◌≢◌, ◌⊎◌,
  inl, inr, Option, none, some, List, ◌∷◌, arith, ltb, ◌==◌, Bool-cases, Option-cases, length,
  get_elem?, take, drop, wrapping_add, from_le, ==_iff, bit_and_high, bit_and_mask, subst,
}
use amber.Memory.{GuestMemory, write_image}
use amber.Memory.Cells.{cells}
use amber.Boot.{
  arm64_magic, dtb_offset, text_offset, load_off, load_kernel, initramfs_start, load_initramfs,
  Booted, boot,
}
use amber.Boot.Placed.{
  IsAt, IsWritten, write_image-IsWritten, IsWritten-IsAt, IsWritten-keeps, IsWritten-shape,
}

-- The two writes of the loader and that of the device tree, as they were made.
pub record IsBooted (mem : GuestMemory) (image : List ℕ) (initrd : Option (List ℕ)) (blob : List ℕ)
    (b : Booted) : Type 0 where
  pub kernel_mem : GuestMemory
  pub initrd_mem : GuestMemory
  pub kernel : IsWritten mem b.entry image kernel_mem
  pub initramfs :
      ((initrd ≡ none) × (initrd_mem ≡ kernel_mem) × (b.initrd ≡ none))
      ⊎ ((bytes : List ℕ) × (initrd ≡ some bytes)
          × IsWritten kernel_mem (initramfs_start kernel_mem) bytes initrd_mem
          × (b.initrd
              ≡ some (
                initramfs_start kernel_mem,
                wrapping_add 64 (initramfs_start kernel_mem) (length bytes),
              )))
  pub dtb : IsWritten initrd_mem b.dtb_addr blob b.mem
  pub entry : b.entry ≡ wrapping_add 64 mem.base (load_off image)
  pub dtb_addr : b.dtb_addr ≡ wrapping_add 64 mem.base dtb_offset

load_kernel-some :
    (mem : GuestMemory) (image : List ℕ) (r : GuestMemory × ℕ)
    → load_kernel mem image ≡ some r
    → IsWritten mem r.1 image r.0 × (r.1 ≡ wrapping_add 64 mem.base (load_off image))
unfolding load_kernel
load_kernel-some mem image r = elim (Bool-cases (ltb (length image) 64)) [
  | inl a ↦ rw (load_kernel, a) (λ e. absurd (cc e))
  | inr a ↦ elim (Bool-cases (from_le (take 4 (drop 56 image)) == arm64_magic)) [
    | inr c ↦ rw (load_kernel, a, c) (λ e. absurd (cc e))
    | inl c ↦
        elim (Option-cases (write_image mem (wrapping_add 64 mem.base (load_off image)) image)) [
          | inl w ↦ rw (load_kernel, a, c, w) (λ e. absurd (cc e))
          | inr (m', w) ↦
              rw (load_kernel, a, c, w)
                (λ e.
                  let same : r ≡ (m', wrapping_add 64 mem.base (load_off image)) = cc e in
                  rw same (write_image-IsWritten mem _ image m' w, refl))
        ]
  ]
]

-- What the loader of the initramfs leaves.
abbrev Loaded : GuestMemory → Option (List ℕ) → GuestMemory × Option (ℕ × ℕ) → Type 0
Loaded mem initrd r =
    ((initrd ≡ none) × (r.0 ≡ mem) × (r.1 ≡ none))
    ⊎ ((bytes : List ℕ) × (initrd ≡ some bytes)
        × IsWritten mem (initramfs_start mem) bytes r.0
        × (r.1 ≡ some (initramfs_start mem, wrapping_add 64 (initramfs_start mem) (length bytes))))

load_initramfs-some :
    (mem : GuestMemory) (initrd : Option (List ℕ)) (r : GuestMemory × Option (ℕ × ℕ))
    → load_initramfs mem initrd ≡ some r
    → Loaded mem initrd r
unfolding load_initramfs
load_initramfs-some mem none r =
    λ e. let same : r ≡ (mem, none) = cc e in rw same (inl (refl, refl, refl))
load_initramfs-some mem (some bytes) r =
    elim (Option-cases (write_image mem (initramfs_start mem) bytes)) [
      | inl w ↦ rw (load_initramfs, w) (λ e. absurd (cc e))
      | inr (m', w) ↦
          rw (load_initramfs, w)
            (λ e.
              let same : r ≡ (
                m',
                some (initramfs_start mem, wrapping_add 64 (initramfs_start mem) (length bytes)),
              ) =
                cc e in
              rw same (inr (bytes, refl, write_image-IsWritten mem _ bytes m' w, refl)))
    ]

boot-IsBooted :
    (mem : GuestMemory) (image : List ℕ) (initrd : Option (List ℕ)) (blob : List ℕ) (b : Booted)
    → boot mem image initrd blob ≡ some b
    → IsBooted mem image initrd blob b
unfolding boot
boot-IsBooted mem image initrd blob b = elim (Option-cases (load_kernel mem image)) [
  | inl k ↦ rw (boot, k) (λ e. absurd (cc e))
  | inr (k, ke) ↦ elim (Option-cases (load_initramfs k.0 initrd)) [
    | inl i ↦ rw (boot, ke, i) (λ e. absurd (cc e))
    | inr (i, ie) ↦
        elim (Option-cases (write_image i.0 (wrapping_add 64 mem.base dtb_offset) blob)) [
          | inl w ↦ rw (boot, ke, ie, w) (λ e. absurd (cc e))
          | inr (m', w) ↦
              rw (boot, ke, ie, w)
                (λ e.
                  let same : b ≡ record {
                    mem = m';
                    entry = k.1;
                    initrd = i.1;
                    dtb_addr = wrapping_add 64 mem.base dtb_offset;
                  } =
                    cc e in
                  let (kernel, entry) = load_kernel-some mem image k ke in
                  rw same (record {
                    kernel_mem = k.0;
                    initrd_mem = i.0;
                    kernel = kernel;
                    initramfs = load_initramfs-some k.0 initrd i ie;
                    dtb = write_image-IsWritten i.0 _ blob m' w;
                    entry = entry;
                    dtb_addr = refl;
                  }))
        ]
  ]
]

-- `x & !0xfff`.
page_down : (x : ℕ) → x < 2 ^ 64 → bit_and x (2 ^ 64 - 4096) ≡ x / 4096 * 4096
page_down x h =
    let split : x / 4096 * 2 ^ 12 + x % 4096 ≡ x = omega arith in
    let high = bit_and_high 12 (x / 4096) (x % 4096) (2 ^ 52 - 1) (omega arith) in
    let mask = bit_and_mask 52 (x / 4096) in
    ap (λ (y : ℕ). bit_and y (2 ^ 64 - 4096)) (sym split) ∙ high ∙ omega (arith, mask, h)

-- The start of the initramfs: the first page boundary at or after three quarters of RAM.
initramfs_start_lem :
    (mem : GuestMemory)
    → mem.base + mem.len / 4 * 3 + 4095 < 2 ^ 64
    → initramfs_start mem ≡ (mem.base + mem.len / 4 * 3 + 4095) / 4096 * 4096
unfolding initramfs_start
initramfs_start_lem mem h =
    let sum : wrapping_add 64 (wrapping_add 64 mem.base (mem.len / 4 * 3)) 4095
        ≡ mem.base + mem.len / 4 * 3 + 4095 =
      omega (arith, h) in
    ap (λ (y : ℕ). bit_and y (2 ^ 64 - 4096)) sum ∙ page_down (mem.base + mem.len / 4 * 3 + 4095) h

initramfs_start-shape :
    (m m' : GuestMemory)
    → m'.base ≡ m.base
    → m'.len ≡ m.len
    → initramfs_start m' ≡ initramfs_start m
unfolding initramfs_start
initramfs_start-shape m m' b l = rw (b, l) refl

load_off_plain : (image : List ℕ) → text_offset image ≡ 0 → load_off image ≡ 0x200000
unfolding load_off
load_off_plain image plain = rw plain refl

-- After a boot that succeeds, of a kernel without its own text offset that ends in the first three quarters of a
-- RAM that fits the address space, with a device tree of at most 1 MiB, the kernel's image is in
-- guest RAM at the entry point, 2 MiB above the base, the device tree is at its address, and so is
-- an initramfs, at a page boundary; none has overwritten another.
pub boot-IsAt :
    (mem : GuestMemory) (image : List ℕ) (initrd : Option (List ℕ)) (blob : List ℕ) (b : Booted)
    → mem.base + mem.len + 4095 < 2 ^ 64
    → text_offset image ≡ 0
    → 0x200000 + length image ≤ mem.len / 4 * 3
    → length blob ≤ 0x100000
    → boot mem image initrd blob ≡ some b
    → (b.entry ≡ mem.base + 0x200000)
      × IsAt b.mem b.entry image
      × IsAt b.mem b.dtb_addr blob
      × ((bytes : List ℕ)
          → initrd ≡ some bytes
          → (start : ℕ) × (b.initrd ≡ some (start, start + length bytes))
            × (start % 4096 ≡ 0)
            × IsAt b.mem start bytes)
boot-IsAt mem image initrd blob b fits plain small tree e =
    let k = boot-IsBooted mem image initrd blob b e in
    let off = load_off_plain image plain in
    let entry : b.entry ≡ mem.base + 0x200000 =
      k.entry ∙ ap (λ (o : ℕ). wrapping_add 64 mem.base o) off ∙ omega (arith, fits, small) in
    let dtb_addr : b.dtb_addr ≡ mem.base + 0x100000 = k.dtb_addr ∙ omega (arith, fits, small) in
    let placed = IsWritten-IsAt mem k.kernel_mem b.entry image k.kernel in
    let (base, len) = IsWritten-shape mem k.kernel_mem b.entry image k.kernel in
    let start =
      initramfs_start-shape mem k.kernel_mem base len
      ∙ initramfs_start_lem mem (omega (arith, fits)) in
    (
      entry,
      IsWritten-keeps k.initrd_mem b.mem b.dtb_addr blob b.entry image k.dtb
          (inr (omega (arith, entry, dtb_addr, tree))) (kernel_kept k.initramfs placed entry start),
      IsWritten-IsAt k.initrd_mem b.mem b.dtb_addr blob k.dtb,
      λ bytes q. initrd_kept bytes q k.initramfs dtb_addr start base len k.dtb,
    )
  where
    kernel_kept :
        {m m' : GuestMemory} {at : ℕ}
        → Loaded m initrd (m', b.initrd)
        → IsAt m at image
        → at ≡ mem.base + 0x200000
        → initramfs_start m ≡ (mem.base + mem.len / 4 * 3 + 4095) / 4096 * 4096
        → IsAt m' at image
    kernel_kept {m = m} {at = at} (inl (n, same, r)) placed entry start = rw same placed
    kernel_kept {m = m} {m' = m'} {at = at} (inr (bytes, q, w, r)) placed entry start =
        IsWritten-keeps m m' (initramfs_start m) bytes at image w
          (inl (omega (arith, entry, start, small))) placed

    initrd_kept :
        {m m' : GuestMemory} {at : ℕ} (bytes : List ℕ)
        → initrd ≡ some bytes
        → Loaded m initrd (m', b.initrd)
        → at ≡ mem.base + 0x100000
        → initramfs_start m ≡ (mem.base + mem.len / 4 * 3 + 4095) / 4096 * 4096
        → m.base ≡ mem.base
        → m.len ≡ mem.len
        → IsWritten m' at blob b.mem
        → (start : ℕ) × (b.initrd ≡ some (start, start + length bytes))
          × (start % 4096 ≡ 0)
          × IsAt b.mem start bytes
    initrd_kept bytes q (inl (n, same, r)) dtb_addr start base len dtb = absurd (cc (q, n))
    initrd_kept {m = m} {m' = m'} {at = at} bytes q (inr (bytes', q', w, r)) dtb_addr start base len
          dtb =
        let same : bytes' ≡ bytes = cc (q, q') in
        let w' : IsWritten m (initramfs_start m) bytes m' =
          subst (λ (bs : List ℕ). IsWritten m (initramfs_start m) bs m') same w in
        let whole : wrapping_add 64 (initramfs_start m) (length bytes')
            ≡ initramfs_start m + length bytes =
          ap (λ (bs : List ℕ). wrapping_add 64 (initramfs_start m) (length bs)) same
          ∙ omega (arith, w'.fits, base, len, fits) in
        (
          initramfs_start m,
          r ∙ ap (λ (n : ℕ). some (initramfs_start m, n)) whole,
          omega (arith, start),
          IsWritten-keeps m' b.mem at blob (initramfs_start m) bytes dtb
              (inr (omega (arith, dtb_addr, start, tree, small)))
              (IsWritten-IsAt m m' (initramfs_start m) bytes w'),
        )

get-cells :
    (host : ℕ → ℕ) (off n i x : ℕ)
    → get_elem? (cells host off n) i ≡ some x
    → (i < n) × (host (off + i) ≡ x)
unfolding cells
get-cells host off zero i x e = absurd (cc e)
get-cells host off (suc n) zero x e =
    let at : off + 0 ≡ off = omega arith in (omega arith, ap host at ∙ cc e)
get-cells host off (suc n) (suc i) x e =
    let (lt, same) = get-cells host (off + 1) n i x e in
    let past : off + suc i ≡ off + 1 + i = omega arith in (omega (arith, lt), ap host past ∙ same)

-- A byte of what is in RAM.
IsAt-byte :
    (m : GuestMemory) (gpa : ℕ) (bytes : List ℕ) (i x : ℕ)
    → IsAt m gpa bytes
    → get_elem? bytes i ≡ some x
    → (i < length bytes) × (m.host (gpa - m.base + i) ≡ x)
IsAt-byte m gpa bytes i x k e =
    get-cells m.host (gpa - m.base) (length bytes) i x
      (ap (λ (bs : List ℕ). get_elem? bs i) k.same ∙ e)

load_off_own : (image : List ℕ) → text_offset image ≢ 0 → load_off image ≡ text_offset image
unfolding load_off
load_off_own image own = elim (Bool-cases (text_offset image == 0)) [
  | inl e ↦ absurd (own ((==_iff (text_offset image) 0).0 e))
  | inr e ↦ rw e refl
]

-- A kernel with a text offset of its own that the loader honours, below the device tree and reaching into it, is
-- overwritten: after the boot its image in RAM has the first byte of the device tree at 1 MiB.
pub boot-overwritten :
    (mem : GuestMemory) (image : List ℕ) (initrd : Option (List ℕ)) (blob : List ℕ) (t d : ℕ)
    (b : Booted)
    → mem.base + mem.len + 4095 < 2 ^ 64
    → text_offset image ≢ 0
    → text_offset image ≤ 0x100000
    → get_elem? image (0x100000 - text_offset image) ≡ some t
    → t ≢ d
    → boot mem image initrd (d ∷ blob) ≡ some b
    → ¬ IsAt b.mem b.entry image
boot-overwritten mem image initrd blob t d b fits own low e ne done at =
    let k = boot-IsBooted mem image initrd (d ∷ blob) b done in
    let (inside, kernel_byte) =
      IsAt-byte b.mem b.entry image (0x100000 - text_offset image) t at e in
    let (some_byte, tree_byte) =
      IsAt-byte b.mem b.dtb_addr (d ∷ blob) 0 d
        (IsWritten-IsAt k.initrd_mem b.mem b.dtb_addr (d ∷ blob) k.dtb) refl in
    let entry = k.entry ∙ ap (λ (o : ℕ). wrapping_add 64 mem.base o) (load_off_own image own) in
    let here : b.entry ≡ mem.base + text_offset image =
      omega (arith, entry, k.kernel.from, k.kernel.fits, fits, low, inside) in
    let tree : b.dtb_addr ≡ mem.base + 0x100000 =
      omega (arith, k.dtb_addr, here, k.kernel.fits, fits, low, inside) in
    let meet : b.entry - b.mem.base + (0x100000 - text_offset image) ≡ b.dtb_addr - b.mem.base + 0 =
      omega (arith, here, tree, at.from, low) in
    ne (sym kernel_byte ∙ ap b.mem.host meet ∙ tree_byte)
