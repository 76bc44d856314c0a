-- ===== src/Boot.antt =====
-- crates/amber-core/src/loader.rs, and what `Vm::run` of crates/amber-core/src/vm.rs does with its result: the
-- kernel, the initramfs and the device tree in guest RAM. The device tree's bytes are given. An
-- error is `none`; `mem.write` is `write_image` of Memory.
pub mod Placed
pub mod Intact
pub mod Tests
use amber.Prelude.{
  ℕ, zero, suc, ◌+◌, ◌-◌, ◌*◌, ◌/◌, ◌%◌, ◌^◌, ◌≤◌, ◌<◌, min, max, bit_and, bit_or, ◌≡◌, refl, sym,
  ap, ◌∙◌, ◌≢◌, ◌↔◌, ◌⊎◌, inl, inr, Bool, true, false, not, ◌&&◌, ◌||◌, Option, none, some, List,
  [], ◌∷◌, ◌++◌, map, append-nil, append_assoc, arith, ltb, leb, ◌==◌, if◌then◌else◌, Bool-cases,
  Option-cases, ◌>>=◌, is_some, length, get_elem?, get_or, set, take, drop, replicate, All, IsByte,
  keep, length-append, length-set, All-append, All-set, All-get_elem?, wrapping_add, wrapping_sub,
  not_u32, to_le, from_le, ==_iff, ltb→lt, lt→ltb, leb→le, le→leb, length-take, length-drop,
  length-replicate,
}
use amber.Memory.{GuestMemory, write_image}

abbrev pub kernel_offset : ℕ
kernel_offset = 0x200000

abbrev pub dtb_offset : ℕ
dtb_offset = 0x100000

abbrev pub arm64_magic : ℕ
arm64_magic = 0x644d5241

abbrev pub text_offset : List ℕ → ℕ
text_offset image = from_le (take 8 (drop 8 image))

-- Where the image goes: an older kernel's own offset, else the default.
unfoldable pub load_off : List ℕ → ℕ
load_off image = if text_offset image == 0 then kernel_offset else text_offset image

-- The memory and the entry point.
unfoldable pub load_kernel : GuestMemory → List ℕ → Option (GuestMemory × ℕ)
load_kernel mem image =
    if ltb (length image) 64
    then none
    else if not (from_le (take 4 (drop 56 image)) == arm64_magic)
    then none
    else (do
      mem' ← write_image mem (wrapping_add 64 mem.base (load_off image)) image
      some (mem', wrapping_add 64 mem.base (load_off image)))

-- The start of the top quarter, rounded up to a page: `(x + 0xfff) & !0xfff`.
unfoldable pub initramfs_start : GuestMemory → ℕ
initramfs_start mem =
    bit_and (wrapping_add 64 (wrapping_add 64 mem.base (mem.len / 4 * 3)) 4095) (2 ^ 64 - 4096)

unfoldable pub load_initramfs :
    GuestMemory → Option (List ℕ) → Option (GuestMemory × Option (ℕ × ℕ))
load_initramfs mem none = some (mem, none)
load_initramfs mem (some bytes) = do
  mem' ← write_image mem (initramfs_start mem) bytes
  some (mem', some (initramfs_start mem, wrapping_add 64 (initramfs_start mem) (length bytes)))

pub record Booted : Type 0 where
  pub mem : GuestMemory
  pub entry : ℕ
  pub initrd : Option (ℕ × ℕ)
  pub dtb_addr : ℕ

-- `prepare` loads the kernel, then the initramfs; `run` writes the device tree.
unfoldable pub boot : GuestMemory → List ℕ → Option (List ℕ) → List ℕ → Option Booted
boot mem image initrd blob = do
  k ← load_kernel mem image
  i ← load_initramfs k.0 initrd
  mem' ← write_image i.0 (wrapping_add 64 mem.base dtb_offset) blob
  some record {
    mem = mem';
    entry = k.1;
    initrd = i.1;
    dtb_addr = wrapping_add 64 mem.base dtb_offset;
  }
