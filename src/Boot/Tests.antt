-- ===== src/Boot/Tests.antt =====
-- crates/amber-core/src/loader.rs: a header-only kernel in 8 MiB of RAM, without a text offset.
use amber.Prelude.{
  ℕ, ◌+◌, ◌%◌, ◌≡◌, refl, Option, none, some, List, [], ◌∷◌, ◌++◌, arith, length, replicate,
}
use amber.Memory.{GuestMemory, write_image}
use amber.Memory.Cells.{overwrite}
use amber.Boot.{load_off, load_kernel, load_initramfs, Booted, boot}
use amber.Boot.Placed.{IsAt}
use amber.Boot.Intact.{boot-IsAt}

abbrev memory : GuestMemory
memory = record { host = λ o. 0; len = 0x800000; base = 0x40000000 }

abbrev image_of : List ℕ → List ℕ
image_of offset =
    replicate 8 0
    ++ (offset ++ (replicate 40 0 ++ (0x41 ∷ 0x52 ∷ 0x4d ∷ 0x64 ∷ 0 ∷ 0 ∷ 0 ∷ 0 ∷ [])))

abbrev plain : List ℕ
plain = image_of (replicate 8 0)

abbrev blob : List ℕ
blob = 0xd0 ∷ 0x0d ∷ 0xfe ∷ 0xed ∷ []

abbrev booted : List ℕ → ℕ → Booted
booted image off = record {
  mem = record memory { host = overwrite (overwrite memory.host off image) 0x100000 blob };
  entry = 0x40000000 + off;
  initrd = none;
  dtb_addr = 0x40100000;
}

boot-IsAt_example :
    ((booted plain 0x200000).entry ≡ 0x40200000)
    × IsAt (booted plain 0x200000).mem 0x40200000 plain
    × IsAt (booted plain 0x200000).mem 0x40100000 blob
    × ((bytes : List ℕ)
        → ◌≡◌ {A = Option (List ℕ)} none (some bytes)
        → (start : ℕ) × (◌≡◌ {A = Option (ℕ × ℕ)} none (some (start, start + length bytes)))
          × (start % 4096 ≡ 0)
          × IsAt (booted plain 0x200000).mem start bytes)
unfolding boot load_kernel load_off load_initramfs write_image
boot-IsAt_example =
    boot-IsAt memory plain none blob (booted plain 0x200000) (omega arith) refl (omega arith)
      (omega arith) refl
