-- ===== src/Memory/Tests.antt =====
-- Runs of the guest RAM accessors, and the theorems at concrete inputs.
use amber.Prelude.{◌≡◌, refl, inl, false, [], ◌∷◌, arith}
use amber.Memory.{GuestRam, in_range, read, write, write_u32, read_u64, offset}
use amber.Memory.Cells.{cells, overwrite}
use amber.Memory.Access.{IsRam, write_confined}
use amber.Memory.Typed.{read_u64_outside}

-- 4 KiB at 0x4000_0000.
abbrev pub board : GuestRam
board = record { host = λ o. 0; base = 0x4000_0000; len = 0x1000 }

pub board-IsRam : IsRam board
board-IsRam = record { bytes = λ o. omega arith; fits = omega arith; sized = omega arith }

runs_off_the_end : in_range board 0x4000_0fff 2 ≡ false
unfolding in_range offset
runs_off_the_end = refl

sum_overflows : in_range board 0xffff_ffff_ffff_ffff 16 ≡ false
unfolding in_range offset
sum_overflows = refl

little_endian :
    (read (write_u32 board 0x4000_0010 0x0403_0201) 0x4000_0010 (0 ∷ 0 ∷ 0 ∷ 0 ∷ [])).1
    ≡ 1 ∷ 2 ∷ 3 ∷ 4 ∷ []
unfolding read write_u32 write offset cells overwrite
little_endian = refl

write_confined_example : (write board 0x4000_0ffc (1 ∷ 2 ∷ 3 ∷ 4 ∷ [])).0.host 0x1000 ≡ 0
write_confined_example =
    write_confined board 0x4000_0ffc (1 ∷ 2 ∷ 3 ∷ 4 ∷ []) 0x1000 (inl (omega arith))

read_u64_outside_example : read_u64 board 0x3fff_fff8 ≡ 0
unfolding in_range offset
read_u64_outside_example = read_u64_outside board 0x3fff_fff8 refl
