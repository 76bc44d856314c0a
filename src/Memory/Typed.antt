-- ===== src/Memory/Typed.antt =====
-- The typed accessors: little-endian words in guest RAM.
use amber.Prelude.{
  to_le-IsByte, ℕ, ◌+◌, ◌^◌, ◌≤◌, ◌<◌, ◌≡◌, refl, ◌⊎◌, ap, true, false, List, inl, inr, arith,
  length, replicate, All, IsByte, to_le, from_le, from_le-to_le, from_le-lt, Bool, ◌∙◌,
}
use amber.Memory.Cells.{length-cells, cells-IsByte}
use amber.Memory.Access.{
  write-IsRam, write_shape, offset_lem, IsRam, read_cases, read-write, read-write_disjoint,
}
use amber.Memory.{
  GuestRam, read, write, read_u16, read_u32, read_u64, write_u16, write_u32, in_range,
}

zeros-IsByte : (n : ℕ) → All IsByte (replicate n 0)
zeros-IsByte ℕ.zero = tt
zeros-IsByte (ℕ.suc n) = (omega arith, zeros-IsByte n)

read-IsByte :
    (r : GuestRam) (gpa : ℕ) (buf : List ℕ)
    → IsRam r
    → All IsByte buf
    → All IsByte (read r gpa buf).1 × (length (read r gpa buf).1 ≡ length buf)
read-IsByte r gpa buf w b = elim (read_cases r gpa buf) [
  | inl (_, e) ↦ rw e (b, refl)
  | inr (off, _, e) ↦
      rw e (cells-IsByte r.host off (length buf) w.bytes, length-cells r.host off (length buf))
]

-- Every typed read gives a word of its width.
pub read_u16-lt : (r : GuestRam) (gpa : ℕ) → IsRam r → read_u16 r gpa < 2 ^ 16
unfolding read_u16
read_u16-lt r gpa w =
    let (b, l) = read-IsByte r gpa (replicate 2 0) w (zeros-IsByte 2) in
    let h = from_le-lt (read r gpa (replicate 2 0)).1 b in
    let e : 256 ^ length (read r gpa (replicate 2 0)).1 ≡ 65536 = ap (λ (n : ℕ). 256 ^ n) l in
    omega arith

pub read_u32-lt : (r : GuestRam) (gpa : ℕ) → IsRam r → read_u32 r gpa < 2 ^ 32
unfolding read_u32
read_u32-lt r gpa w =
    let (b, l) = read-IsByte r gpa (replicate 4 0) w (zeros-IsByte 4) in
    let h = from_le-lt (read r gpa (replicate 4 0)).1 b in
    let e : 256 ^ length (read r gpa (replicate 4 0)).1 ≡ 4294967296 = ap (λ (n : ℕ). 256 ^ n) l in
    omega arith

pub read_u64-lt : (r : GuestRam) (gpa : ℕ) → IsRam r → read_u64 r gpa < 2 ^ 64
unfolding read_u64
read_u64-lt r gpa w =
    let (b, l) = read-IsByte r gpa (replicate 8 0) w (zeros-IsByte 8) in
    let h = from_le-lt (read r gpa (replicate 8 0)).1 b in
    let e : 256 ^ length (read r gpa (replicate 8 0)).1 ≡ 18446744073709551616 =
      ap (λ (n : ℕ). 256 ^ n) l in
    omega arith

-- A range inside RAM is written.
write_ok :
    (r : GuestRam) (gpa : ℕ) (buf : List ℕ)
    → r.len < 2 ^ 64
    → r.base ≤ gpa
    → gpa + length buf ≤ r.base + r.len
    → (write r gpa buf).1 ≡ true
unfolding write
write_ok r gpa buf s p q = rw (offset_lem r gpa (length buf) s p q, write) refl

-- A word whose bytes lie in RAM reads back after its write.
pub read_u32-write_u32 :
    (r : GuestRam) (gpa v : ℕ)
    → r.len < 2 ^ 64
    → r.base ≤ gpa
    → gpa + 4 ≤ r.base + r.len
    → v < 2 ^ 32
    → read_u32 (write_u32 r gpa v) gpa ≡ v
unfolding read_u32 write_u32
read_u32-write_u32 r gpa v s p q fits =
    ap (λ (p : Bool × List ℕ). from_le p.1)
      (read-write r gpa (to_le 4 v) (replicate 4 0) refl (write_ok r gpa (to_le 4 v) s p q))
    ∙ from_le-to_le 4 v (omega arith)

pub read_u16-write_u16 :
    (r : GuestRam) (gpa v : ℕ)
    → r.len < 2 ^ 64
    → r.base ≤ gpa
    → gpa + 2 ≤ r.base + r.len
    → v < 2 ^ 16
    → read_u16 (write_u16 r gpa v) gpa ≡ v
unfolding read_u16 write_u16
read_u16-write_u16 r gpa v s p q fits =
    ap (λ (p : Bool × List ℕ). from_le p.1)
      (read-write r gpa (to_le 2 v) (replicate 2 0) refl (write_ok r gpa (to_le 2 v) s p q))
    ∙ from_le-to_le 2 v (omega arith)

-- Words that a write of bytes does not touch.
pub read_u16-write_disjoint :
    (r : GuestRam) (gpa a : ℕ) (buf : List ℕ)
    → (a + 2 ≤ gpa) ⊎ (gpa + length buf ≤ a)
    → read_u16 (write r gpa buf).0 a ≡ read_u16 r a
unfolding read_u16
read_u16-write_disjoint r gpa a buf h = rw (read-write_disjoint r gpa a buf (replicate 2 0) h) refl

pub read_u32-write_disjoint :
    (r : GuestRam) (gpa a : ℕ) (buf : List ℕ)
    → (a + 4 ≤ gpa) ⊎ (gpa + length buf ≤ a)
    → read_u32 (write r gpa buf).0 a ≡ read_u32 r a
unfolding read_u32
read_u32-write_disjoint r gpa a buf h = rw (read-write_disjoint r gpa a buf (replicate 4 0) h) refl

-- The same for the writes of words.
module _ (r : GuestRam) (gpa v : ℕ) where
  pub write_u16_shape : ((write_u16 r gpa v).len ≡ r.len) × ((write_u16 r gpa v).base ≡ r.base)
  unfolding write_u16
  write_u16_shape = write_shape r gpa (to_le 2 v)

  pub write_u32_shape : ((write_u32 r gpa v).len ≡ r.len) × ((write_u32 r gpa v).base ≡ r.base)
  unfolding write_u32
  write_u32_shape = write_shape r gpa (to_le 4 v)

  pub write_u16-IsRam : IsRam r → IsRam (write_u16 r gpa v)
  unfolding write_u16
  write_u16-IsRam w = write-IsRam r gpa (to_le 2 v) w (to_le-IsByte 2 v)

  pub write_u32-IsRam : IsRam r → IsRam (write_u32 r gpa v)
  unfolding write_u32
  write_u32-IsRam w = write-IsRam r gpa (to_le 4 v) w (to_le-IsByte 4 v)

module _ (r : GuestRam) (gpa v a : ℕ) where
  pub read_u16-write_u32 :
      (a + 2 ≤ gpa) ⊎ (gpa + 4 ≤ a) → read_u16 (write_u32 r gpa v) a ≡ read_u16 r a
  unfolding write_u32
  read_u16-write_u32 = read_u16-write_disjoint r gpa a (to_le 4 v)

  pub read_u32-write_u16 :
      (a + 4 ≤ gpa) ⊎ (gpa + 2 ≤ a) → read_u32 (write_u16 r gpa v) a ≡ read_u32 r a
  unfolding write_u16
  read_u32-write_u16 = read_u32-write_disjoint r gpa a (to_le 2 v)

  pub read_u32-write_u32_ne :
      (a + 4 ≤ gpa) ⊎ (gpa + 4 ≤ a) → read_u32 (write_u32 r gpa v) a ≡ read_u32 r a
  unfolding write_u32
  read_u32-write_u32_ne = read_u32-write_disjoint r gpa a (to_le 4 v)

-- A typed read outside RAM gives 0, and touches no host memory.
pub read_u64_outside : (r : GuestRam) (gpa : ℕ) → in_range r gpa 8 ≡ false → read_u64 r gpa ≡ 0
unfolding read_u64 in_range read
read_u64_outside r gpa h = ground arith
