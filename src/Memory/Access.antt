-- ===== src/Memory/Access.antt =====
-- Reads, writes and the bounds check of a `GuestRam`.
use amber.Prelude.{
  ℕ, ◌+◌, ◌-◌, ◌^◌, ◌≤◌, ◌<◌, ◌≡◌, refl, true, false, none, some, List, ◌⊎◌, inl, inr, ◌↔◌, arith,
  ap, length, All, IsByte, Option-cases,
}
use amber.Memory.Cells.{
  cells, overwrite, overwrite_outside, cells-overwrite_self, cells-overwrite_disjoint,
  overwrite-IsByte,
}
use amber.Memory.{GuestRam, offset, in_range, read, write}

-- What a mapping by `GuestMemory::new` gives: bytes, and a range that fits the address space.
pub record IsRam (r : GuestRam) : Type 0 where
  pub bytes : (o : ℕ) → IsByte (r.host o)
  pub fits : r.base + r.len ≤ 2 ^ 64
  pub sized : r.len < 2 ^ 64

pub offset-some :
    (r : GuestRam) (gpa n : ℕ) {off : ℕ}
    → offset r gpa n ≡ some off
    → (r.base ≤ gpa) × (off ≡ gpa - r.base) × (off + n ≤ r.len)
unfolding offset
offset-some r gpa n e = ground arith

pub offset_lem :
    (r : GuestRam) (gpa n : ℕ)
    → r.len < 2 ^ 64
    → r.base ≤ gpa
    → gpa + n ≤ r.base + r.len
    → offset r gpa n ≡ some (gpa - r.base)
unfolding offset
offset_lem r gpa n h p q = ground arith

-- In a view whose range fits the 64-bit address space, `in_range` answers true exactly when
-- `[gpa, gpa + n)` lies inside guest RAM, for every address and length, those included whose sum
-- passes the end of the address space.
pub in_range_iff :
    (r : GuestRam) (gpa n : ℕ)
    → IsRam r
    → (in_range r gpa n ≡ true) ↔ ((r.base ≤ gpa) × (gpa + n ≤ r.base + r.len))
unfolding in_range offset
in_range_iff r gpa n w = (λ e. ground arith, λ e. ground arith)

pub write_shape :
    (r : GuestRam) (gpa : ℕ) (buf : List ℕ)
    → ((write r gpa buf).0.len ≡ r.len) × ((write r gpa buf).0.base ≡ r.base)
unfolding write
write_shape r gpa buf = ground arith

pub offset-write :
    (r : GuestRam) (gpa : ℕ) (buf : List ℕ) (a n : ℕ)
    → offset (write r gpa buf).0 a n ≡ offset r a n
unfolding offset
offset-write r gpa buf a n = ground (arith, write_shape r gpa buf)

-- A write is answered true exactly when its range is in RAM; then the bytes of the range are those
-- of the buffer. Otherwise RAM is as it was.
pub write_cases :
    (r : GuestRam) (gpa : ℕ) (buf : List ℕ)
    → ((offset r gpa (length buf) ≡ none) × (write r gpa buf ≡ (r, false)))
      ⊎ ((off : ℕ) × (offset r gpa (length buf) ≡ some off)
          × (write r gpa buf ≡ (record r { host = overwrite r.host off buf }, true)))
unfolding write
write_cases r gpa buf = elim (Option-cases (offset r gpa (length buf))) [
  | inl e ↦ inl (e, rw (e, write))
  | inr (off, e) ↦ inr (off, e, rw (e, write))
]

pub read_cases :
    (r : GuestRam) (gpa : ℕ) (buf : List ℕ)
    → ((offset r gpa (length buf) ≡ none) × (read r gpa buf ≡ (false, buf)))
      ⊎ ((off : ℕ) × (offset r gpa (length buf) ≡ some off)
          × (read r gpa buf ≡ (true, cells r.host off (length buf))))
unfolding read
read_cases r gpa buf = elim (Option-cases (offset r gpa (length buf))) [
  | inl e ↦ inl (e, rw (e, read))
  | inr (off, e) ↦ inr (off, e, rw (e, read))
]

-- No write, whatever its address and length, changes host memory outside the mapping (at an offset
-- of `len` or more), nor any byte of RAM outside the range it names.
pub write_confined :
    (r : GuestRam) (gpa : ℕ) (buf : List ℕ) (o : ℕ)
    → (r.len ≤ o) ⊎ (r.base + o < gpa) ⊎ (gpa + length buf ≤ r.base + o)
    → (write r gpa buf).0.host o ≡ r.host o
write_confined r gpa buf o h = elim (write_cases r gpa buf) [
  | inl (_, e) ↦ rw e refl
  | inr (off, p, e) ↦ rw e (outside off p)
]
  where
    outside :
        (off : ℕ) → offset r gpa (length buf) ≡ some off → overwrite r.host off buf o ≡ r.host o
    outside off p =
        overwrite_outside r.host off buf o
          (let s = offset-some r gpa (length buf) p in ground (arith, s))

-- After a write that is answered true, a read of the same address and length is answered true and
-- gives the bytes written.
pub read-write :
    (r : GuestRam) (gpa : ℕ) (buf old : List ℕ)
    → length old ≡ length buf
    → (write r gpa buf).1 ≡ true
    → read (write r gpa buf).0 gpa old ≡ (true, buf)
unfolding read
read-write r gpa buf old l h = elim (write_cases r gpa buf) [
  | inl (_, e) ↦ absurd (ground (arith, e))
  | inr (off, p, e) ↦
      rw (l, offset-write r gpa buf gpa (length buf), p, e, read, l)
        (ap (λ (x : List ℕ). (true, x)) (cells-overwrite_self r.host off buf))
]

-- A read of a range that a write does not touch gives what it gave before, rejected ranges too.
pub read-write_disjoint :
    (r : GuestRam) (gpa a : ℕ) (buf old : List ℕ)
    → (a + length old ≤ gpa) ⊎ (gpa + length buf ≤ a)
    → read (write r gpa buf).0 a old ≡ read r a old
unfolding read
read-write_disjoint r gpa a buf old h = elim (write_cases r gpa buf) [
  | inl (_, e) ↦ rw e refl
  | inr (off, p, e) ↦ elim (Option-cases (offset r a (length old))) [
    | inl q ↦ rw (offset-write r gpa buf a (length old), q, read) refl
    | inr (from, q) ↦
        rw (offset-write r gpa buf a (length old), q, e, read)
          (ap (λ (x : List ℕ). (true, x)) (apart off from p q))
  ]
]
  where
    apart :
        (off from : ℕ)
        → offset r gpa (length buf) ≡ some off
        → offset r a (length old) ≡ some from
        → cells (overwrite r.host off buf) from (length old) ≡ cells r.host from (length old)
    apart off from p q = cells-overwrite_disjoint r.host off buf from (length old) (
        let s = offset-some r gpa (length buf) p in
        let t = offset-some r a (length old) q in ground (arith, s, t))

-- A write of bytes keeps RAM well formed.
pub write-IsRam :
    (r : GuestRam) (gpa : ℕ) (buf : List ℕ) → IsRam r → All IsByte buf → IsRam (write r gpa buf).0
write-IsRam r gpa buf w b = record {
  bytes = λ o. elim (write_cases r gpa buf) [
    | inl (_, e) ↦ rw e (w.bytes o)
    | inr (off, p, e) ↦ rw e (overwrite-IsByte r.host off buf o (w.bytes o) b)
  ];
  fits = ground (arith, write_shape r gpa buf);
  sized = ground (arith, write_shape r gpa buf);
}
