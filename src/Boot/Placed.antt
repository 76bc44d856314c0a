-- ===== src/Boot/Placed.antt =====
-- crates/amber-core/src/memory.rs (`GuestMemory::write`) as the loader uses it: what is placed where, and what stays.
use amber.Prelude.{
  ℕ, ◌+◌, ◌-◌, ◌^◌, ◌≤◌, ◌≡◌, refl, ap, ◌∙◌, ◌⊎◌, inl, inr, Bool, true, false, none, some, List,
  arith, ltb, leb, if◌then◌else◌, Bool-cases, length,
}
use amber.Memory.{GuestMemory, write_image}
use amber.Memory.Cells.{cells, overwrite, cells-overwrite_self, cells-overwrite_disjoint}

-- `bytes` are in RAM at the address `gpa`.
pub record IsAt (m : GuestMemory) (gpa : ℕ) (bytes : List ℕ) : Type 0 where
  pub from : m.base ≤ gpa
  pub fits : gpa + length bytes ≤ m.base + m.len
  pub same : cells m.host (gpa - m.base) (length bytes) ≡ bytes

-- A write that succeeds.
pub record IsWritten (m : GuestMemory) (gpa : ℕ) (bytes : List ℕ) (m' : GuestMemory) : Type 0 where
  pub from : m.base ≤ gpa
  pub fits : gpa + length bytes ≤ m.base + m.len
  pub result : m' ≡ record m { host = overwrite m.host (gpa - m.base) bytes }

if_some :
    {A : Type 0} (c : Bool) (x y : A) → (if c then some x else none) ≡ some y → (c ≡ true) × (y ≡ x)
if_some true x y e = (refl, cc e)
if_some false x y e = absurd (cc e)

pub write_image-IsWritten :
    (m : GuestMemory) (gpa : ℕ) (bytes : List ℕ) (m' : GuestMemory)
    → write_image m gpa bytes ≡ some m'
    → IsWritten m gpa bytes m'
unfolding write_image
write_image-IsWritten m gpa bytes m' = elim (Bool-cases (leb m.base gpa)) [
  | inr a ↦ rw (write_image, a) (λ e. absurd (cc e))
  | inl a ↦ elim (Bool-cases (ltb (gpa - m.base + length bytes) (2 ^ 64))) [
    | inr b ↦ rw (write_image, a, b) (λ e. absurd (cc e))
    | inl b ↦
        rw (write_image, a, b)
          (λ e.
            let (c, r) = if_some (leb (gpa - m.base + length bytes) m.len) _ m' e in
            record { from = ground (arith, a); fits = ground (arith, a, c); result = r })
  ]
]

pub IsWritten-IsAt :
    (m m' : GuestMemory) (gpa : ℕ) (bytes : List ℕ) → IsWritten m gpa bytes m' → IsAt m' gpa bytes
IsWritten-IsAt m m' gpa bytes w = rw w.result (record {
  from = w.from;
  fits = w.fits;
  same = cells-overwrite_self m.host (gpa - m.base) bytes;
})

-- What lies before or after the range written stays.
pub IsWritten-keeps :
    (m m' : GuestMemory) (gpa : ℕ) (bytes : List ℕ) (at : ℕ) (kept : List ℕ)
    → IsWritten m gpa bytes m'
    → (at + length kept ≤ gpa) ⊎ (gpa + length bytes ≤ at)
    → IsAt m at kept
    → IsAt m' at kept
IsWritten-keeps m m' gpa bytes at kept w apart k =
    let apart_off : (at - m.base + length kept ≤ gpa - m.base)
        ⊎ (gpa - m.base + length bytes ≤ at - m.base) =
      ground (arith, apart, k.from, w.from) in
    rw w.result (record {
      from = k.from;
      fits = k.fits;
      same =
          cells-overwrite_disjoint m.host (gpa - m.base) bytes (at - m.base) (length kept) apart_off
          ∙ k.same;
    })

pub IsWritten-shape :
    (m m' : GuestMemory) (gpa : ℕ) (bytes : List ℕ)
    → IsWritten m gpa bytes m'
    → (m'.base ≡ m.base) × (m'.len ≡ m.len)
IsWritten-shape m m' gpa bytes w =
    (ap (λ (x : GuestMemory). x.base) w.result, ap (λ (x : GuestMemory). x.len) w.result)
