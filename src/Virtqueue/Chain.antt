-- ===== src/Virtqueue/Chain.antt =====
-- What `collect_chain` promises for any descriptor table: bounded length, buffers inside RAM.
use amber.Prelude.{
  ℕ, zero, suc, ◌+◌, ◌*◌, ◌≤◌, ◌<◌, ◌≡◌, refl, true, false, List, [], ◌∷◌, ◌⊎◌, inl, inr, arith,
  length, All, map, if◌then◌else◌, Bool-cases, leb, ◌==◌, bit_and, wrapping_add, Bool,
}
use amber.Memory.{GuestRam, in_range, read_u16}
use amber.Memory.Access.{IsRam, in_range_iff}
use amber.Virtqueue.{
  Buf, desc_buf, chain_loop, collect_chain, max_desc_len, sum_len, writable_bufs, virtq_desc_f_next,
}

-- A device may allocate and access `len` bytes at `addr`.
abbrev pub IsSafe : GuestRam → Buf → Type 0
IsSafe ram b =
    (b.len ≤ max_desc_len)
    × ((b.len ≡ 0) ⊎ ((ram.base ≤ b.addr) × (b.addr + b.len ≤ ram.base + ram.len)))

safe_len :
    (ram : GuestRam) (a n : ℕ) (ok : Bool)
    → IsRam ram
    → in_range ram a n ≡ ok
    → n ≤ max_desc_len
    → let len = if ok then n else 0 in
      (len ≤ max_desc_len) × ((len ≡ 0) ⊎ ((ram.base ≤ a) × (a + len ≤ ram.base + ram.len)))
safe_len ram a n true w e h = (h, inr ((in_range_iff ram a n w).0 e))
safe_len ram a n false w e h = (omega arith, inl refl)

pub desc_buf-IsSafe : (ram : GuestRam) (d : ℕ) → IsRam ram → IsSafe ram (desc_buf ram d)
unfolding desc_buf
desc_buf-IsSafe ram d w = safe_len ram _ _ _ w refl (omega arith)

pub chain_loop-IsSafe :
    (ram : GuestRam) (desc qsz i rounds : ℕ)
    → IsRam ram
    → All (IsSafe ram) (chain_loop ram desc qsz i rounds)
unfolding chain_loop
chain_loop-IsSafe ram desc qsz i zero w = tt
chain_loop-IsSafe ram desc qsz i (suc rounds) w =
    let d = wrapping_add 64 desc (16 * i) in
    let flags = read_u16 ram (wrapping_add 64 d 12) in
    let ih = chain_loop-IsSafe ram desc qsz (read_u16 ram (wrapping_add 64 d 14)) rounds w in
    elim (Bool-cases (leb qsz i)) [
      | inl e ↦ rw e tt
      | inr e ↦ rw e (
        desc_buf-IsSafe ram d w,
        elim (Bool-cases (bit_and flags virtq_desc_f_next == 0)) [
          | inl f ↦ rw f tt
          | inr f ↦ rw f ih
        ],
      )
    ]

pub length-chain_loop :
    (ram : GuestRam) (desc qsz i rounds : ℕ) → length (chain_loop ram desc qsz i rounds) ≤ rounds
unfolding chain_loop
length-chain_loop ram desc qsz i zero = omega arith
length-chain_loop ram desc qsz i (suc rounds) =
    let next = read_u16 ram (wrapping_add 64 (wrapping_add 64 desc (16 * i)) 14) in
    ground (arith, length-chain_loop ram desc qsz next rounds)

-- For any descriptor table and head, a chain has at most `qsz` buffers, also where its links form
-- a cycle; each buffer has at most `MAX_DESC_LEN` bytes and, unless it is empty, lies inside RAM.
pub collect_chain_bounds :
    (ram : GuestRam) (desc head qsz : ℕ)
    → IsRam ram
    → (length (collect_chain ram desc head qsz) ≤ qsz)
      × All (IsSafe ram) (collect_chain ram desc head qsz)
unfolding collect_chain
collect_chain_bounds ram desc head qsz w =
    (length-chain_loop ram desc qsz head qsz, chain_loop-IsSafe ram desc qsz head qsz w)

-- The address of descriptor `i`, and what the table says of it.
abbrev pub desc_at : ℕ → ℕ → ℕ
desc_at desc i = wrapping_add 64 desc (16 * i)

abbrev pub has_next : GuestRam → ℕ → ℕ → Bool
has_next ram desc i =
    if bit_and (read_u16 ram (wrapping_add 64 (desc_at desc i) 12)) virtq_desc_f_next == 0
    then false
    else true

abbrev pub next_of : GuestRam → ℕ → ℕ → ℕ
next_of ram desc i = read_u16 ram (wrapping_add 64 (desc_at desc i) 14)

-- `Linked ram desc qsz i is`: the descriptors `is` form a well-formed chain from `i`, all inside the
-- table, each but the last linked to the one behind it.
pub data Linked (ram : GuestRam) (desc qsz : ℕ) : ℕ → List ℕ → Type 0 where
  last : (i : ℕ) → i < qsz → has_next ram desc i ≡ false → Linked ram desc qsz i (i ∷ [])
  link :
      (i : ℕ) {is : List ℕ}
      → i < qsz
      → has_next ram desc i ≡ true
      → Linked ram desc qsz (next_of ram desc i) is
      → Linked ram desc qsz i (i ∷ is)

chain_loop-Linked :
    (ram : GuestRam) (desc qsz i rounds : ℕ) (is : List ℕ)
    → Linked ram desc qsz i is
    → length is ≤ rounds
    → chain_loop ram desc qsz i rounds ≡ map (λ j. desc_buf ram (desc_at desc j)) is
unfolding chain_loop
chain_loop-Linked ram desc qsz i zero is (last _ h e) l = absurd (omega arith)
chain_loop-Linked ram desc qsz i zero is (link _ h e r) l = absurd (omega arith)
chain_loop-Linked ram desc qsz i (suc rounds) is (last _ h e) l = ground arith
chain_loop-Linked ram desc qsz i (suc rounds) is (link _ {is = js} h e r) l =
    ground (arith, chain_loop-Linked ram desc qsz (next_of ram desc i) rounds js r)

-- A well-formed chain of at most `qsz` descriptors is gathered whole, in the order of its links.
pub collect_chain-Linked :
    (ram : GuestRam) (desc head qsz : ℕ) (is : List ℕ)
    → Linked ram desc qsz head is
    → length is ≤ qsz
    → collect_chain ram desc head qsz ≡ map (λ j. desc_buf ram (desc_at desc j)) is
unfolding collect_chain
collect_chain-Linked ram desc head qsz is = chain_loop-Linked ram desc qsz head qsz is

-- A head outside the table gives no buffer.
pub collect_chain_outside :
    (ram : GuestRam) (desc head qsz : ℕ) → qsz ≤ head → collect_chain ram desc head qsz ≡ []
unfolding collect_chain chain_loop
collect_chain_outside ram desc head zero h = refl
collect_chain_outside ram desc head (suc n) h = ground arith

pub sum_len-le :
    (ram : GuestRam) (bufs : List Buf)
    → All (IsSafe ram) bufs
    → sum_len bufs ≤ length bufs * max_desc_len
sum_len-le ram [] h = omega arith
sum_len-le ram (b ∷ bufs) h = omega (arith, sum_len-le ram bufs h.1, h.0.0)

pub writable_bufs-IsSafe :
    (ram : GuestRam) (bufs : List Buf)
    → All (IsSafe ram) bufs
    → All (IsSafe ram) (writable_bufs bufs)
writable_bufs-IsSafe ram [] h = tt
writable_bufs-IsSafe ram (b ∷ bufs) h = elim (Bool-cases b.writable) [
  | inl e ↦ rw e (h.0, writable_bufs-IsSafe ram bufs h.1)
  | inr e ↦ rw e (writable_bufs-IsSafe ram bufs h.1)
]
