-- ===== src/Virtqueue/Used.antt =====
-- `push_used`: one element published on the used ring.
use amber.Prelude.{
  ℕ, ◌+◌, ◌*◌, ◌%◌, ◌^◌, ◌≤◌, ◌<◌, ◌≡◌, ◌≢◌, arith, wrapping_add, ◌==◌, Bool-cases, inl, inr, ◌⊎◌,
  ◌∙◌,
}
use amber.Memory.{GuestRam, read_u16, read_u32, write_u16, write_u32}
use amber.Memory.Access.{IsRam}
use amber.Memory.Typed.{
  read_u32-write_u32, read_u16-write_u16, write_u16_shape, write_u32_shape, write_u16-IsRam,
  write_u32-IsRam, read_u32-write_u16, read_u32-write_u32_ne,
}
use amber.Virtqueue.{push_used}
use native.Mathlib.Nat.{mod-lt}

pub push_used-IsRam :
    (ram : GuestRam) (used id len qsz : ℕ) → IsRam ram → IsRam (push_used ram used id len qsz)
unfolding push_used
push_used-IsRam ram used id len qsz w = elim (Bool-cases (qsz == 0)) [
  | inl e ↦ rw e w
  | inr e ↦ rw e (write_u16-IsRam _ _ _ (write_u32-IsRam _ _ _ (write_u32-IsRam _ _ _ w)))
]

pub push_used_shape :
    (ram : GuestRam) (used id len qsz : ℕ)
    → ((push_used ram used id len qsz).len ≡ ram.len)
      × ((push_used ram used id len qsz).base ≡ ram.base)
unfolding push_used
push_used_shape ram used id len qsz = grind (arith, write_u16_shape, write_u32_shape)

-- The used ring of `qsz` elements lies inside RAM.
pub record IsRing (ram : GuestRam) (used qsz : ℕ) : Type 0 where
  pub low : ram.base ≤ used
  pub high : used + 4 + 8 * qsz ≤ ram.base + ram.len
  pub some_slot : 0 < qsz

-- The address of slot `k`.
abbrev pub slot_at : ℕ → ℕ → ℕ
slot_at used k = used + (4 + 8 * k)

abbrev pub used_idx : GuestRam → ℕ → ℕ
used_idx ram used = read_u16 ram (used + 2)

-- The three writes with the addresses of a ring inside RAM, which do not wrap.
publish : GuestRam → ℕ → ℕ → ℕ → ℕ → ℕ → GuestRam
publish ram used idx k id len =
    write_u16 (write_u32 (write_u32 ram (slot_at used k) id) (slot_at used k + 4) len) (used + 2)
      ((idx + 1) % 2 ^ 16)

no_wrap : (a n : ℕ) → a + n < 2 ^ 64 → wrapping_add 64 a n ≡ a + n
no_wrap a n h = omega arith

push_used-publish :
    (ram : GuestRam) (used id len qsz : ℕ)
    → IsRam ram
    → IsRing ram used qsz
    → push_used ram used id len qsz
      ≡ publish ram used (used_idx ram used) (used_idx ram used % qsz) id len
unfolding push_used publish
push_used-publish ram used id len qsz w ring =
    let lt = mod-lt (used_idx ram used) ring.some_slot in
    let e2 = no_wrap used 2 (omega arith) in
    let es = no_wrap used (4 + 8 * (used_idx ram used % qsz)) (omega arith) in
    let e4 = no_wrap (slot_at used (used_idx ram used % qsz)) 4 (omega arith) in
    ground (arith, e2, es, e4)

module _ (ram : GuestRam) (used idx k id len qsz : ℕ) (w : IsRam ram) (ring : IsRing ram used qsz)
    (h : k < qsz) where
  publish_idx : used_idx (publish ram used idx k id len) used ≡ (idx + 1) % 2 ^ 16
  unfolding publish
  publish_idx =
      read_u16-write_u16 _ (used + 2) _
        (ground (
          arith,
          write_u32_shape ram (slot_at used k) id,
          write_u32_shape (write_u32 ram (slot_at used k) id) (slot_at used k + 4) len,
          w.sized,
        ))
        (ground (
          arith,
          write_u32_shape ram (slot_at used k) id,
          write_u32_shape (write_u32 ram (slot_at used k) id) (slot_at used k + 4) len,
          ring.low,
        ))
        (ground (
          arith,
          write_u32_shape ram (slot_at used k) id,
          write_u32_shape (write_u32 ram (slot_at used k) id) (slot_at used k + 4) len,
          ring.high,
        ))
        (omega arith)

  publish_id : id < 2 ^ 32 → read_u32 (publish ram used idx k id len) (slot_at used k) ≡ id
  unfolding publish
  publish_id b =
      read_u32-write_u16 _ (used + 2) _ (slot_at used k) (inr (omega arith))
      ∙ read_u32-write_u32_ne _ (slot_at used k + 4) len (slot_at used k) (inl (omega arith))
      ∙ read_u32-write_u32 ram (slot_at used k) id w.sized (omega (arith, ring.low))
          (omega (arith, ring.high)) b

  publish_len : len < 2 ^ 32 → read_u32 (publish ram used idx k id len) (slot_at used k + 4) ≡ len
  unfolding publish
  publish_len b =
      read_u32-write_u16 _ (used + 2) _ (slot_at used k + 4) (inr (omega arith))
      ∙ read_u32-write_u32 _ (slot_at used k + 4) len
          (ground (arith, write_u32_shape ram (slot_at used k) id, w.sized))
          (ground (arith, write_u32_shape ram (slot_at used k) id, ring.low))
          (ground (arith, write_u32_shape ram (slot_at used k) id, ring.high)) b

  publish_other :
      (a : ℕ)
      → (used + 4 ≤ a)
      → (a + 4 ≤ slot_at used k) ⊎ (slot_at used k + 8 ≤ a)
      → read_u32 (publish ram used idx k id len) a ≡ read_u32 ram a
  unfolding publish
  publish_other a low d =
      read_u32-write_u16 _ (used + 2) _ a (inr (omega arith))
      ∙ read_u32-write_u32_ne _ (slot_at used k + 4) len a (omega arith)
      ∙ read_u32-write_u32_ne ram (slot_at used k) id a (omega arith)

-- On a used ring inside RAM, `push_used` puts the element (id, len) into the slot of the current
-- index, moves the index on by one (mod 2^16), and leaves every other slot as it was.
pub push_used_lem :
    (ram : GuestRam) (used id len qsz j : ℕ)
    → IsRam ram
    → IsRing ram used qsz
    → id < 2 ^ 32
    → len < 2 ^ 32
    → j < qsz
    → let after = push_used ram used id len qsz in
      let k = used_idx ram used % qsz in
      (used_idx after used ≡ (used_idx ram used + 1) % 2 ^ 16)
      × (read_u32 after (slot_at used k) ≡ id)
      × (read_u32 after (slot_at used k + 4) ≡ len)
      × (j ≢ k
          → (read_u32 after (slot_at used j) ≡ read_u32 ram (slot_at used j))
            × (read_u32 after (slot_at used j + 4) ≡ read_u32 ram (slot_at used j + 4)))
push_used_lem ram used id len qsz j w ring bi bl hj =
    let idx = used_idx ram used in
    let hk = mod-lt idx ring.some_slot in
    rw (push_used-publish ram used id len qsz w ring) (
      publish_idx ram used idx (idx % qsz) id len qsz w ring hk,
      publish_id ram used idx (idx % qsz) id len qsz w ring hk bi,
      publish_len ram used idx (idx % qsz) id len qsz w ring hk bl,
      λ ne. (
        publish_other ram used idx (idx % qsz) id len qsz w ring hk (slot_at used j) (omega arith)
            (omega arith),
        publish_other ram used idx (idx % qsz) id len qsz w ring hk (slot_at used j + 4)
            (omega arith) (omega arith),
      ),
    )
