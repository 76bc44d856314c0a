-- ===== src/Devices/Block.antt =====
-- crates/amber-core/src/virtio.rs: the used length of a block request fits a u32, and a read-only disk
-- is never written; the used length of the entropy device.
use amber.Prelude.{
  ◌==◌, if◌then◌else◌, ap, map, ℕ, zero, suc, ◌+◌, ◌-◌, ◌*◌, ◌%◌, ◌^◌, ◌≤◌, ◌<◌, ◌≡◌, refl, ◌∙◌,
  inl, inr, true, false, ◌&&◌, some, List, [], ◌∷◌, arith, Bool-cases, length, take, All,
  wrapping_add, length-take,
}
use amber.Memory.{GuestRam, read_u32, read_u64}
use amber.Memory
use amber.Memory.Access.{IsRam}
use amber.Virtqueue.{desc_buf, Buf, sum_len, writable_bufs, collect_chain, max_desc_len}
use amber.Virtqueue.Chain.{
  Linked, desc_at, collect_chain-Linked, sum_len-le, IsSafe, collect_chain_bounds,
}
use amber.Devices.{
  Disk, BlkDevice, in_loop, serve, blk_handle, data_bufs, Entropy, rng_loop, rng_handle, read_disk,
  s_ioerr,
}

-- The lengths of a part of a chain sum to at most the chain's length in descriptors of full size.
abbrev IsCapped : List Buf → Type 0
IsCapped bufs = All (λ b. b.len ≤ max_desc_len) bufs

sum_len-IsCapped : (bufs : List Buf) → IsCapped bufs → sum_len bufs ≤ length bufs * 16777216
sum_len-IsCapped [] k = omega arith
sum_len-IsCapped (b ∷ bufs) k = omega (arith, k.0, sum_len-IsCapped bufs k.1)

take-IsCapped : (n : ℕ) (bufs : List Buf) → IsCapped bufs → IsCapped (take n bufs)
take-IsCapped zero bufs k = tt
take-IsCapped (suc n) [] k = tt
take-IsCapped (suc n) (b ∷ bufs) k = (k.0, take-IsCapped n bufs k.1)

writable_bufs-le : (bufs : List Buf) → sum_len (writable_bufs bufs) ≤ sum_len bufs
writable_bufs-le [] = omega arith
writable_bufs-le (b ∷ bufs) = elim (Bool-cases b.writable) [
  | inl e ↦ rw e (omega (arith, writable_bufs-le bufs))
  | inr e ↦ rw e (omega (arith, writable_bufs-le bufs))
]

safe-IsCapped : (ram : GuestRam) (bufs : List Buf) → All (IsSafe ram) bufs → IsCapped bufs
safe-IsCapped ram [] k = tt
safe-IsCapped ram (b ∷ bufs) k = (k.0.0, safe-IsCapped ram bufs k.1)

module _ {W : Type 0} (ops : Disk W) where
  in_loop-sum_len :
      (d : BlkDevice W) (ram : GuestRam) (bufs : List Buf) (offset written : ℕ)
      → written + sum_len bufs < 2 ^ 32
      → (in_loop ops d ram bufs offset written).1 ≡ written + sum_len bufs
  unfolding in_loop
  in_loop-sum_len d ram [] offset written h = omega arith
  in_loop-sum_len d ram (b ∷ bufs) offset written h =
      in_loop-sum_len d (Memory.write ram b.addr (read_disk ops d offset b.len)).0 bufs
        (wrapping_add 64 offset b.len) (wrapping_add 32 written b.len) (omega arith)
      ∙ omega (arith, h)

  -- The bytes that a request puts into guest RAM, by its type.
  abbrev pub given : ℕ → List Buf → ℕ
  given req_type parts = if req_type == 0 then sum_len (writable_bufs parts) else 0

  serve-given :
      (d : BlkDevice W) (ram : GuestRam) (parts : List Buf) (req_type offset : ℕ)
      → sum_len (writable_bufs parts) < 2 ^ 32
      → (serve ops d ram parts req_type offset).3 ≡ given req_type parts
  unfolding serve
  serve-given d ram parts req_type offset h = elim (Bool-cases (req_type == 0)) [
    | inl e ↦
        rw (serve, e)
          (in_loop-sum_len d ram (writable_bufs parts) offset 0 (omega arith) ∙ omega arith)
    | inr e ↦ elim (Bool-cases (req_type == 1 && d.writable)) [
      | inl f ↦ rw (serve, e, f) refl
      | inr f ↦ elim (Bool-cases (req_type == 1)) [
        | inl g ↦ rw (serve, e, f, g) refl
        | inr g ↦ elim (Bool-cases (req_type == 4)) [
          | inr q ↦ rw (serve, e, f, g, q) refl
          | inl q ↦ elim (Bool-cases d.writable) [
            | inl v ↦ rw (serve, e, f, g, q, v) refl
            | inr v ↦ rw (serve, e, f, g, q, v) refl
          ]
        ]
      ]
    ]
  ]

  blk_handle-le :
      (d : BlkDevice W) (ram : GuestRam) (bufs : List Buf)
      → length bufs ≤ 256
      → IsCapped bufs
      → (blk_handle ops d ram bufs).2 < 2 ^ 32
  unfolding blk_handle
  blk_handle-le d ram [] l k = omega arith
  blk_handle-le d ram (b ∷ []) l k = omega arith
  blk_handle-le d ram (b ∷ b' ∷ bufs) l k =
      let parts = data_bufs (b ∷ b' ∷ bufs) in
      let req_type = read_u32 ram b.addr in
      let offset = read_u64 ram (wrapping_add 64 b.addr 8) * 512 % 2 ^ 64 in
      let size = length-take (length (b ∷ b' ∷ bufs) - 2) (b' ∷ bufs) in
      let capped =
        sum_len-IsCapped parts (take-IsCapped (length (b ∷ b' ∷ bufs) - 2) (b' ∷ bufs) k.1) in
      let le : sum_len (writable_bufs parts) ≤ 254 * 16777216 =
        omega (arith, size, capped, writable_bufs-le parts, l) in
      let answer = serve-given d ram parts req_type offset (omega (arith, le)) in
      ground (arith, le, answer)

  -- The used length of a block request that the guest posted in a ring of at most 256 descriptors
  -- fits a u32, so that neither the sum over the data buffers nor the status byte's `+ 1` overflows.
  pub blk_handle-collect_chain :
      (d : BlkDevice W) (ram : GuestRam) (desc head qsz : ℕ)
      → IsRam ram
      → qsz ≤ 256
      → (blk_handle ops d ram (collect_chain ram desc head qsz)).2 < 2 ^ 32
  blk_handle-collect_chain d ram desc head qsz r h =
      let (size, safe) = collect_chain_bounds ram desc head qsz r in
      blk_handle-le d ram (collect_chain ram desc head qsz) (omega (arith, size, h))
        (safe-IsCapped ram (collect_chain ram desc head qsz) safe)

  serve_readonly :
      (d : BlkDevice W) (ram : GuestRam) (parts : List Buf) (req_type offset : ℕ)
      → d.writable ≡ false
      → ((serve ops d ram parts req_type offset).0 ≡ d)
        × (req_type ≡ 1 → (serve ops d ram parts req_type offset).2 ≡ s_ioerr)
  unfolding serve
  serve_readonly d ram parts req_type offset h = elim (Bool-cases (req_type == 0)) [
    | inl e ↦ rw (serve, e) (refl, (λ z. absurd (ground (arith, e, z))))
    | inr e ↦ elim (Bool-cases (req_type == 1)) [
      | inl g ↦ rw (serve, e, g, h) (refl, (λ z. refl))
      | inr g ↦ elim (Bool-cases (req_type == 4)) [
        | inl q ↦ rw (serve, e, g, q, h) (refl, (λ z. absurd (ground (arith, g, z))))
        | inr q ↦ rw (serve, e, g, q, h) (refl, (λ z. absurd (ground (arith, g, z))))
      ]
    ]
  ]

  -- A device that was opened read-only never changes the backing file or itself, whatever the
  -- request and its chain, and refuses a write with an I/O error.
  pub blk_handle_readonly :
      (d : BlkDevice W) (ram : GuestRam) (bufs : List Buf)
      → d.writable ≡ false
      → ((blk_handle ops d ram bufs).0 ≡ d)
        × ((parts : List Buf) (offset : ℕ) → (serve ops d ram parts 1 offset).2 ≡ s_ioerr)
  blk_handle_readonly d ram bufs h =
      (same bufs, λ parts offset. (serve_readonly d ram parts 1 offset h).1 refl)
    where
      same : (bufs : List Buf) → (blk_handle ops d ram bufs).0 ≡ d
      same [] = unfold blk_handle in refl
      same (b ∷ []) = unfold blk_handle in refl
      same (b ∷ b' ∷ bufs) =
          unfold blk_handle in
          (serve_readonly d ram (data_bufs (b ∷ b' ∷ bufs)) (read_u32 ram b.addr)
            (read_u64 ram (wrapping_add 64 b.addr 8) * 512 % 2 ^ 64) h).0

rng_loop-sum_len :
    {W : Type 0} (src : Entropy W)
    → ((w : W) (n : ℕ) → (bytes : List ℕ) × ((src.read_exact w n).1 ≡ some bytes))
    → (w : W) (ram : GuestRam) (bufs : List Buf) (written : ℕ) → written < 2 ^ 32
    → (rng_loop src w ram bufs written).2 ≡ (written + sum_len bufs) % 2 ^ 32
unfolding rng_loop
rng_loop-sum_len src h w ram [] written small = omega (arith, small)
rng_loop-sum_len src h w ram (b ∷ bufs) written small =
    let (bytes, e) = h w b.len in
    rw (rng_loop, e)
      (rng_loop-sum_len src h (src.read_exact w b.len).0 (Memory.write ram b.addr bytes).0 bufs
          (wrapping_add 32 written b.len) (omega arith)
        ∙ omega arith)

sum_len-full :
    (ram : GuestRam) (desc : ℕ) (is : List ℕ)
    → All (λ i. (desc_buf ram (desc_at desc i)).writable ≡ true) is
    → All (λ i. (desc_buf ram (desc_at desc i)).len ≡ max_desc_len) is
    → sum_len (writable_bufs (map (λ i. desc_buf ram (desc_at desc i)) is)) ≡ length is * 16777216
sum_len-full ram desc [] v l = omega arith
sum_len-full ram desc (i ∷ is) v l = rw v.0 (omega (arith, l.0, sum_len-full ram desc is v.1 l.1))

-- While the entropy source answers, the used length for any chain of a ring of at most 256 descriptors is the
-- sum of its writable buffers, which is at most 2^32, but where it is 2^32 the used length is 0.
pub rng_handle-sum_len :
    {W : Type 0} (src : Entropy W)
    → ((w : W) (n : ℕ) → (bytes : List ℕ) × ((src.read_exact w n).1 ≡ some bytes))
    → (w : W) (ram : GuestRam) (desc head qsz : ℕ) → IsRam ram
    → qsz ≤ 256
    → let bufs = collect_chain ram desc head qsz in
      let sum = sum_len (writable_bufs bufs) in
      (sum ≤ 2 ^ 32) × ((rng_handle src w ram bufs).2 ≡ (if sum == 2 ^ 32 then 0 else sum))
unfolding rng_handle
rng_handle-sum_len src h w ram desc head qsz k small =
    let bufs = collect_chain ram desc head qsz in
    let (count, safe) = collect_chain_bounds ram desc head qsz k in
    let most : sum_len (writable_bufs bufs) ≤ 2 ^ 32 =
      omega (arith, writable_bufs-le bufs, sum_len-le ram bufs safe, count, small) in
    let used = rng_loop-sum_len src h w ram (writable_bufs bufs) 0 (omega arith) in
    (most, used ∙ wraps (sum_len (writable_bufs bufs)) most)
  where
    wraps : (n : ℕ) → n ≤ 2 ^ 32 → (0 + n) % 2 ^ 32 ≡ (if n == 2 ^ 32 then 0 else n)
    wraps n h = ground arith

-- Such a chain exists in any ring of 256 descriptors that links as many writable buffers of 16 MiB: the
-- device fills them all and reports a length of 0.
rng_handle_full :
    {W : Type 0} (src : Entropy W)
    → ((w : W) (n : ℕ) → (bytes : List ℕ) × ((src.read_exact w n).1 ≡ some bytes))
    → (w : W) (ram : GuestRam) (desc head : ℕ) (is : List ℕ) → Linked ram desc 256 head is
    → length is ≡ 256
    → All (λ i. (desc_buf ram (desc_at desc i)).writable ≡ true) is
    → All (λ i. (desc_buf ram (desc_at desc i)).len ≡ max_desc_len) is
    → (rng_handle src w ram (collect_chain ram desc head 256)).2 ≡ 0
unfolding rng_handle
rng_handle_full src h w ram desc head is linked n v l =
    rng_loop-sum_len src h w ram (writable_bufs (collect_chain ram desc head 256)) 0 (omega arith)
    ∙ ap (λ (bs : List Buf). (0 + sum_len (writable_bufs bs)) % 2 ^ 32)
        (collect_chain-Linked ram desc head 256 is linked (omega (arith, n)))
    ∙ ap (λ (s : ℕ). (0 + s) % 2 ^ 32) (sum_len-full ram desc is v l)
    ∙ omega (arith, n)
