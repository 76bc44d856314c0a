-- ===== src/Net/Transmit.antt =====
-- crates/amber-core/src/net.rs: the frame that a notify of the transmit queue gives the backend.
use amber.Prelude.{
  take_exact, ℕ, zero, suc, ◌+◌, ◌-◌, ◌^◌, ◌≤◌, ◌<◌, min, ◌≡◌, refl, sym, ap, ◌∙◌, ◌≢◌, ◌⊎◌, inl,
  inr, true, ◌&&◌, List, [], ◌∷◌, ◌++◌, append-nil, append_assoc, arith, ltb, leb, ◌==◌, Bool-cases,
  Option-cases, length, take, drop, replicate, All, length-append, ==_iff, lt→ltb, length-replicate,
}
use amber.Memory.{GuestRam, offset}
use amber.Memory
use amber.Memory.Cells.{cells, length-cells}
use amber.Memory.Access.{read_cases, offset_lem}
use amber.Virtqueue.{Buf, sum_len}
use amber.Devices.{readable}
use amber.Net.{NetBackend, TokenBucket, NetDevice, max_tx_frame, gather, charge_tx, net_handle}

read-length : (ram : GuestRam) (gpa n : ℕ) → length (Memory.read ram gpa (replicate n 0)).1 ≡ n
read-length ram gpa n = elim (read_cases ram gpa (replicate n 0)) [
  | inl (_, e) ↦ rw e (length-replicate n 0)
  | inr (off, _, e) ↦
      rw e (length-cells ram.host off (length (replicate n 0)) ∙ length-replicate n 0)
]

-- The bytes gathered: what the buffers hold, and never more than the limit.
gather-length :
    (ram : GuestRam) (bufs : List Buf) (frame : List ℕ)
    → length frame ≤ max_tx_frame
    → length (gather ram bufs frame) ≡ min max_tx_frame (length frame + sum_len bufs)
unfolding gather
gather-length ram [] frame h = omega arith
gather-length ram (b ∷ bufs) frame h =
    let n = min b.len (max_tx_frame - length frame) in
    let piece = (Memory.read ram b.addr (replicate n 0)).1 in
    let longer : length (frame ++ piece) ≡ length frame + n =
      length-append frame piece ∙ ap (λ (k : ℕ). length frame + k) (read-length ram b.addr n) in
    ground (arith, gather-length ram bufs (frame ++ piece) (omega (arith, longer)), longer)

-- All the bytes that the buffers hold, in order.
abbrev pub guest_bytes : GuestRam → List Buf → List ℕ
guest_bytes ram [] = []
guest_bytes ram (b ∷ bufs) = (Memory.read ram b.addr (replicate b.len 0)).1 ++ guest_bytes ram bufs

-- A buffer that is in RAM as a whole.
abbrev pub IsMapped : GuestRam → Buf → Type 0
IsMapped ram b = (ram.base ≤ b.addr) × (b.addr + b.len ≤ ram.base + ram.len)

cells-append :
    (host : ℕ → ℕ) (off n k : ℕ)
    → cells host off n ++ cells host (off + n) k ≡ cells host off (n + k)
unfolding cells
cells-append host off zero k =
    ap (λ (o : ℕ). cells host o k) (omega arith) ∙ ap (λ (j : ℕ). cells host off j) (omega arith)
cells-append host off (suc n) k =
    let past : off + suc n ≡ off + 1 + n = omega arith in
    let more : suc n + k ≡ suc (n + k) = omega arith in
    rw (past, more) (ap (λ (bs : List ℕ). host off ∷ bs) (cells-append host (off + 1) n k))

read-mapped :
    (ram : GuestRam) (b : Buf) (n : ℕ)
    → ram.len < 2 ^ 64
    → IsMapped ram b
    → n ≤ b.len
    → (Memory.read ram b.addr (replicate n 0)).1 ≡ cells ram.host (b.addr - ram.base) n
read-mapped ram b n small (from, to) le =
    let len : length (replicate {A = ℕ} n 0) ≡ n = length-replicate {A = ℕ} n 0 in
    let inside =
      offset_lem ram b.addr (length (replicate {A = ℕ} n 0)) small from
        (omega (arith, to, le, len)) in
    elim (read_cases ram b.addr (replicate n 0)) [
      | inl (out, e) ↦ absurd (cc (out, inside))
      | inr (off, within, e) ↦
          let here : off ≡ b.addr - ram.base = cc (within, inside) in
          rw (e, here) (ap (λ (k : ℕ). cells ram.host (b.addr - ram.base) k) len)
    ]

take-short : (xs : List ℕ) (n : ℕ) → length xs ≤ n → take n xs ≡ xs
take-short [] zero h = refl
take-short [] (suc n) h = refl
take-short (x ∷ xs) zero h = absurd (omega arith)
take-short (x ∷ xs) (suc n) h = ap (λ (bs : List ℕ). x ∷ bs) (take-short xs n (omega arith))

-- The bytes of a buffer of which `n` are taken: all of them, or as many as the frame has room for.
module _ (ram : GuestRam) (b : Buf) (small : ram.len < 2 ^ 64) (mapped : IsMapped ram b) where
  abbrev prefix : ℕ → List ℕ
  prefix n = (Memory.read ram b.addr (replicate n 0)).1

  abbrev past : ℕ → List ℕ
  past n = cells ram.host (b.addr - ram.base + n) (b.len - n)

  prefix-append : (n : ℕ) → n ≤ b.len → prefix b.len ≡ prefix n ++ past n
  prefix-append n le =
      let whole : n + (b.len - n) ≡ b.len = omega arith in
      read-mapped ram b b.len small mapped (omega arith)
      ∙ ap (λ (k : ℕ). cells ram.host (b.addr - ram.base) k) (sym whole)
      ∙ sym (cells-append ram.host (b.addr - ram.base) n (b.len - n))
      ∙ ap (λ (bs : List ℕ). bs ++ past n) (sym (read-mapped ram b n small mapped le))

  -- One round: the frame goes on with the prefix, and the limit cuts the same bytes.
  prefix-take :
      (limit : ℕ) (frame rest : List ℕ)
      → length frame ≤ limit
      → take limit ((frame ++ prefix (min b.len (limit - length frame))) ++ rest)
        ≡ take limit (frame ++ (prefix b.len ++ rest))
  prefix-take limit frame rest h = elim (Bool-cases (leb b.len (limit - length frame))) [
    | inl e ↦
        let same : min b.len (limit - length frame) ≡ b.len = ground (arith, e) in
        ap (λ (n : ℕ). take limit ((frame ++ prefix n) ++ rest)) same
        ∙ ap (λ (bs : List ℕ). take limit bs) (append_assoc frame (prefix b.len) rest)
    | inr e ↦
        let same : min b.len (limit - length frame) ≡ limit - length frame = ground (arith, e) in
        let n = limit - length frame in
        let exact : length (frame ++ prefix n) ≡ limit =
          omega (arith, length-append frame (prefix n), read-length ram b.addr n) in
        ap (λ (n : ℕ). take limit ((frame ++ prefix n) ++ rest)) same
        ∙ take_exact (frame ++ prefix n) rest limit exact
        ∙ sym (
            ap (λ (bs : List ℕ). take limit (frame ++ (bs ++ rest)))
              (prefix-append n (ground (arith, e)))
            ∙ ap (λ (bs : List ℕ). take limit bs)
                (ap (λ (bs : List ℕ). frame ++ bs) (append_assoc (prefix n) (past n) rest)
                  ∙ sym (append_assoc frame (prefix n) (past n ++ rest)))
            ∙ take_exact (frame ++ prefix n) (past n ++ rest) limit exact)
  ]

-- Over buffers that are in RAM as a whole, the frame that the loop gathers is the first 64 KiB of the
-- bytes that the buffers hold, in chain order.
pub gather-take :
    (ram : GuestRam) (bufs : List Buf) (frame : List ℕ)
    → ram.len < 2 ^ 64
    → All (IsMapped ram) bufs
    → length frame ≤ max_tx_frame
    → gather ram bufs frame ≡ take max_tx_frame (frame ++ guest_bytes ram bufs)
unfolding gather
gather-take ram [] frame small mapped h = sym (
    ap (λ (bs : List ℕ). take max_tx_frame bs) (append-nil frame) ∙ take-short frame max_tx_frame h)
gather-take ram (b ∷ bufs) frame small mapped h =
    elim (Bool-cases (leb max_tx_frame (length frame))) [
      | inl e ↦ rw (gather, e) (sym (take_exact frame _ max_tx_frame (ground (arith, h, e))))
      | inr e ↦
          rw (gather, e)
            (gather-take ram bufs
                (frame ++ prefix ram b small mapped.0 (min b.len (max_tx_frame - length frame)))
                small mapped.1
                (omega (
                  arith,
                  h,
                  length-append frame
                      (prefix ram b small mapped.0 (min b.len (max_tx_frame - length frame))),
                  read-length ram b.addr (min b.len (max_tx_frame - length frame)),
                ))
              ∙ prefix-take ram b small mapped.0 max_tx_frame frame (guest_bytes ram bufs) h)
    ]

module _ {B T : Type 0} (ops : NetBackend B) (lim : TokenBucket T) where
  charge_tx-keeps :
      (d : NetDevice B T) (n : ℕ)
      → ((charge_tx ops lim d n).backend ≡ d.backend)
        × ((charge_tx ops lim d n).pending_rx ≡ d.pending_rx)
  unfolding charge_tx
  charge_tx-keeps d n = elim (Option-cases d.tx_limit) [
    | inl e ↦ rw (charge_tx, e) (refl, refl)
    | inr (t, e) ↦ rw (charge_tx, e) (refl, refl)
  ]

  -- The device after a frame has been sent.
  abbrev sent : NetDevice B T → List ℕ → NetDevice B T
  sent d frame = record (charge_tx ops lim d (length frame - 12)) {
    backend = ops.send (charge_tx ops lim d (length frame - 12)).backend (drop 12 frame);
  }

  net_handle-sent :
      (d : NetDevice B T) (queue : ℕ) (ram : GuestRam) (bufs : List Buf)
      → queue ≡ 1
      → 12 < length (gather ram (readable bufs) [])
      → net_handle ops lim d queue ram bufs ≡ (sent d (gather ram (readable bufs) []), 0)
  unfolding net_handle
  net_handle-sent d queue ram bufs one more =
      let is_tx : (queue == 1) ≡ true = (==_iff queue 1).1 one in
      let is_long : ltb 12 (length (gather ram (readable bufs) [])) ≡ true = lt→ltb _ _ more in
      rw (is_tx, is_long) refl

  net_handle-idle :
      (d : NetDevice B T) (queue : ℕ) (ram : GuestRam) (bufs : List Buf)
      → (queue ≢ 1) ⊎ (length (gather ram (readable bufs) []) ≤ 12)
      → net_handle ops lim d queue ram bufs ≡ (d, 0)
  unfolding net_handle
  net_handle-idle d queue ram bufs h =
      elim (Bool-cases ((queue == 1) && ltb 12 (length (gather ram (readable bufs) [])))) [
        | inl e ↦ absurd (ground (arith, e, h))
        | inr e ↦ rw e refl
      ]

-- Over readable buffers that are in RAM as a whole, a notify of the transmit queue gives the backend one
-- frame, the first 64 KiB of the guest's bytes without the 12 of the header, if the guest's bytes are
-- more than a header, and does nothing otherwise. Whatever the limit, what is deferred for the guest
-- stays, and the used length is 0. A notify of another queue does nothing.
pub net_handle-guest_bytes :
    {B T : Type 0} (ops : NetBackend B) (lim : TokenBucket T) (d : NetDevice B T) (queue : ℕ)
    (ram : GuestRam) (bufs : List Buf)
    → ram.len < 2 ^ 64
    → All (IsMapped ram) (readable bufs)
    → (queue ≡ 1
        → 12 < sum_len (readable bufs)
        → ((net_handle ops lim d queue ram bufs).0.backend
            ≡ ops.send d.backend (drop 12 (take max_tx_frame (guest_bytes ram (readable bufs)))))
          × ((net_handle ops lim d queue ram bufs).0.pending_rx ≡ d.pending_rx)
          × ((net_handle ops lim d queue ram bufs).1 ≡ 0))
      × (sum_len (readable bufs) ≤ 12 → net_handle ops lim d queue ram bufs ≡ (d, 0))
      × (queue ≢ 1 → net_handle ops lim d queue ram bufs ≡ (d, 0))
net_handle-guest_bytes {B = B} ops lim d queue ram bufs small mapped =
    let long = gather-length ram (readable bufs) [] (omega arith) in
    let same = gather-take ram (readable bufs) [] small mapped (omega arith) in
    let cut = gather ram (readable bufs) [] in
    (
      λ one more.
          let e = net_handle-sent ops lim d queue ram bufs one (omega (arith, long, more)) in
          let kept = charge_tx-keeps ops lim d (length cut - 12) in
          rw e (
            ap (λ (b : B). ops.send b (drop 12 cut)) kept.0
                ∙ ap (λ (bs : List ℕ). ops.send d.backend (drop 12 bs)) same,
            kept.1,
            refl,
          ),
      λ less. net_handle-idle ops lim d queue ram bufs (inr (omega (arith, long, less))),
      λ other. net_handle-idle ops lim d queue ram bufs (inl other),
    )
