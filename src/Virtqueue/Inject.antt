-- ===== src/Virtqueue/Inject.antt =====
-- `inject_one` and `next_rx_capacity`: what reaches the guest of one host payload.
use amber.Prelude.{
  subst, ◌-◌, length-take, length-drop, drop-drop, take-add, take_all, drop_all, append-nil, ap,
  sym, inr, ◌++◌, ℕ, zero, suc, ◌+◌, ◌%◌, ◌^◌, ◌≤◌, ◌<◌, min, ◌≡◌, refl, ◌∙◌, ◌⊎◌, inl, Bool, true,
  false, none, some, List, [], ◌∷◌, arith, leb, Bool-cases, length, take, drop, All, IsByte,
  wrapping_add,
}
use amber.Memory.{GuestRam, write}
use amber.Memory.Access.{IsRam, write_shape, write-IsRam}
use amber.Virtqueue.Used.{push_used-IsRam, push_used_shape}
use amber.Virtqueue.{
  Buf, Queue, collect_chain, sum_len, writable_bufs, inject_loop, inject_one, next_rx_capacity,
  nothing_posted, next_head, push_used,
}

take-IsByte : (n : ℕ) (xs : List ℕ) → All IsByte xs → All IsByte (take n xs)
take-IsByte zero xs h = tt
take-IsByte (suc n) [] h = tt
take-IsByte (suc n) (x ∷ xs) h = (h.0, take-IsByte n xs h.1)

drop-IsByte : (n : ℕ) (xs : List ℕ) → All IsByte xs → All IsByte (drop n xs)
drop-IsByte zero xs h = h
drop-IsByte (suc n) [] h = tt
drop-IsByte (suc n) (x ∷ xs) h = drop-IsByte n xs h.1

inject_loop-IsRam :
    (ram : GuestRam) (bufs : List Buf) (payload : List ℕ) (off : ℕ)
    → IsRam ram
    → All IsByte payload
    → IsRam (inject_loop ram bufs payload off).0
unfolding inject_loop
inject_loop-IsRam ram [] payload off w b = w
inject_loop-IsRam ram (x ∷ bufs) payload off w b =
    let n = min x.len (length payload - off) in
    let chunk = take n (drop off payload) in
    let ih =
      inject_loop-IsRam (write ram x.addr chunk).0 bufs payload (off + n)
        (write-IsRam ram x.addr chunk w (take-IsByte n _ (drop-IsByte off payload b))) b in
    elim (Bool-cases (leb (length payload) off)) [ inl e ↦ rw e w | inr e ↦ rw e ih ]

inject_loop_shape :
    (ram : GuestRam) (bufs : List Buf) (payload : List ℕ) (off : ℕ)
    → ((inject_loop ram bufs payload off).0.len ≡ ram.len)
      × ((inject_loop ram bufs payload off).0.base ≡ ram.base)
unfolding inject_loop
inject_loop_shape ram [] payload off = (refl, refl)
inject_loop_shape ram (x ∷ bufs) payload off =
    let n = min x.len (length payload - off) in
    let chunk = take n (drop off payload) in
    ground (
      arith,
      write_shape ram x.addr chunk,
      inject_loop_shape (write ram x.addr chunk).0 bufs payload (off + n),
    )

-- The bytes copied: what the buffers hold, and never more than the payload.
inject_loop_count :
    (ram : GuestRam) (bufs : List Buf) (payload : List ℕ) (off : ℕ)
    → off ≤ length payload
    → (inject_loop ram bufs payload off).1 ≡ min (length payload) (off + sum_len bufs)
unfolding inject_loop
inject_loop_count ram [] payload off h = omega arith
inject_loop_count ram (x ∷ bufs) payload off h =
    let n = min x.len (length payload - off) in
    ground (
      arith,
      inject_loop_count (write ram x.addr (take n (drop off payload))).0 bufs payload (off + n),
    )

inject_loop_total :
    (ram : GuestRam) (bufs : List Buf) (payload : List ℕ)
    → (inject_loop ram bufs payload 0).1 ≡ min (length payload) (sum_len bufs)
inject_loop_total ram bufs payload =
    omega (arith, inject_loop_count ram bufs payload 0 (omega arith))

pub inject_one-IsRam :
    (ram : GuestRam) (q : Queue) (payload : List ℕ)
    → IsRam ram
    → All IsByte payload
    → IsRam (inject_one ram q payload).0
unfolding inject_one
inject_one-IsRam ram q payload w b = elim (Bool-cases (nothing_posted ram q)) [
  | inl e ↦ rw e w
  | inr e ↦ rw e (push_used-IsRam _ q.used _ _ _ (inject_loop-IsRam ram _ payload 0 w b))
]

pub inject_one_shape :
    (ram : GuestRam) (q : Queue) (payload : List ℕ)
    → ((inject_one ram q payload).0.len ≡ ram.len) × ((inject_one ram q payload).0.base ≡ ram.base)
unfolding inject_one
inject_one_shape ram q payload =
    let qsz = q.num % 2 ^ 16 in
    let bufs = writable_bufs (collect_chain ram q.desc (next_head ram q) qsz) in
    let r = inject_loop ram bufs payload 0 in
    ground (
      arith,
      inject_loop_shape ram bufs payload 0,
      push_used_shape r.0 q.used (next_head ram q) (r.1 % 2 ^ 32) qsz,
    )

-- Bytes put into buffers in their order: each buffer is filled from its start before the next is used, and what
-- is left of the last stays as it was.
pub data Filled : GuestRam → List Buf → List ℕ → GuestRam → Type 0 where
  filled : (ram : GuestRam) (bufs : List Buf) → Filled ram bufs [] ram
  fill :
      (ram ram' : GuestRam) (b : Buf) (bufs : List Buf) (bytes chunk rest : List ℕ)
      → bytes ≡ chunk ++ rest
      → length chunk ≤ b.len
      → (rest ≡ []) ⊎ (length chunk ≡ b.len)
      → Filled (write ram b.addr chunk).0 bufs rest ram'
      → Filled ram (b ∷ bufs) bytes ram'

-- The first round of a fill, whatever the buffer's length.
take_nil : (n : ℕ) → ◌≡◌ {A = List ℕ} (take n []) []
take_nil zero = refl
take_nil (suc n) = refl

split_first :
    (n k m : ℕ) (xs : List ℕ)
    → length xs ≡ m
    → (take (n + k) xs ≡ take (min n m) xs ++ take k (drop (min n m) xs))
      × ((take k (drop (min n m) xs) ≡ []) ⊎ (length (take (min n m) xs) ≡ n))
split_first n k m xs size = elim (Bool-cases (leb n m)) [
  | inl e ↦
      let all : min n m ≡ n = ground arith in
      rw all (sym (take-add n k xs), inr (length-take n xs ∙ rw size all))
  | inr e ↦
      let all : min n m ≡ m = ground arith in
      let short : length xs ≤ n + k = ground (arith, size) in
      let empty : take k (drop m xs) ≡ [] =
        ap (λ (ys : List ℕ). take k ys) (drop_all m xs (omega (arith, size))) ∙ take_nil k in
      rw all (
        take_all (n + k) xs short
            ∙ sym (
                ap (λ (ys : List ℕ). take m xs ++ ys) empty
                ∙ append-nil (take m xs)
                ∙ take_all m xs (omega (arith, size))),
        inl empty,
      )
]

inject_loop-Filled :
    (ram : GuestRam) (bufs : List Buf) (payload : List ℕ) (off : ℕ)
    → Filled ram bufs (take (sum_len bufs) (drop off payload)) (inject_loop ram bufs payload off).0
unfolding inject_loop
inject_loop-Filled ram [] payload off = filled ram []
inject_loop-Filled ram (x ∷ bufs) payload off =
    let n = min x.len (length payload - off) in
    let left = drop off payload in
    let (split, full) =
      split_first x.len (sum_len bufs) (length payload - off) left (length-drop off payload) in
    let ih = inject_loop-Filled (write ram x.addr (take n left)).0 bufs payload (off + n) in
    elim (Bool-cases (leb (length payload) off)) [
      | inl e ↦
          let past : length payload ≤ off = ground arith in
          rw (e, drop_all off payload past, take_nil (x.len + sum_len bufs)) (filled ram (x ∷ bufs))
      | inr e ↦ rw e (
          fill ram _ x bufs _ (take n left) (take (sum_len bufs) (drop n left)) split
            (omega (arith, length-take n left)) full (rw (drop-drop off n payload) ih))
    ]

-- The buffers that a payload goes to: the writable ones of the next posted chain.
abbrev pub next_bufs : GuestRam → Queue → List Buf
next_bufs ram q = writable_bufs (collect_chain ram q.desc (next_head ram q) (q.num % 2 ^ 16))

-- Nothing is delivered exactly when the guest has posted nothing; then RAM and the queue stay as they were. Otherwise one
-- posted chain is used up: its buffers get the payload, or as much as the capacity reported for the
-- chain, and the used ring gets an element with its head and the bytes copied.
pub inject_one_cases :
    (ram : GuestRam) (q : Queue) (payload : List ℕ)
    → ((next_rx_capacity ram q ≡ none) × (inject_one ram q payload ≡ (ram, q, false)))
      ⊎ ((cap : ℕ) × (ram' : GuestRam) × (next_rx_capacity ram q ≡ some cap)
          × Filled ram (next_bufs ram q) (take cap payload) ram'
          × (inject_one ram q payload ≡ (
            push_used ram' q.used
                (next_head ram q)
                (min (length payload) cap % 2 ^ 32)
                (q.num % 2 ^ 16),
            record q { last_avail = wrapping_add 16 q.last_avail 1 },
            true,
          )))
unfolding inject_one next_rx_capacity
inject_one_cases ram q payload = elim (Bool-cases (nothing_posted ram q)) [
  | inl e ↦ inl (rw e refl, rw e refl)
  | inr e ↦
      let bufs = next_bufs ram q in
      inr (
        sum_len bufs,
        (inject_loop ram bufs payload 0).0,
        rw e refl,
        inject_loop-Filled ram bufs payload 0,
        rw (e, inject_loop_total ram bufs payload) refl,
      )
]

-- A payload that fits the capacity reported for the next posted chain is delivered whole: all its bytes are
-- put into the chain's writable buffers, in order, each filled before the next, and then the used ring
-- gets the chain's head with the payload's length and the chain counts as consumed.
pub inject_one_fits :
    (ram : GuestRam) (q : Queue) (payload : List ℕ) (cap : ℕ)
    → next_rx_capacity ram q ≡ some cap
    → length payload ≤ cap
    → length payload < 2 ^ 32
    → (ram' : GuestRam) × Filled ram (next_bufs ram q) payload ram'
      × (inject_one ram q payload ≡ (
        push_used ram' q.used (next_head ram q) (length payload) (q.num % 2 ^ 16),
        record q { last_avail = wrapping_add 16 q.last_avail 1 },
        true,
      ))
inject_one_fits ram q payload cap e h b = elim (inject_one_cases ram q payload) [
  | inl (n, _) ↦ cc
  | inr (c, ram', p, f, r) ↦
      let same : c ≡ cap = ground arith in
      (
        ram',
        subst (λ (xs : List ℕ). Filled ram (next_bufs ram q) xs ram')
            (take_all c payload (omega (arith, same, h))) f,
        r ∙ whole c ram' same,
      )
]
  where
    whole :
        (c : ℕ) (ram' : GuestRam)
        → c ≡ cap
        → ◌≡◌ {A = GuestRam × Queue × Bool}
            (
              push_used ram' q.used
                  (next_head ram q)
                  (min (length payload) c % 2 ^ 32)
                  (q.num % 2 ^ 16),
              record q { last_avail = wrapping_add 16 q.last_avail 1 },
              true,
            )
            (
              push_used ram' q.used (next_head ram q) (length payload) (q.num % 2 ^ 16),
              record q { last_avail = wrapping_add 16 q.last_avail 1 },
              true,
            )
    whole c ram' p =
        let m : min (length payload) c % 2 ^ 32 ≡ length payload = omega arith in rw m refl
