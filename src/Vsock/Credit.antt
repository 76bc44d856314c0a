-- ===== src/Vsock/Credit.antt =====
-- crates/amber-core/src/vsock.rs: the reads of `pump`: what they take, within which credit.
use amber.Prelude.{
  ℕ, zero, suc, ◌+◌, ◌-◌, ◌%◌, ◌^◌, ◌≤◌, ◌<◌, min, ◌≡◌, refl, ap, ◌⊎◌, inl, inr, true, List, [],
  ◌∷◌, arith, ◌==◌, Bool-cases, length, All, wrapping_add, wrapping_sub,
}
use amber.Vsock.{Conn, guest_window}
use amber.Vsock.Sockets.{Host, ReadResult, got, read_blocked, read_failed, IsDocumented}
use amber.Vsock.Pump.{read_loop}

-- The counters are u32 values.
pub record IsCounted {S : Type 0} (c : Conn S) : Type 0 where
  pub window : c.peer_buf_alloc < 2 ^ 32
  pub peer : c.peer_fwd_cnt < 2 ^ 32
  pub sent : c.tx_cnt < 2 ^ 32
  pub drained : c.fwd_cnt < 2 ^ 32

abbrev pub total : List (List ℕ) → ℕ
total [] = 0
total (p ∷ ps) = length p + total ps

window_step :
    (ba tx fwd n : ℕ)
    → ba < 2 ^ 32
    → tx < 2 ^ 32
    → fwd < 2 ^ 32
    → n ≤ ba - wrapping_sub 32 tx fwd
    → n + (ba - wrapping_sub 32 (wrapping_add 32 tx (n % 2 ^ 32)) fwd) ≡ ba - wrapping_sub 32 tx fwd
window_step ba tx fwd n hb ht hf h = omega arith

pub ReadResult-cases :
    (r : ReadResult)
    → (r ≡ got [])
      ⊎ ((b : ℕ) × (bs : List ℕ) × (r ≡ got (b ∷ bs)))
      ⊎ (r ≡ read_blocked)
      ⊎ (r ≡ read_failed)
ReadResult-cases (got []) = inl refl
ReadResult-cases (got (b ∷ bs)) = inr (inl (b, bs, refl))
ReadResult-cases read_blocked = inr (inr (inl refl))
ReadResult-cases read_failed = inr (inr (inr refl))

module _ {W S : Type 0} (host : Host W S) (doc : IsDocumented host) (m : ℕ) where
  -- What the reads of one turn leave.
  abbrev pub Fed : Conn S → W × Conn S × List (List ℕ) → Type 0
  Fed c r =
      (total r.2 + guest_window r.1 ≡ guest_window c)
      × All (λ p. (1 ≤ length p) × (length p ≤ m)) r.2
      × (r.1.to_host ≡ c.to_host)
      × (r.1.fwd_cnt ≡ c.fwd_cnt)

  -- The connection after `n` bytes more for the guest.
  abbrev pub fed : Conn S → ℕ → Conn S
  fed c n = record c { tx_cnt = wrapping_add 32 c.tx_cnt (n % 2 ^ 32) }

  fed-IsCounted : (c : Conn S) (n : ℕ) → IsCounted c → IsCounted (fed c n)
  fed-IsCounted c n k = record {
    window = k.window;
    peer = k.peer;
    sent = omega arith;
    drained = k.drained;
  }

  fed-window :
      (c : Conn S) (n : ℕ)
      → IsCounted c
      → n ≤ guest_window c
      → n + guest_window (fed c n) ≡ guest_window c
  unfolding guest_window
  fed-window c n k h =
      window_step c.peer_buf_alloc c.tx_cnt c.peer_fwd_cnt n k.window k.sent k.peer h

  Fed-more :
      (c : Conn S) (p : List ℕ) (r : W × Conn S × List (List ℕ))
      → IsCounted c
      → 1 ≤ length p
      → length p ≤ min (guest_window c) m
      → Fed (fed c (length p)) r
      → Fed c (r.0, r.1, p ∷ r.2)
  Fed-more c p r k one lt (eq, all, th, fc) = (
    omega (arith, eq, fed-window c (length p) k (omega arith)),
    ((one, omega arith), all),
    th,
    fc,
  )

  -- The reads of one turn, on any fuel and whatever the socket answers: the payloads are not empty
  -- and fit the guest's buffer, and together they take exactly their bytes from the guest's credit,
  -- so that they never exceed it; the bytes buffered for the host are kept.
  pub read_loop-Fed :
      (fuel : ℕ) (w : W) (c : Conn S) → IsCounted c → Fed c (read_loop host fuel m w c)
  unfolding read_loop
  read_loop-Fed zero w c k = (omega arith, tt, refl, refl)
  read_loop-Fed (suc fuel) w c k =
      let room = min (guest_window c) m in
      elim (Bool-cases (room == 0)) [
        | inl e ↦ rw e (omega arith, tt, refl, refl)
        | inr e ↦ elim (ReadResult-cases (host.read w c.stream room).1) [
          | inl a ↦ rw (e, a) (unfold guest_window in (omega arith, tt, refl, refl))
          | inr (inl (b, bs, a)) ↦
              let given = doc.read_gives w c.stream room (b ∷ bs) a in
              rw (e, a)
                (Fed-more c (b ∷ bs)
                  (read_loop host fuel m (host.read w c.stream room).0 (fed c (length (b ∷ bs)))) k
                  (omega arith) given
                  (read_loop-Fed fuel (host.read w c.stream room).0 (fed c (length (b ∷ bs)))
                    (fed-IsCounted c (length (b ∷ bs)) k)))
          | inr (inr (inl a)) ↦ rw (e, a) (omega arith, tt, refl, refl)
          | inr (inr (inr a)) ↦ rw (e, a) (unfold guest_window in (omega arith, tt, refl, refl))
        ]
      ]

  -- Fuel of the guest's window is enough for the reads: any two such fuels give the same.
  pub read_loop-enough :
      (fuel fuel' : ℕ) (w : W) (c : Conn S)
      → IsCounted c
      → guest_window c ≤ fuel
      → guest_window c ≤ fuel'
      → read_loop host fuel m w c ≡ read_loop host fuel' m w c
  unfolding read_loop
  read_loop-enough zero zero w c k h h' = refl
  read_loop-enough zero (suc fuel') w c k h h' =
      let none_left : (min (guest_window c) m == 0) ≡ true = ground arith in rw none_left refl
  read_loop-enough (suc fuel) zero w c k h h' =
      let none_left : (min (guest_window c) m == 0) ≡ true = ground arith in rw none_left refl
  read_loop-enough (suc fuel) (suc fuel') w c k h h' =
      let room = min (guest_window c) m in
      elim (Bool-cases (room == 0)) [
        | inl e ↦ rw e refl
        | inr e ↦ elim (ReadResult-cases (host.read w c.stream room).1) [
          | inl a ↦ rw (e, a) refl
          | inr (inl (b, bs, a)) ↦
              let given = doc.read_gives w c.stream room (b ∷ bs) a in
              let size = fed-window c (length (b ∷ bs)) k (omega (arith, given)) in
              let ih =
                read_loop-enough fuel fuel' (host.read w c.stream room).0 (fed c (length (b ∷ bs)))
                  (fed-IsCounted c (length (b ∷ bs)) k) (omega (arith, size, h))
                  (omega (arith, size, h')) in
              rw (e, a) (ap (λ (r : W × Conn S × List (List ℕ)). (r.0, r.1, (b ∷ bs) ∷ r.2)) ih)
          | inr (inr (inl a)) ↦ rw (e, a) refl
          | inr (inr (inr a)) ↦ rw (e, a) refl
        ]
      ]
