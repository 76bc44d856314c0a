-- ===== src/Transport/Registers.antt =====
-- The queue registers: what a driver's writes program, and a reset.
use amber.Prelude.{
  bit_and_high, bit_and_mask, bit_or_fields, bit_or_comm, get_elem?-set-some, set-set, ℕ, zero, suc,
  ◌+◌, ◌*◌, ◌/◌, ◌%◌, ◌^◌, ◌<◌, bit_and, bit_or, ◌≡◌, refl, sym, ap, ◌∙◌, some, List, [], ◌∷◌, map,
  arith, length, get_elem?, set,
}
use amber.Virtqueue.{Queue, default_queue}
use amber.Transport.{VirtioDevice, VirtioMmio, set_low, set_high, with_queue, write, reset}

pub set_low_lem : (a v : ℕ) → a < 2 ^ 64 → v < 2 ^ 32 → set_low a v ≡ a / 2 ^ 32 * 2 ^ 32 + v
unfolding set_low
set_low_lem a v ha hv =
    let split : a / 2 ^ 32 * 2 ^ 32 + a % 2 ^ 32 ≡ a = omega arith in
    let high = bit_and_high 32 (a / 2 ^ 32) (a % 2 ^ 32) 0xffff_ffff (omega arith) in
    let mask = bit_and_mask 32 (a / 2 ^ 32) in
    let joined = bit_or_fields 32 (a / 2 ^ 32) v hv in
    ap (λ (x : ℕ). bit_or (bit_and x 0xffff_ffff_0000_0000) v) (sym split)
    ∙ ap (λ (x : ℕ). bit_or x v) (high ∙ omega (arith, mask))
    ∙ joined

pub set_high_lem : (a v : ℕ) → v < 2 ^ 32 → set_high a v ≡ v * 2 ^ 32 + a % 2 ^ 32
unfolding set_high
set_high_lem a v hv =
    ap (λ (x : ℕ). bit_or x (v * 2 ^ 32)) (bit_and_mask 32 a)
    ∙ bit_or_comm (a % 2 ^ 32) (v * 2 ^ 32)
    ∙ bit_or_fields 32 v (a % 2 ^ 32) (omega arith)

words :
    (a lo hi : ℕ)
    → a < 2 ^ 64
    → lo < 2 ^ 32
    → hi < 2 ^ 32
    → set_high (set_low a (lo % 2 ^ 32)) (hi % 2 ^ 32) ≡ hi * 2 ^ 32 + lo
words a lo hi ha hl hh =
    let l = set_low_lem a (lo % 2 ^ 32) ha (omega arith) in
    let h = set_high_lem (set_low a (lo % 2 ^ 32)) (hi % 2 ^ 32) (omega arith) in omega arith

get_map :
    (qs : List Queue) (i : ℕ) (q : Queue)
    → get_elem? qs i ≡ some q
    → get_elem? (map (λ q. default_queue) qs) i ≡ some default_queue
get_map [] i q e = cc
get_map (x ∷ qs) zero q e = refl
get_map (x ∷ qs) (suc i) q e = get_map qs i q e

length-map : (qs : List Queue) → length (map (λ q. default_queue) qs) ≡ length qs
length-map [] = refl
length-map (x ∷ qs) = ap suc (length-map qs)

module _ {D : Type 0} where
  with_queue_lem :
      (m : VirtioMmio D) (sel : ℕ) (f : Queue → Queue) (q : Queue)
      → get_elem? m.queues sel ≡ some q
      → with_queue m sel f ≡ record m { queues = set m.queues sel (f q) }
  unfolding with_queue
  with_queue_lem m sel f q e = rw (e, with_queue) refl

  twice :
      (m : VirtioMmio D) (q : Queue)
      → get_elem? m.queues m.queue_sel ≡ some q
      → (f g : Queue → Queue)
      → with_queue (with_queue m m.queue_sel f) (with_queue m m.queue_sel f).queue_sel g
        ≡ record m { queues = set m.queues m.queue_sel (g (f q)) }
  twice m q e f g = rw (with_queue_lem m m.queue_sel f q e) (
      with_queue_lem (record m { queues = set m.queues m.queue_sel (f q) }) m.queue_sel g (f q)
        (get_elem?-set-some m.queues m.queue_sel (f q) e)
      ∙ ap (λ (qs : List Queue). record m { queues = qs })
          (set-set m.queues m.queue_sel (f q) (g (f q))))

module _ {D : Type 0} (ops : VirtioDevice D) where
  -- The low word and then the high word of a ring's address, as a driver writes them, program the
  -- selected queue with the 64-bit address that they make up; the other fields and queues stay.
  -- This holds for the descriptor table, the available ring and the used ring.
  pub write_addresses :
      (m : VirtioMmio D) (q : Queue) (lo hi : ℕ)
      → get_elem? m.queues m.queue_sel ≡ some q
      → q.desc < 2 ^ 64
      → q.avail < 2 ^ 64
      → q.used < 2 ^ 64
      → lo < 2 ^ 32
      → hi < 2 ^ 32
      → let addr = hi * 2 ^ 32 + lo in
        let put = λ (q' : Queue). record m { queues = set m.queues m.queue_sel q' } in
        (write ops (write ops m 0x080 lo) 0x084 hi ≡ put (record q { desc = addr }))
        × (write ops (write ops m 0x090 lo) 0x094 hi ≡ put (record q { avail = addr }))
        × (write ops (write ops m 0x0a0 lo) 0x0a4 hi ≡ put (record q { used = addr }))
  unfolding write
  write_addresses m q lo hi e hd ha hu hl hh = (
    twice m q e (λ q. record q { desc = set_low q.desc (lo % 2 ^ 32) })
          (λ q. record q { desc = set_high q.desc (hi % 2 ^ 32) })
        ∙ ap (λ (x : ℕ). record m { queues = set m.queues m.queue_sel (record q { desc = x }) })
            (words q.desc lo hi hd hl hh),
    twice m q e (λ q. record q { avail = set_low q.avail (lo % 2 ^ 32) })
          (λ q. record q { avail = set_high q.avail (hi % 2 ^ 32) })
        ∙ ap (λ (x : ℕ). record m { queues = set m.queues m.queue_sel (record q { avail = x }) })
            (words q.avail lo hi ha hl hh),
    twice m q e (λ q. record q { used = set_low q.used (lo % 2 ^ 32) })
          (λ q. record q { used = set_high q.used (hi % 2 ^ 32) })
        ∙ ap (λ (x : ℕ). record m { queues = set m.queues m.queue_sel (record q { used = x }) })
            (words q.used lo hi hu hl hh),
  )

  -- Writing 0 to the status register resets the device: no interrupt is pending, every queue is back
  -- to its initial state, and their number is unchanged.
  pub write_reset :
      (m : VirtioMmio D) (i : ℕ) (q : Queue)
      → get_elem? m.queues i ≡ some q
      → let m' = write ops m 0x070 0 in
        (m'.status ≡ 0)
        × (m'.interrupt_status ≡ 0)
        × (get_elem? m'.queues i ≡ some default_queue)
        × (length m'.queues ≡ length m.queues)
  unfolding write reset
  write_reset m i q e = (refl, refl, get_map m.queues i q e, length-map m.queues)
