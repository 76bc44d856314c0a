-- ===== src/Pl011/Receive.antt =====
-- crates/amber-core/src/bus.rs: the receive FIFO and its interrupt, and the saved registers.
use amber.Prelude.{
  bit_and-left_none, bit_and-right_none, ℕ, ◌%◌, ◌^◌, bit_and, ◌≡◌, refl, sym, ap, ◌∙◌, ◌⊎◌, inl,
  inr, false, not, ◌&&◌, List, [], ◌∷◌, ◌++◌, append-nil, append_assoc, arith, ◌==◌, if◌then◌else◌,
  Bool-cases, Option-cases, length, get_or, drop, length-append, not_u32,
}
use amber.Pl011.{
  Pl011, new, push_rx, read, read_dr, read_reg, write, write_dr, track, is_empty, find_id, id_words,
  int_rx_rt, regs, set_regs,
}
use amber.Pl011.Marker.{Access, reads, writes, receives, apply, run}

-- The bytes that the host pushes.
abbrev pub received : List Access → List ℕ
received [] = []
received (reads offset ∷ accesses) = received accesses
received (writes offset value ∷ accesses) = received accesses
received (receives byte ∷ accesses) = byte ∷ received accesses

-- The values that reads of DR give while the FIFO is not empty.
abbrev pub taken_by : Pl011 → Access → List ℕ
taken_by u (reads offset) =
    if offset == 0x000 && not (is_empty u.rx) then (read u offset).1 ∷ [] else []
taken_by u (writes offset value) = []
taken_by u (receives byte) = []

abbrev pub taken : Pl011 → List Access → List ℕ
taken u [] = []
taken u (a ∷ accesses) = taken_by u a ++ taken (apply u a) accesses

write-rx : (u : Pl011) (offset value : ℕ) → (write u offset value).rx ≡ u.rx
unfolding write write_dr track
write-rx u offset value = ground arith

-- A read pops the FIFO or leaves the UART alone.
read-dr :
    (u : Pl011) (offset : ℕ)
    → ((offset ≡ 0) × (read u offset ≡ read_dr u))
      ⊎ (((offset == 0) ≡ false) × ((read u offset).0 ≡ u))
unfolding read
read-dr u offset = elim (Bool-cases (offset == 0x000)) [
  | inl e ↦ let z : offset ≡ 0 = ground (arith, e) in inl (z, rw z refl)
  | inr e ↦ elim (Option-cases (find_id id_words offset)) [
    | inl n ↦ inr (e, ground (arith, e, n))
    | inr (v, n) ↦ inr (e, ground (arith, e, n))
  ]
]

fifo_read : (u : Pl011) (offset : ℕ) → u.rx ≡ taken_by u (reads offset) ++ (read u offset).0.rx
fifo_read u offset = elim (read-dr u offset) [
  | inl (z, e) ↦ rw (z, ap (read u) (sym z) ∙ e) (unfold read_dr in popped u.rx)
  | inr (z, e) ↦ rw (z, e) refl
]
  where
    popped :
        (rx : List ℕ) → rx ≡ (if not (is_empty rx) then get_or rx 0 0 ∷ [] else []) ++ drop 1 rx
    popped [] = refl
    popped (b ∷ bs) = refl

push_rx-rx : (u : Pl011) (byte : ℕ) → u.rx ++ (byte ∷ []) ≡ (push_rx u byte).rx
unfolding push_rx
push_rx-rx u byte = refl

fifo :
    (u : Pl011) (accesses : List Access)
    → u.rx ++ received accesses ≡ taken u accesses ++ (run u accesses).rx
fifo u [] = append-nil u.rx
fifo u (reads offset ∷ accesses) =
    ap (λ t. t ++ received accesses) (fifo_read u offset)
    ∙ append_assoc (taken_by u (reads offset)) (read u offset).0.rx (received accesses)
    ∙ ap (◌++◌ (taken_by u (reads offset))) (fifo (read u offset).0 accesses)
    ∙ sym (
        append_assoc (taken_by u (reads offset)) (taken (read u offset).0 accesses)
          (run (read u offset).0 accesses).rx)
fifo u (writes offset value ∷ accesses) =
    ap (λ t. t ++ received accesses) (sym (write-rx u offset value))
    ∙ fifo (write u offset value) accesses
fifo u (receives byte ∷ accesses) =
    sym (append_assoc u.rx (byte ∷ []) (received accesses))
    ∙ ap (λ rx. rx ++ received accesses) (push_rx-rx u byte)
    ∙ fifo (push_rx u byte) accesses

-- With the FIFO empty neither receive interrupt is raised.
abbrev pub IsQuiet : Pl011 → Type 0
IsQuiet u = u.rx ≡ [] → bit_and u.ris int_rx_rt ≡ 0

read-IsQuiet : (u : Pl011) (offset : ℕ) → IsQuiet u → IsQuiet (read u offset).0
read-IsQuiet u offset h = elim (read-dr u offset) [
  | inl (z, e) ↦ rw e emptied
  | inr (z, e) ↦ rw e h
]
  where
    emptied : IsQuiet (read_dr u).0
    emptied z =
        unfold read_dr in rw (z) (bit_and-right_none u.ris (not_u32 int_rx_rt) int_rx_rt refl)

write-IsQuiet : (u : Pl011) (offset value : ℕ) → IsQuiet u → IsQuiet (write u offset value)
write-IsQuiet u offset value h z =
    let before = h (sym (write-rx u offset value) ∙ z) in
    elim (ris_left u offset value) [
      | inl e ↦ rw e before
      | inr (m, e) ↦ rw e (bit_and-left_none u.ris m int_rx_rt before)
    ]
  where
    ris_left :
        (u : Pl011) (offset value : ℕ)
        → ((write u offset value).ris ≡ u.ris)
          ⊎ ((m : ℕ) × ((write u offset value).ris ≡ bit_and u.ris m))
    ris_left u offset value =
        unfold write write_dr track in
        elim (Bool-cases (offset == 0x044)) [
          | inl e ↦ inr (not_u32 (value % 2 ^ 32), ground (arith, e))
          | inr e ↦ inl (ground (arith, e))
        ]

push_rx-IsQuiet : (u : Pl011) (byte : ℕ) → IsQuiet (push_rx u byte)
unfolding push_rx
push_rx-IsQuiet u byte z = absurd (omega (arith, ap length z, length-append u.rx (byte ∷ [])))

run-IsQuiet : (u : Pl011) (accesses : List Access) → IsQuiet u → IsQuiet (run u accesses)
run-IsQuiet u [] h = h
run-IsQuiet u (reads offset ∷ accesses) h =
    run-IsQuiet (read u offset).0 accesses (read-IsQuiet u offset h)
run-IsQuiet u (writes offset value ∷ accesses) h =
    run-IsQuiet (write u offset value) accesses (write-IsQuiet u offset value h)
run-IsQuiet u (receives byte ∷ accesses) h =
    run-IsQuiet (push_rx u byte) accesses (push_rx-IsQuiet u byte)

-- Over any sequence of accesses from a fresh UART, the bytes that the guest reads are those that the
-- host pushed, in order, the rest being in the FIFO; and with the FIFO empty neither the receive nor
-- the timeout interrupt is raised.
pub run-received :
    (accesses : List Access)
    → (received accesses ≡ taken new accesses ++ (run new accesses).rx)
      × ((run new accesses).rx ≡ [] → bit_and (run new accesses).ris int_rx_rt ≡ 0)
run-received accesses = (fifo new accesses, run-IsQuiet new accesses (λ e. refl))

-- Registers saved from one UART and set on another read there, at every offset of a configuration
-- register, as they did; the FIFO, the interrupt state and the output of the other are kept.
pub set_regs-regs :
    (u v : Pl011) (offset : ℕ)
    → (offset ≡ 0x024)
      ⊎ (offset ≡ 0x028)
      ⊎ (offset ≡ 0x02c)
      ⊎ (offset ≡ 0x030)
      ⊎ (offset ≡ 0x034)
      ⊎ (offset ≡ 0x038)
    → ((read (set_regs v (regs u)) offset).1 ≡ (read u offset).1)
      × (regs (set_regs v (regs u)) ≡ regs u)
      × ((set_regs v (regs u)).rx ≡ v.rx)
      × ((set_regs v (regs u)).ris ≡ v.ris)
      × ((set_regs v (regs u)).out ≡ v.out)
unfolding set_regs regs read read_reg
set_regs-regs u v offset h = elim h [
  | inl e ↦ rw e (refl, refl, refl, refl, refl)
  | inr (inl e) ↦ rw e (refl, refl, refl, refl, refl)
  | inr (inr (inl e)) ↦ rw e (refl, refl, refl, refl, refl)
  | inr (inr (inr (inl e))) ↦ rw e (refl, refl, refl, refl, refl)
  | inr (inr (inr (inr (inl e)))) ↦ rw e (refl, refl, refl, refl, refl)
  | inr (inr (inr (inr (inr e)))) ↦ rw e (refl, refl, refl, refl, refl)
]
