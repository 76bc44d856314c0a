-- ===== src/Board/Delivery.antt =====
-- crates/amber-core/src/vm.rs: the lines after a delivery to the receive queues.
use amber.Prelude.{
  not, ◌&&◌, ℕ, suc, ◌+◌, ◌<◌, ◌≡◌, refl, sym, ap, ◌∙◌, ◌≢◌, inl, inr, Bool, true, false, some,
  List, [], ◌∷◌, arith, if◌then◌else◌, Bool-cases, Option-cases,
}
use amber.Memory.{GuestRam}
use amber.Transport.{VirtioDevice, VirtioMmio}
use amber.Transport
use amber.Board.{VirtioDev, ram_after, set_irq, pump_devices}
use amber.Board.Windows.{IsPlaced}
use amber.Board.Pumps.{IsQuiet, pump_rx-IsLevel, irq_level-same}
use amber.Board.Followed.{IsFollowed, IsFollowed-other, set_irq_other, set_irq_self}

module _ {D : Type 0} (ops : VirtioDevice D) where
  -- What a round of pumps leaves: the lines below index `k` are not touched.
  abbrev pub Pumped : ℕ → (ℕ → Bool) → List (VirtioDev D) × GuestRam × (ℕ → Bool) × Bool → Type 0
  Pumped k lines r =
      IsPlaced k r.0 × IsFollowed ops k r.0 r.2 × ((n : ℕ) → n < 34 + k → r.2 n ≡ lines n)

  -- The line of a device after its pump, and the other lines.
  pumped_line :
      IsQuiet ops
      → (fuel : ℕ) (m : VirtioMmio D) (ram : GuestRam) (r : Transport.Pumped ops) (lines : ℕ → Bool)
        (n : ℕ)
      → lines n ≡ Transport.irq_level ops m
      → Transport.pump_rx ops fuel (Transport.attach m ram) ≡ some r
      → (if r.1 then set_irq lines n (Transport.irq_level ops r.0) else lines) n
        ≡ Transport.irq_level ops r.0
  unfolding Transport.attach
  pumped_line quiet fuel m ram (m', true) lines n here e =
      set_irq_self ops lines n (Transport.irq_level ops m')
  pumped_line quiet fuel m ram (m', false) lines n here e =
      here
      ∙ sym (
          irq_level-same ops quiet m m'
            (pump_rx-IsLevel ops quiet fuel (Transport.attach m ram) m' e))

  unpumped_line :
      (moved level : Bool) (lines : ℕ → Bool) (n j : ℕ)
      → j ≢ n
      → (if moved then set_irq lines n level else lines) j ≡ lines j
  unpumped_line true level lines n j ne = set_irq_other ops lines n level j ne
  unpumped_line false level lines n j ne = refl

  pub pump_devices-IsFollowed :
      (quiet : IsQuiet ops) (fuel k : ℕ) (irq_ok : ℕ → Bool) (ds : List (VirtioDev D))
      (ram : GuestRam) (lines : ℕ → Bool) (r : List (VirtioDev D) × GuestRam × (ℕ → Bool) × Bool)
      → IsPlaced k ds
      → IsFollowed ops k ds lines
      → pump_devices ops fuel irq_ok ds ram lines ≡ some r
      → r.3 ≡ true
      → Pumped k lines r
  unfolding pump_devices
  pump_devices-IsFollowed quiet fuel k irq_ok [] ram lines r p f =
      λ e well. let same : r ≡ ([], ram, lines, true) = cc e in rw same (tt, tt, λ n lt. refl)
  pump_devices-IsFollowed quiet fuel k irq_ok (d ∷ ds) ram lines r (base, size, intid, p)
        (here, f) =
      elim (Option-cases (Transport.pump_rx ops fuel (Transport.attach d.mmio ram))) [
        | inl n ↦ rw (pump_devices, n) (λ e well. absurd (cc e))
        | inr (m, n) ↦
            let lines' =
              if m.1 then set_irq lines d.intid (Transport.irq_level ops m.0) else lines in
            elim (Bool-cases (m.1 && not (irq_ok d.intid))) [
              | inl bad ↦
                  rw (pump_devices, n, bad)
                    (λ e well.
                      let same : (record d { mmio = m.0 } ∷ ds, ram_after m.0.ram ram, lines, false)
                          ≡ r =
                        cc e in
                      absurd (ground (arith, ap (λ t. t.3) same, well)))
              | inr ok ↦
                  elim (Option-cases
                    (pump_devices ops fuel irq_ok ds (ram_after m.0.ram ram) lines')) [
                      | inl q ↦ rw (pump_devices, n, ok, q) (λ e well. absurd (cc e))
                      | inr (rest, q) ↦
                          rw (pump_devices, n, ok, q)
                            (λ e well.
                              let same : r
                                  ≡ (record d { mmio = m.0 } ∷ rest.0, rest.1, rest.2, rest.3) =
                                cc e in
                              let (p', f', low) =
                                pump_devices-IsFollowed quiet fuel (suc k) irq_ok ds
                                  (ram_after m.0.ram ram) lines' rest p
                                  (IsFollowed-other ops (suc k) ds lines lines'
                                    (λ j le.
                                      unpumped_line m.1 _ lines d.intid j
                                        (λ x. absurd (omega (arith, le, intid, x))))
                                    f)
                                  q (sym (ap (λ t. t.3) same) ∙ well) in
                              rw same (
                                (base, size, intid, p'),
                                (
                                  low (34 + k) (omega arith)
                                      ∙ rw (sym intid) (
                                          pumped_line quiet fuel d.mmio ram m lines d.intid
                                            (ap lines intid ∙ here) n),
                                  f',
                                ),
                                λ j lt.
                                    low j (omega (arith, lt))
                                    ∙ unpumped_line m.1 _ lines d.intid j
                                        (λ x. absurd (omega (arith, lt, intid, x))),
                              ))
                    ]
            ]
      ]
