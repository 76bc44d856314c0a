-- ===== src/Board/Followed.antt =====
-- crates/amber-core/src/vm.rs: lines that follow their devices, and the device that an access reaches.
use amber.Prelude.{
  ℕ, suc, ◌+◌, ◌≤◌, ◌≡◌, sym, ◌∙◌, ◌≢◌, inl, inr, Bool, Option, some, List, [], ◌∷◌, arith,
  Bool-cases, Option-cases,
}
use amber.Memory.{GuestRam}
use amber.Pl011
use amber.Transport.{VirtioDevice, VirtioMmio}
use amber.Transport
use amber.Board.{VirtioDev, MmioAccess, Board, access_first, set_irq, contains}
use amber.Board.Windows.{IsPlaced, touched}

module _ {D : Type 0} (ops : VirtioDevice D) where
  -- The lines from index `k` on are the levels of the devices.
  abbrev pub IsFollowed : ℕ → List (VirtioDev D) → (ℕ → Bool) → Type 0
  IsFollowed k [] lines = Unit {0}
  IsFollowed k (d ∷ ds) lines =
      (lines (34 + k) ≡ Transport.irq_level ops d.mmio) × IsFollowed (suc k) ds lines

  pub record IsSynced (b : Board D) : Type 0 where
    pub wired : IsPlaced 0 b.virtio
    pub uart : b.lines 33 ≡ Pl011.irq_level b.pl011
    pub devices : IsFollowed 0 b.virtio b.lines

  -- Lines below the devices' own may change.
  pub IsFollowed-other :
      (k : ℕ) (ds : List (VirtioDev D)) (lines lines' : ℕ → Bool)
      → ((n : ℕ) → 34 + k ≤ n → lines' n ≡ lines n)
      → IsFollowed k ds lines
      → IsFollowed k ds lines'
  IsFollowed-other k [] lines lines' same f = tt
  IsFollowed-other k (d ∷ ds) lines lines' same (here, f) = (
    same (34 + k) (omega arith) ∙ here,
    IsFollowed-other (suc k) ds lines lines' (λ n le. same n (omega arith)) f,
  )

  pub set_irq_other :
      (lines : ℕ → Bool) (intid : ℕ) (level : Bool) (n : ℕ)
      → n ≢ intid
      → set_irq lines intid level n ≡ lines n
  set_irq_other lines intid level n ne = ground (arith, ne)

  pub set_irq_self :
      (lines : ℕ → Bool) (intid : ℕ) (level : Bool) → set_irq lines intid level intid ≡ level
  set_irq_self lines intid level = ground arith

  -- What an access that reaches a device leaves, at whichever index the device is.
  abbrev pub Followed : ℕ → (ℕ → Bool) → List (VirtioDev D) × VirtioDev D × Option ℕ → Type 0
  Followed k lines r =
      IsPlaced k r.0
      × (34 + k ≤ r.1.intid)
      × IsFollowed k r.0 (set_irq lines r.1.intid (Transport.irq_level ops r.1.mmio))

  pub access_first-IsFollowed :
      (k : ℕ) (ds : List (VirtioDev D)) (ram : GuestRam) (a : MmioAccess) (lines : ℕ → Bool)
      (r : List (VirtioDev D) × VirtioDev D × Option ℕ)
      → IsPlaced k ds
      → IsFollowed k ds lines
      → access_first ops ds ram a ≡ some r
      → Followed k lines r
  unfolding access_first
  access_first-IsFollowed k [] ram a lines r p f = λ e. absurd (cc e)
  access_first-IsFollowed k (d ∷ ds) ram a lines r (base, size, intid, p) (here, f) =
      elim (Bool-cases (contains d a.ipa)) [
        | inl c ↦
            rw (access_first, c)
              (λ e.
                let t = touched ops d ram a in
                let same : r ≡ (t.0 ∷ ds, t.0, t.1) = cc e in
                rw same (
                  (base, size, intid, p),
                  omega (arith, intid),
                  (
                    rw (sym intid) (set_irq_self lines d.intid (Transport.irq_level ops t.0.mmio)),
                    IsFollowed-other (suc k) ds lines _
                        (λ n le.
                          set_irq_other lines d.intid _ n
                            (λ e. absurd (omega (arith, le, intid, e))))
                        f,
                  ),
                ))
        | inr c ↦ elim (Option-cases (access_first ops ds ram a)) [
          | inl q ↦ rw (access_first, c, q) (λ e. absurd (cc e))
          | inr (r', q) ↦
              rw (access_first, c, q)
                (λ e.
                  let same : r ≡ (d ∷ r'.0, r'.1, r'.2) = cc e in
                  let (p', le, f') = access_first-IsFollowed (suc k) ds ram a lines r' p f q in
                  rw same (
                    (base, size, intid, p'),
                    omega (arith, le),
                    (
                      set_irq_other lines r'.1.intid _ (34 + k) (λ e. absurd (omega (arith, le, e)))
                          ∙ here,
                      f',
                    ),
                  ))
        ]
      ]
