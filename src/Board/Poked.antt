-- ===== src/Board/Poked.antt =====
-- crates/amber-core/src/vm.rs: the lines after a store through the balloon's handle.
use amber.Prelude.{
  zero, get_elem?, ℕ, suc, ◌+◌, ◌≡◌, sym, ap, ◌∙◌, Bool, true, some, List, [], ◌∷◌, arith,
}
use amber.Transport.{VirtioDevice, VirtioMmio}
use amber.Transport
use amber.Board.{poke, VirtioDev, set_irq}
use amber.Board.Windows.{IsPlaced}
use amber.Board.Followed.{IsFollowed, IsFollowed-other, set_irq_other, set_irq_self}

module _ {D : Type 0} (ops : VirtioDevice D) where
  -- A store through a handle that leaves its device with a configuration change, and the line raised.
  pub poke-IsPlaced :
      (k index : ℕ) (ds : List (VirtioDev D)) (store : D → D)
      → IsPlaced k ds
      → IsPlaced k (poke store index ds)
  poke-IsPlaced k index [] store p = tt
  poke-IsPlaced k zero (d ∷ ds) store p = p
  poke-IsPlaced k (suc index) (d ∷ ds) store (base, size, intid, p) =
      (base, size, intid, poke-IsPlaced (suc k) index ds store p)

  changed_level :
      (m : VirtioMmio D) → ops.config_changed m.dev ≡ true → Transport.irq_level ops m ≡ true
  unfolding Transport.irq_level
  changed_level m h = ground (arith, h)

  pub poke-IsFollowed :
      (k index : ℕ) (ds : List (VirtioDev D)) (d : VirtioDev D) (store : D → D) (lines : ℕ → Bool)
      → get_elem? ds index ≡ some d
      → ops.config_changed (store d.mmio.dev) ≡ true
      → IsPlaced k ds
      → IsFollowed ops k ds lines
      → (d.intid ≡ 34 + (k + index))
        × IsFollowed ops k (poke store index ds) (set_irq lines (34 + (k + index)) true)
  poke-IsFollowed k index [] d store lines e h p f = absurd (cc e)
  poke-IsFollowed k zero (d' ∷ ds) d store lines e h (base, size, intid, p) (here, f) =
      let same : d' ≡ d = cc e in
      let at : 34 + (k + 0) ≡ 34 + k = omega arith in
      rw at (
        ap (λ (x : VirtioDev D). x.intid) (sym same) ∙ intid,
        (
          set_irq_self ops lines (34 + k) true
              ∙ sym (changed_level (record d'.mmio { dev = store d'.mmio.dev }) (rw same h)),
          IsFollowed-other ops (suc k) ds lines _
              (λ n le. set_irq_other ops lines (34 + k) true n (λ x. absurd (omega (arith, le, x))))
              f,
        ),
      )
  poke-IsFollowed k (suc index) (d' ∷ ds) d store lines e h (base, size, intid, p) (here, f) =
      let at : 34 + (k + suc index) ≡ 34 + (suc k + index) = omega arith in
      let (line, rest) = poke-IsFollowed (suc k) index ds d store lines e h p f in
      rw at (
        line,
        (
          set_irq_other ops lines (34 + (suc k + index)) true (34 + k)
                (λ x. absurd (omega (arith, x)))
              ∙ here,
          rest,
        ),
      )
