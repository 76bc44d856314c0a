-- ===== src/Board/Windows.antt =====
-- crates/amber-core/src/vm.rs: which device an address reaches.
use amber.Prelude.{
  ℕ, zero, suc, ◌+◌, ◌-◌, ◌*◌, ◌≤◌, ◌<◌, ◌≡◌, refl, sym, ap, ◌∙◌, ◌≢◌, ◌⊎◌, inl, inr, Bool, true,
  false, not, ◌&&◌, Option, none, some, List, [], ◌∷◌, arith, ltb, leb, if◌then◌else◌, Option-cases,
  is_some, length, get_elem?, set, get_elem?-set-some, get_elem?-set_ne,
}
use amber.Memory.{GuestRam}
use amber.Transport.{VirtioDevice, VirtioMmio}
use amber.Transport
use amber.Pl011
use amber.Board.{
  pl011_access, VirtioDev, MmioAccess, Calls, Board, Dispatched, completed, failed, contains,
  finish, mmio_access, access_first, dispatch_mmio, ram_after, pl011_base, pl011_size, set_irq,
}

-- The devices have the windows and interrupts that `VirtioDev::new` gives from index `k` on.
abbrev pub IsPlaced : {D : Type 0} → ℕ → List (VirtioDev D) → Type 0
IsPlaced k [] = Unit {0}
IsPlaced k (d ∷ ds) =
    (d.base ≡ 0x0c000000 + k * 512) × (d.size ≡ 512) × (d.intid ≡ 34 + k) × IsPlaced (suc k) ds

module _ {D : Type 0} (ops : VirtioDevice D) where
  -- What an access makes of the device that it reaches.
  abbrev pub touched : VirtioDev D → GuestRam → MmioAccess → VirtioDev D × Option ℕ
  touched d ram a =
      let r = mmio_access ops (Transport.attach d.mmio ram) (a.ipa - d.base) a.write in
      (record d { mmio = r.0 }, r.1)

  pub access_first-hit :
      (k i : ℕ) (ds : List (VirtioDev D)) (d : VirtioDev D) (ram : GuestRam) (a : MmioAccess)
      → IsPlaced k ds
      → get_elem? ds i ≡ some d
      → 0x0c000000 + (k + i) * 512 ≤ a.ipa
      → a.ipa < 0x0c000000 + (k + i) * 512 + 512
      → access_first ops ds ram a
        ≡ some (set ds i (touched d ram a).0, (touched d ram a).0, (touched d ram a).1)
  unfolding access_first contains
  access_first-hit k i [] d ram a p e lo hi = absurd (cc e)
  access_first-hit k zero (d' ∷ ds) d ram a (base, size, intid, p) e lo hi =
      let same : d' ≡ d = cc e in
      let here : (leb d'.base a.ipa && ltb a.ipa (d'.base + d'.size)) ≡ true =
        ground (arith, base, size, lo, hi) in
      rw here (
        ap
          (λ (x : VirtioDev D).
            some ((touched x ram a).0 ∷ ds, (touched x ram a).0, (touched x ram a).1))
          same)
  access_first-hit k (suc i) (d' ∷ ds) d ram a (base, size, intid, p) e lo hi =
      let past : (leb d'.base a.ipa && ltb a.ipa (d'.base + d'.size)) ≡ false =
        ground (arith, base, size, lo, hi) in
      let ih = access_first-hit (suc k) i ds d ram a p e (omega arith) (omega arith) in
      rw (past, ih) refl

  pub access_first-miss :
      (k : ℕ) (ds : List (VirtioDev D)) (ram : GuestRam) (a : MmioAccess)
      → IsPlaced k ds
      → (a.ipa < 0x0c000000 + k * 512) ⊎ (0x0c000000 + (k + length ds) * 512 ≤ a.ipa)
      → access_first ops ds ram a ≡ none
  unfolding access_first contains
  access_first-miss k [] ram a p h = refl
  access_first-miss k (d ∷ ds) ram a (base, size, intid, p) h =
      let past : (leb d.base a.ipa && ltb a.ipa (d.base + d.size)) ≡ false =
        ground (arith, base, size, h) in
      rw (past, access_first-miss (suc k) ds ram a p (ground (arith, h))) refl

pub placed_at :
    {D : Type 0} (k i : ℕ) (ds : List (VirtioDev D)) (d : VirtioDev D)
    → IsPlaced k ds
    → get_elem? ds i ≡ some d
    → (d.base ≡ 0x0c000000 + (k + i) * 512) × (d.intid ≡ 34 + (k + i))
placed_at k i [] d p e = absurd (cc e)
placed_at {D = D} k zero (d' ∷ ds) d (base, size, intid, p) e =
    let same : d' ≡ d = cc e in
    (
      ap (λ (x : VirtioDev D). x.base) (sym same) ∙ omega (arith, base),
      ap (λ (x : VirtioDev D). x.intid) (sym same) ∙ omega (arith, intid),
    )
placed_at k (suc i) (d' ∷ ds) d (base, size, intid, p) e =
    let (b, n) = placed_at (suc k) i ds d p e in (omega (arith, b), omega (arith, n))

pub IsPlaced-set :
    {D : Type 0} (k i : ℕ) (ds : List (VirtioDev D)) (d : VirtioDev D) (m : VirtioMmio D)
    → get_elem? ds i ≡ some d
    → IsPlaced k ds
    → IsPlaced k (set ds i (record d { mmio = m }))
IsPlaced-set k i [] d m e p = p
IsPlaced-set k zero (d' ∷ ds) d m e (base, size, intid, p) =
    let same : d' ≡ d = cc e in rw (sym same) (base, size, intid, p)
IsPlaced-set k (suc i) (d' ∷ ds) d m e (base, size, intid, p) =
    (base, size, intid, IsPlaced-set (suc k) i ds d m e p)

-- The calls of a dispatch that is completed have gone well.
pub finish-completed :
    {D : Type 0} (calls : Calls) (b : Board D) (intid : ℕ) (level : Bool) (v w : Option ℕ)
    → (finish calls b intid level v).1 ≡ completed w
    → ((finish calls b intid level v).0 ≡ record b { lines = set_irq b.lines intid level })
      × (w ≡ v)
unfolding finish
finish-completed {D = D} calls b intid level v w =
    go (is_some v && not calls.read_ok) calls.irq_ok calls.advance_ok
  where
    after : Board D
    after = record b { lines = set_irq b.lines intid level }

    go :
        (unread irq advance : Bool)
        → (if◌then◌else◌ {A = Board D × Dispatched} unread
            (b, failed)
            (if not irq then (b, failed) else (after, if advance then completed v else failed))).1
          ≡ completed w
        → ((if◌then◌else◌ {A = Board D × Dispatched} unread
              (b, failed)
              (if not irq then (b, failed) else (after, if advance then completed v else failed))).0
            ≡ after)
          × (w ≡ v)
    go true irq advance e = absurd (cc e)
    go false false advance e = absurd (cc e)
    go false true false e = absurd (cc e)
    go false true true e = (refl, cc e)

-- The three ways of a dispatch.
module _ {D : Type 0} (ops : VirtioDevice D) (calls : Calls) (b : Board D) (a : MmioAccess) where
  abbrev pub is_uart : Bool
  is_uart = leb pl011_base a.ipa && ltb a.ipa (pl011_base + pl011_size)

  pub dispatch_mmio-uart :
      is_uart ≡ true
      → dispatch_mmio ops calls b a
        ≡ finish calls
            (record b { pl011 = (pl011_access b.pl011 (a.ipa - pl011_base) a.write).0 })
            33
            (Pl011.irq_level (pl011_access b.pl011 (a.ipa - pl011_base) a.write).0)
            (pl011_access b.pl011 (a.ipa - pl011_base) a.write).1
  unfolding dispatch_mmio
  dispatch_mmio-uart e = rw e refl

  pub dispatch_mmio-device :
      (ds : List (VirtioDev D)) (d : VirtioDev D) (v : Option ℕ)
      → is_uart ≡ false
      → access_first ops b.virtio b.ram a ≡ some (ds, d, v)
      → dispatch_mmio ops calls b a
        ≡ finish calls
            (record b { virtio = ds; ram = ram_after d.mmio.ram b.ram })
            d.intid
            (Transport.irq_level ops d.mmio)
            v
  unfolding dispatch_mmio
  dispatch_mmio-device ds d v e q = rw (dispatch_mmio, e, q) refl

  pub dispatch_mmio-none :
      is_uart ≡ false
      → access_first ops b.virtio b.ram a ≡ none
      → (dispatch_mmio ops calls b a).0 ≡ b
  unfolding dispatch_mmio
  dispatch_mmio-none e q = elim (Option-cases a.write) [
    | inl w ↦ rw (dispatch_mmio, e, q, w) refl
    | inr (x, w) ↦ rw (dispatch_mmio, e, q, w) refl
  ]

  pub dispatch_mmio-zero :
      (v : Option ℕ)
      → is_uart ≡ false
      → access_first ops b.virtio b.ram a ≡ none
      → a.write ≡ none
      → (dispatch_mmio ops calls b a).1 ≡ completed v
      → v ≡ some 0
  unfolding dispatch_mmio
  dispatch_mmio-zero v e q w =
      rw (dispatch_mmio, e, q, w) (only (calls.read_ok && calls.advance_ok))
    where
      only : (ok : Bool) → (if ok then completed (some 0) else failed) ≡ completed v → v ≡ some 0
      only true done = cc done
      only false done = absurd (cc done)

-- A completed dispatch of an access at an offset below 512 of window `i`, on a board that is wired as
-- `VirtioDev::new` wires it, reaches device `i`: the guest gets what that device's register gives, the
-- device's line, `34 + i`, is its level after the access, and the UART, the other devices and the
-- other lines stay as they were.
pub dispatch_mmio-window :
    {D : Type 0} (ops : VirtioDevice D) (calls : Calls) (b : Board D) (a : MmioAccess) (i : ℕ)
    (d : VirtioDev D) (v : Option ℕ)
    → IsPlaced 0 b.virtio
    → get_elem? b.virtio i ≡ some d
    → 0x0c000000 + i * 512 ≤ a.ipa
    → a.ipa < 0x0c000000 + i * 512 + 512
    → (dispatch_mmio ops calls b a).1 ≡ completed v
    → (v ≡ (touched ops d b.ram a).1)
      × (get_elem? (dispatch_mmio ops calls b a).0.virtio i ≡ some (touched ops d b.ram a).0)
      × ((dispatch_mmio ops calls b a).0.lines (34 + i)
          ≡ Transport.irq_level ops (touched ops d b.ram a).0.mmio)
      × ((dispatch_mmio ops calls b a).0.pl011 ≡ b.pl011)
      × ((j : ℕ)
          → j ≢ i
          → get_elem? (dispatch_mmio ops calls b a).0.virtio j ≡ get_elem? b.virtio j)
      × ((n : ℕ) → n ≢ 34 + i → (dispatch_mmio ops calls b a).0.lines n ≡ b.lines n)
dispatch_mmio-window ops calls b a i d v placed e lo hi =
    let above : is_uart ops calls b a ≡ false = ground (arith, lo) in
    let hit =
      access_first-hit ops 0 i b.virtio d b.ram a placed e (omega (arith, lo))
        (omega (arith, hi)) in
    let intid : d.intid ≡ 34 + i = omega (arith, (placed_at 0 i b.virtio d placed e).1) in
    rw (dispatch_mmio-device ops calls b a _ _ _ above hit) (λ done.
      let (q, same) = finish-completed calls _ _ _ _ _ done in
      rw q (
        same,
        get_elem?-set-some b.virtio i _ e,
        rw intid (ground arith),
        refl,
        λ j ne. get_elem?-set_ne b.virtio _ (λ s. ne (sym s)),
        λ n ne. rw intid (ground (arith, ne)),
      ))

-- A completed dispatch of an access that is neither at the UART nor at the window of a device changes
-- nothing, and a read gives 0.
pub dispatch_mmio-unbacked :
    {D : Type 0} (ops : VirtioDevice D) (calls : Calls) (b : Board D) (a : MmioAccess)
    (v : Option ℕ)
    → IsPlaced 0 b.virtio
    → (a.ipa < 0x09000000) ⊎ (0x09001000 ≤ a.ipa)
    → (a.ipa < 0x0c000000) ⊎ (0x0c000000 + length b.virtio * 512 ≤ a.ipa)
    → (dispatch_mmio ops calls b a).1 ≡ completed v
    → ((dispatch_mmio ops calls b a).0 ≡ b) × ((a.write ≡ none) → v ≡ some 0)
dispatch_mmio-unbacked ops calls b a v placed uart windows =
    let off : is_uart ops calls b a ≡ false = ground (arith, uart) in
    let miss = access_first-miss ops 0 b.virtio b.ram a placed (ground (arith, windows)) in
    λ done. (
      dispatch_mmio-none ops calls b a off miss,
      λ w. dispatch_mmio-zero ops calls b a v off miss w done,
    )
