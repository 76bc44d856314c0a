-- ===== src/Board/Lines.antt =====
-- crates/amber-core/src/vm.rs: every interrupt line follows its device's level.
use amber.Prelude.{◌*◌, ◌%◌, ◌^◌, get_elem?, ℕ, ◌≡◌, Bool, true, Option, some, List}
use amber.Memory.{GuestRam}
use amber.Transport.{VirtioDevice}
use amber.Board.{
  balloon_frame, VirtioDev, MmioAccess, Calls, Board, completed, dispatch_mmio, pump_devices,
  console_input,
}

module _ {D : Type 0} (ops : VirtioDevice D) where
  -- What runs on the board, each as one step: a guest access from any vcpu, the delivery to the receive queues and
  -- console input, which run under the device locks, and a balloon frame, which takes none. The calls
  -- of `set_irq` succeed. A failed one ends the loop of the vcpu that made it, and is ignored by the
  -- two readers.
  pub data Turn (set_target : ℕ → D → D) : Board D → Board D → Type 0 where
    access :
        (b : Board D) (calls : Calls) (a : MmioAccess) (v : Option ℕ)
        → (dispatch_mmio ops calls b a).1 ≡ completed v
        → Turn set_target b (dispatch_mmio ops calls b a).0
    pump :
        (b : Board D) (fuel : ℕ) (irq_ok : ℕ → Bool)
        (r : List (VirtioDev D) × GuestRam × (ℕ → Bool) × Bool)
        → pump_devices ops fuel irq_ok b.virtio b.ram b.lines ≡ some r
        → r.3 ≡ true
        → Turn set_target b (record b { virtio = r.0; ram = r.1; lines = r.2 })
    input : (b : Board D) (bytes : List ℕ) → Turn set_target b (console_input true b bytes)
    balloon :
        (b : Board D) (index mib : ℕ) (d : VirtioDev D)
        → get_elem? b.virtio index ≡ some d
        → ops.config_changed (set_target (mib * 256 % 2 ^ 64) d.mmio.dev) ≡ true
        → Turn set_target b (balloon_frame true set_target index d.intid mib b)
