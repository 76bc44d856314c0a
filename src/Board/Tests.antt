-- ===== src/Board/Tests.antt =====
-- crates/amber-core/src/vm.rs: a board with two devices that give payloads, and a machine with a root disk.
use amber.Prelude.{
  not, ◌==◌, ℕ, ◌≡◌, refl, ◌≢◌, inl, inr, true, false, Option, none, some, List, [], ◌∷◌, arith,
  get_elem?,
}
use amber.Pl011
use amber.Transport.{VirtioDevice, VirtioMmio}
use amber.Transport
use amber.Board.{
  MmioAccess, Calls, Board, place, dispatch_mmio, access_first, contains, finish, mmio_access,
}
use amber.Board.Windows.{touched, dispatch_mmio-window, dispatch_mmio-unbacked, IsPlaced}
use amber.Board.Followed.{IsSynced}
use amber.Board.Lines
use amber.Board.Pumps.{IsQuiet}
use amber.Board.Assembly.{Kind, blk, entropy, network, vsock, balloon, Host, VmConfig}

abbrev counter : VirtioDevice ℕ
counter = record {
  device_id = λ d. 4;
  device_features = λ d sel. 0;
  config = λ d off. d;
  num_queues = λ d. 1;
  config_changed = λ d. false;
  ack_config = λ d. d;
  handle = λ d q ram bufs. (d, ram, 0);
  rx_queue = λ d. none;
  event_queue = λ d. none;
  poll_rx = λ d room. (d, none);
}

abbrev board : Board ℕ
board = record {
  pl011 = Pl011.new;
  virtio = place counter 0 7 ∷ place counter 1 8 ∷ [];
  ram = record { host = λ o. 0; base = 0x40000000; len = 4096 };
  lines = λ n. false;
}

abbrev all_well : Calls
all_well = record { read_ok = true; irq_ok = true; advance_ok = true }

-- The configuration word of the second device.
abbrev second : MmioAccess
second = record { ipa = 0x0c000300; write = none }

abbrev nowhere : MmioAccess
nowhere = record { ipa = 0x0a000000; write = none }

board-IsPlaced : IsPlaced 0 board.virtio
unfolding place
board-IsPlaced = (refl, refl, refl, (refl, refl, refl, tt))

dispatch_mmio-window_example :
    (some 8 ≡ (touched counter (place counter 1 8) board.ram second).1)
    × (get_elem? (dispatch_mmio counter all_well board second).0.virtio 1
        ≡ some (touched counter (place counter 1 8) board.ram second).0)
    × ((dispatch_mmio counter all_well board second).0.lines 35
        ≡ Transport.irq_level counter (touched counter (place counter 1 8) board.ram second).0.mmio)
    × ((dispatch_mmio counter all_well board second).0.pl011 ≡ Pl011.new)
    × ((j : ℕ)
        → j ≢ 1
        → get_elem? (dispatch_mmio counter all_well board second).0.virtio j
          ≡ get_elem? board.virtio j)
    × ((n : ℕ) → n ≢ 35 → (dispatch_mmio counter all_well board second).0.lines n ≡ false)
unfolding place dispatch_mmio access_first contains finish mmio_access Transport.read
    Transport.attach Transport.new
dispatch_mmio-window_example =
    dispatch_mmio-window counter all_well board second 1 (place counter 1 8) (some 8) board-IsPlaced
      refl (omega arith) (omega arith) refl

dispatch_mmio-unbacked_example :
    ((dispatch_mmio counter all_well board nowhere).0 ≡ board)
    × (nowhere.write ≡ none → ◌≡◌ {A = Option ℕ} (some 0) (some 0))
unfolding place dispatch_mmio access_first contains
dispatch_mmio-unbacked_example =
    dispatch_mmio-unbacked counter all_well board nowhere (some 0) board-IsPlaced
      (inr (omega arith)) (inl (omega arith)) refl

board-IsSynced : IsSynced counter board
unfolding place Transport.new Transport.irq_level Pl011.irq_level
board-IsSynced = record { wired = board-IsPlaced; uart = refl; devices = (refl, (refl, tt)) }

counter-IsQuiet : IsQuiet counter
counter-IsQuiet = record { kept = λ d room. refl }

-- A device whose state is its target, with a configuration change unless that is 0.
abbrev ballooning : VirtioDevice ℕ
ballooning = record counter { config_changed = λ d. not (d == 0) }

abbrev deflated : Board ℕ
deflated = record board { virtio = place ballooning 0 0 ∷ place ballooning 1 0 ∷ [] }

abbrev willing : Host
willing = record { opens = λ path. true; binds = λ path. true; entropy_opens = true }

abbrev config : VmConfig
config = record { disk = some "root.img"; data_disks = []; vsock = some "a.sock" }

abbrev made : List Kind
made = blk "root.img" false ∷ entropy ∷ network ∷ vsock "a.sock" ∷ balloon ∷ []

abbrev remade : List Kind
remade = blk "root.img" false ∷ entropy ∷ network ∷ vsock "b.sock" ∷ balloon ∷ []
