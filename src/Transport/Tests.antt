-- ===== src/Transport/Tests.antt =====
-- A device with a count of one-byte payloads to give, and the theorems at concrete inputs.
use amber.Prelude.{
  ℕ, zero, suc, ◌<◌, min, ◌≡◌, refl, inr, Bool, true, false, Option, none, some, List, [], ◌∷◌,
  arith, get_elem?, wrapping_add,
}
use amber.Memory.{GuestRam, read_u16, read_u32, read_u64, in_range, offset}
use amber.Memory
use amber.Memory.Cells.{cells, overwrite}
use amber.Virtqueue.{
  next_rx_capacity, nothing_posted, next_head, collect_chain, chain_loop, desc_buf, inject_one,
  inject_loop, push_used,
}
use amber.Virtqueue.Tests.{rings, ring_queue}
use amber.Transport.{
  retry_pending, raise, pump_rx, VirtioDevice, VirtioMmio, service, new, write, pump_loop, process,
  notified, posted, deliver, irq_level,
}
use amber.Transport.Process.{outstanding, service_lem, process_ignored}
use amber.Transport.Pump.{History, pump_rx-History}
use amber.Transport.Snapshot.{IsQueue}
use amber.Transport.Valid.{IsValid, writes, here, later, new-Reach-IsValid}

-- The payloads left.
give : ℕ → ℕ × Option (List ℕ)
give zero = (0, none)
give (suc n) = (n, some (7 ∷ []))

abbrev source : VirtioDevice ℕ
source = record {
  device_id = λ d. 4;
  device_features = λ d sel. 0;
  config = λ d off. 0;
  num_queues = λ d. 1;
  config_changed = λ d. false;
  ack_config = λ d. d;
  handle = λ d q ram bufs. (d, ram, 0);
  rx_queue = λ d. some 0;
  event_queue = λ d. none;
  poll_rx = λ d room. give d;
}

abbrev live : VirtioMmio ℕ
live = record {
  dev = 3;
  ram = some rings;
  device_features_sel = 0;
  status = 7;
  queue_sel = 0;
  queues = ring_queue ∷ [];
  interrupt_status = 0;
  pending_rx = none;
}

ring_queue-IsQueue : IsQueue ring_queue
ring_queue-IsQueue = omega arith

service_lem_example :
    (get_elem? (service source live 0 rings ring_queue).queues 0
      ≡ some (record ring_queue {
        last_avail =
            wrapping_add 16 0 (min 4 (outstanding (read_u16 rings (wrapping_add 64 64 2)) 0));
      }))
    × (0 < min 4 (outstanding (read_u16 rings (wrapping_add 64 64 2)) 0)
        → irq_level source (service source live 0 rings ring_queue) ≡ true)
unfolding read_u16 Memory.read offset cells
service_lem_example =
    service_lem source live 0 rings ring_queue (omega arith) (omega arith) refl (omega arith)

process_ignored_example : process source live 0 ≡ live
unfolding notified
process_ignored_example = process_ignored source live 0 (inr refl)

-- What the pump leaves: the payload held back is in the one posted chain.
abbrev retrying : VirtioMmio ℕ
retrying = record live { pending_rx = some (9 ∷ []) }

abbrev outcome : Option (VirtioMmio ℕ × Bool) → VirtioMmio ℕ × Bool
outcome none = (live, false)
outcome (some r) = r

abbrev pumped : VirtioMmio ℕ × Bool
pumped = outcome (pump_rx source 4 retrying)

pump_rx-History_example : History source 0 rings ring_queue retrying pumped
unfolding pump_rx retry_pending raise pump_loop posted next_rx_capacity nothing_posted give deliver
    inject_one inject_loop collect_chain chain_loop desc_buf in_range next_head push_used
    Memory.write Memory.write_u16 Memory.write_u32 read_u32 read_u64 read_u16 Memory.read offset
    cells overwrite
pump_rx-History_example =
    pump_rx-History source 4 retrying 0 rings ring_queue pumped refl refl refl refl

new-Reach-IsValid_example : IsValid (write source (new source 3) 0x038 100_000)
new-Reach-IsValid_example =
    new-Reach-IsValid source 3 (later here (writes (new source 3) 0x038 100_000))
