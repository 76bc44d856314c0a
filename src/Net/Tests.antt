-- ===== src/Net/Tests.antt =====
-- crates/amber-core/src/net.rs: a backend that records what is sent and replays a list of frames, and a
-- limit that passes every second frame.
use amber.Prelude.{
  ℕ, ◌%◌, ◌≡◌, refl, Bool, true, false, not, Option, none, some, List, [], ◌∷◌, ◌++◌, arith, take,
  drop,
}
use amber.Memory.{GuestRam}
use amber.Virtqueue.{Buf}
use amber.Devices.{readable}
use amber.Net.{NetBackend, TokenBucket, NetDevice, max_tx_frame, net_handle}
use amber.Net.Transmit.{net_handle-guest_bytes, guest_bytes}

abbrev Recorded : Type 0
Recorded = List (List ℕ) × List (List ℕ)

abbrev replay : List (List ℕ) → Option (List ℕ)
replay [] = none
replay (f ∷ fs) = some f

abbrev recorder : NetBackend Recorded
recorder = record {
  send = λ b f. (b.0 ++ (f ∷ []), b.1);
  poll = λ b. ((b.0, drop 1 b.1), replay b.1);
  mac = λ b. 82 ∷ 84 ∷ 0 ∷ 18 ∷ 52 ∷ 86 ∷ [];
  wants_poll = λ b. false;
}

abbrev alternate : TokenBucket Bool
alternate = record { debit = λ t n. (t, some n); try_take = λ t n. (not t, t) }

abbrev device : NetDevice Recorded Bool
device = record {
  backend = ([], (7 ∷ 8 ∷ []) ∷ (9 ∷ []) ∷ []);
  mac = 82 ∷ 84 ∷ 0 ∷ 18 ∷ 52 ∷ 86 ∷ [];
  tx_limit = some true;
  rx_limit = some false;
  pending_rx = none;
  tx_debt = none;
}

abbrev guest : GuestRam
guest = record { host = λ o. o % 256; base = 4096; len = 8192 }

abbrev chain : List Buf
chain =
    record { addr = 4096; len = 12; writable = false }
    ∷ record { addr = 4200; len = 2; writable = false }
    ∷ []

net_handle-guest_bytes_example :
    ((net_handle recorder alternate device 1 guest chain).0.backend
      ≡ recorder.send device.backend
          (drop 12 (take max_tx_frame (guest_bytes guest (readable chain)))))
    × ((net_handle recorder alternate device 1 guest chain).0.pending_rx ≡ none)
    × ((net_handle recorder alternate device 1 guest chain).1 ≡ 0)
net_handle-guest_bytes_example =
    (net_handle-guest_bytes recorder alternate device 1 guest chain (omega arith)
        ((omega arith, omega arith), ((omega arith, omega arith), tt))).0
      refl (omega arith)
