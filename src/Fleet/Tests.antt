-- ===== src/Fleet/Tests.antt =====
-- crates/amber/src/daemon.rs: a fleet with one warm worker and a budget of two VMs.
use amber.Prelude.{◌≤◌, ◌≡◌, refl, true, false, none, some, [], ◌∷◌, arith}
use amber.Fleet.{
  Fleet, Manifest, Admission, admitted, find_vm, reserved, Staging, spawn_paused,
  reserve_with_evict, over_budget, used_ram, reserve, evict_one_pooled,
}
use amber.Fleet.Reach.{Reach, start, next, launch, empty, reach-within}
use amber.Fleet.Evict.{IsFair, reserve_with_evict-IsFair}
use amber.Fleet.Fork.{spawn_paused-leaks}

abbrev manifest : Manifest
manifest = record { ram = λ t. 512; budget = some 1024 }

abbrev one_warm : Fleet
one_warm = record {
  registry = reserved 2 "web" 512 ∷ reserved 1 "db" 512 ∷ [];
  pool = ("web", 2 ∷ []) ∷ [];
  counter = 2;
  killed = [];
}

abbrev one_vm : Fleet
one_vm = record { registry = reserved 1 "db" 512 ∷ []; pool = []; counter = 1; killed = [] }

abbrev no_logs : Staging
no_logs = record { logs = false; attach = true; spawn = some 77; warm = true }

abbrev no_ready : Staging
no_ready = record { logs = true; attach = true; spawn = some 77; warm = false }

abbrev launched : Reach manifest 1 one_vm
unfolding reserve_with_evict reserve over_budget evict_one_pooled
launched = next empty one_vm start (launch empty 1 "db" (one_vm, admitted 1) refl)

reach-within_example : used_ram one_vm.registry ≤ 1024
reach-within_example = reach-within manifest 1024 refl (λ t. omega arith) 1 one_vm launched

reserve_with_evict-IsFair_example :
    (r : Fleet × Admission) × (reserve_with_evict 2 manifest one_warm "api" ≡ some r)
    × IsFair one_warm r
reserve_with_evict-IsFair_example =
    reserve_with_evict-IsFair 2 manifest one_warm "api" (omega arith)

spawn_paused-leaks_example :
    ((spawn_paused manifest one_vm "web" no_logs).1 ≡ none)
    × (find_vm (spawn_paused manifest one_vm "web" no_logs).0.registry 2
        ≡ some (reserved 2 "web" 512))
    × (used_ram (spawn_paused manifest one_vm "web" no_logs).0.registry ≡ 1024)
unfolding over_budget
spawn_paused-leaks_example = spawn_paused-leaks manifest one_vm "web" no_logs refl refl refl
