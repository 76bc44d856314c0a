-- ===== src/Fleet/Reach.antt =====
-- crates/amber/src/daemon.rs: every history of the registry that starts empty.
use amber.Prelude.{ℕ, ◌+◌, ◌^◌, ◌≤◌, ◌<◌, ◌≡◌, refl, Bool, true, Option, some, List, [], arith}
use Prim.Native.String.{String}
use amber.Fleet.{
  Fleet, Manifest, Staging, Admission, reserve_with_evict, set_runtime, forget, spawn_paused,
  control_op, refill_pool, handle_fork, used_ram,
}
use amber.Fleet.Within.{
  IsWithin, reserve_with_evict-IsWithin, forget-IsWithin, update_vm-IsWithin, spawn_paused-IsWithin,
  control_op-IsWithin, refill_pool-IsWithin, handle_fork-IsWithin,
}

abbrev pub empty : Fleet
empty = record { registry = []; pool = []; counter = 0; killed = [] }

-- One handler of the daemon, with what the host answers to it, under the manifest and the pool's target.
pub data Step (man : Manifest) (target : ℕ) : Fleet → Fleet → Type 0 where
  launch :
      (f : Fleet) (fuel : ℕ) (reference : String) (r : Fleet × Admission)
      → reserve_with_evict fuel man f reference ≡ some r
      → Step man target f r.0
  run : (f : Fleet) (id pid : ℕ) → Step man target f (set_runtime f id pid)
  end : (f : Fleet) (id : ℕ) → Step man target f (forget f id)
  warm :
      (f : Fleet) (template : String) (s : Staging)
      → Step man target f (spawn_paused man f template s).0
  control :
      (f : Fleet) (id : ℕ) (wrote : Bool) (set_paused : Option Bool)
      → Step man target f (control_op f id wrote set_paused).0
  fork :
      (f : Fleet) (template : String) (s : Staging) (wrote : Bool) (stagings : List Staging)
      → Step man target f (handle_fork man target f template s wrote stagings).0
  refill :
      (f : Fleet) (template : String) (stagings : List Staging)
      → Step man target f (refill_pool man target f template stagings)

pub data Reach (man : Manifest) (target : ℕ) : Fleet → Type 0 where
  start : Reach man target empty
  next : (f g : Fleet) → Reach man target f → Step man target f g → Reach man target g

module _ (man : Manifest) (b : ℕ) (capped : man.budget ≡ some b)
    (small : (t : String) → man.ram t + b < 2 ^ 64) where
  Step-IsWithin :
      (target : ℕ) (f g : Fleet)
      → Step man target f g
      → IsWithin man b capped small f
      → IsWithin man b capped small g
  unfolding set_runtime
  Step-IsWithin target _ _ (launch f fuel reference r e) k =
      reserve_with_evict-IsWithin man b capped small fuel f reference r e k
  Step-IsWithin target _ _ (run f id pid) k =
      update_vm-IsWithin man b capped small f id (λ e. record e { pid = pid; control = true })
        (λ e. refl) k
  Step-IsWithin target _ _ (end f id) k = forget-IsWithin man b capped small f id k
  Step-IsWithin target _ _ (warm f template s) k =
      spawn_paused-IsWithin man b capped small f template s k
  Step-IsWithin target _ _ (control f id wrote set_paused) k =
      control_op-IsWithin man b capped small f id wrote set_paused k
  Step-IsWithin target _ _ (fork f template s wrote stagings) k =
      handle_fork-IsWithin man b capped small target f template s wrote stagings k
  Step-IsWithin target _ _ (refill f template stagings) k =
      refill_pool-IsWithin man b capped small target f template stagings k

-- Under a budget `b` that no template's RAM takes past 64 bits, whatever launches, evictions, forks,
-- refills, failed stagings, ends and control frames the daemon has gone through since its empty
-- registry, the RAM of the VMs in the registry is at most `b`.
pub reach-within :
    (man : Manifest) (b : ℕ)
    → man.budget ≡ some b
    → ((t : String) → man.ram t + b < 2 ^ 64)
    → (target : ℕ) (f : Fleet) → Reach man target f
    → used_ram f.registry ≤ b
reach-within man b capped small target f r = (reached target f r).within
  where
    reached : (target : ℕ) (f : Fleet) → Reach man target f → IsWithin man b capped small f
    reached target _ start = record { within = omega arith }
    reached target _ (next f g r s) =
        Step-IsWithin man b capped small target f g s (reached target f r)
