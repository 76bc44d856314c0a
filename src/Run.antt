-- ===== src/Run.antt =====
-- crates/amber-core/src/vm.rs: the threads of `Vm::run` as a step relation: the primary vcpu, the
-- secondaries (`secondary_loop`) and the control reader, over the shared flags, the pause gate and the snapshot
-- barrier (`SnapCoord`). A step is one turn of one thread between two accesses of shared state; when the
-- guest exits, when the time is over and what the control channel holds is free. `set_yield` and
-- `request_stop` are the flags of the HVF backend, which `Vcpu::run` obeys; KVM's signals are not modelled.
pub mod Quiesce
pub mod Orphan
pub mod Ending
pub mod Tests
use amber.Prelude.{
  ℕ, zero, suc, ◌+◌, ◌-◌, ◌*◌, ◌/◌, ◌%◌, ◌^◌, ◌≤◌, ◌<◌, min, max, bit_and, bit_or, ◌≡◌, refl, sym,
  ap, ◌∙◌, ◌≢◌, ◌↔◌, ◌⊎◌, inl, inr, Bool, true, false, not, ◌&&◌, ◌||◌, Option, none, some, List,
  [], ◌∷◌, ◌++◌, map, append-nil, append_assoc, arith, ltb, leb, ◌==◌, if◌then◌else◌, Bool-cases,
  Option-cases, ◌>>=◌, is_some, length, get_elem?, get_or, set, take, drop, replicate, All, IsByte,
  keep, length-append, length-set, All-append, All-set, All-get_elem?, wrapping_add, wrapping_sub,
  not_u32, to_le, from_le, ==_iff, ltb→lt, lt→ltb, leb→le, le→leb, length-take, length-drop,
  length-replicate,
}

-- Where a vcpu thread is: at the head of its loop, at the pause gate, past it, in `Vcpu::run`, at the
-- snapshot barrier, writing the snapshot, or ended.
pub data Phase : Type 0 where
  head : Phase
  gate : Phase
  ready : Phase
  guest : Phase
  barrier : Phase
  dumping : Phase
  stopped : Phase

-- `slots` says which secondaries have left their registers; `yielding` and `stop_asked` are the backend's flags,
-- `overdue` is whether the barrier's deadline has passed, `reader` whether the control reader runs.
pub record Machine : Type 0 where
  pub primary : Phase
  pub secondaries : List Phase
  pub slots : List Bool
  pub want : Bool
  pub paused : Bool
  pub running : Bool
  pub yielding : Bool
  pub stop_asked : Bool
  pub overdue : Bool
  pub reader : Bool

abbrev pub all_left : List Bool → Bool
all_left [] = true
all_left (s ∷ slots) = s && all_left slots

-- The primary's loop. A shutdown, a fault, an error, a snapshot and a cleared `running` end it, and then it asks the
-- others to stop.
pub data PrimaryStep : Machine → Machine → Type 0 where
  loop_on :
      (m : Machine)
      → m.primary ≡ head
      → m.running ≡ true
      → PrimaryStep m (record m { primary = gate })
  loop_ends :
      (m : Machine)
      → m.primary ≡ head
      → m.running ≡ false
      → PrimaryStep m (record m { primary = stopped; running = false; stop_asked = true })
  unpaused :
      (m : Machine)
      → m.primary ≡ gate
      → m.paused ≡ false
      → PrimaryStep m (record m { primary = ready })
  -- An error of `set_irq` in the delivery to the receive queues, or of `capture`.
  fails :
      (m : Machine)
      → m.primary ≡ ready
      → PrimaryStep m (record m { primary = stopped; running = false; stop_asked = true })
  enter : (m : Machine) → m.primary ≡ ready → PrimaryStep m (record m { primary = guest })
  -- The guest exits of its own, and the exit is served.
  traps : (m : Machine) → m.primary ≡ guest → PrimaryStep m (record m { primary = head })
  -- The guest is made to exit.
  forced :
      (m : Machine)
      → m.primary ≡ guest
      → (m.yielding || m.stop_asked) ≡ true
      → PrimaryStep m (record m { primary = head })
  -- A shutdown, a fault, or an error of the run or of its exit's service.
  halt :
      (m : Machine)
      → m.primary ≡ guest
      → PrimaryStep m (record m { primary = stopped; running = false; stop_asked = true })
  due_alone :
      (m : Machine)
      → m.primary ≡ ready
      → m.secondaries ≡ []
      → PrimaryStep m (record m { primary = dumping })
  due :
      (m : Machine)
      → m.primary ≡ ready
      → 0 < length m.secondaries
      → PrimaryStep m
          (record m { primary = barrier; want = true; yielding = true; overdue = false })
  quiesced :
      (m : Machine)
      → m.primary ≡ barrier
      → all_left m.slots ≡ true
      → PrimaryStep m (record m { primary = dumping })
  late :
      (m : Machine)
      → m.primary ≡ barrier
      → m.overdue ≡ true
      → PrimaryStep m (record m { primary = stopped; running = false; stop_asked = true })
  -- The snapshot is written, or an error of that.
  written :
      (m : Machine)
      → m.primary ≡ dumping
      → PrimaryStep m (record m { primary = stopped; running = false; stop_asked = true })

-- The loop of secondary `i`.
pub data SecondaryStep (i : ℕ) : Machine → Machine → Type 0 where
  ends :
      (m : Machine)
      → get_elem? m.secondaries i ≡ some head
      → m.running ≡ false
      → SecondaryStep i m (record m { secondaries = set m.secondaries i stopped })
  deposit :
      (m : Machine)
      → get_elem? m.secondaries i ≡ some head
      → m.running ≡ true
      → m.want ≡ true
      → SecondaryStep i m
          (record m { secondaries = set m.secondaries i barrier; slots = set m.slots i true })
  capture_fails :
      (m : Machine)
      → get_elem? m.secondaries i ≡ some head
      → m.want ≡ true
      → SecondaryStep i m (record m { running = false; stop_asked = true })
  wakes :
      (m : Machine)
      → get_elem? m.secondaries i ≡ some barrier
      → SecondaryStep i m (record m { secondaries = set m.secondaries i head })
  unwanted :
      (m : Machine)
      → get_elem? m.secondaries i ≡ some head
      → m.running ≡ true
      → m.want ≡ false
      → SecondaryStep i m (record m { secondaries = set m.secondaries i gate })
  passes :
      (m : Machine)
      → get_elem? m.secondaries i ≡ some gate
      → (m.paused && m.running) ≡ false
      → SecondaryStep i m (record m { secondaries = set m.secondaries i guest })
  exits :
      (m : Machine)
      → get_elem? m.secondaries i ≡ some guest
      → SecondaryStep i m (record m { secondaries = set m.secondaries i head })
  stops :
      (m : Machine)
      → get_elem? m.secondaries i ≡ some guest
      → SecondaryStep i m
          (record m { secondaries = set m.secondaries i head; running = false; stop_asked = true })

-- The control reader: end of the channel, end inside a balloon frame, the frames, and its own end.
pub data ControlStep : Machine → Machine → Type 0 where
  hangup :
      (m : Machine)
      → m.reader ≡ true
      → ControlStep m (record m { running = false; yielding = true; reader = false })
  cut : (m : Machine) → m.reader ≡ true → ControlStep m (record m { reader = false })
  balloon : (m : Machine) → m.reader ≡ true → ControlStep m m
  pause :
      (m : Machine) → m.reader ≡ true → ControlStep m (record m { paused = true; yielding = true })
  resume :
      (m : Machine)
      → m.reader ≡ true
      → ControlStep m (record m { paused = false; yielding = false })
  reader_ends : (m : Machine) → m.running ≡ false → ControlStep m (record m { reader = false })

pub data Step : Machine → Machine → Type 0 where
  primary_turn : (m m' : Machine) → PrimaryStep m m' → Step m m'
  secondary_turn : (i : ℕ) (m m' : Machine) → SecondaryStep i m m' → Step m m'
  control_turn : (m m' : Machine) → ControlStep m m' → Step m m'
  clock_turn : (m : Machine) → Step m (record m { overdue = true })

pub data Steps : Machine → Machine → Type 0 where
  none_yet : (m : Machine) → Steps m m
  then_step : (m m' m'' : Machine) → Steps m m' → Step m' m'' → Steps m m''

-- The machine as `run` starts it, with `n` secondaries.
abbrev pub start : ℕ → Machine
start n = record {
  primary = head;
  secondaries = replicate n head;
  slots = replicate n false;
  want = false;
  paused = false;
  running = true;
  yielding = false;
  stop_asked = false;
  overdue = false;
  reader = true;
}
