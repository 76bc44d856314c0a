-- ===== src/Run/Ending.antt =====
-- crates/amber-core/src/vm.rs: a hangup of the control channel ends a machine that is not paused.
use amber.Prelude.{ℕ, suc, ◌≡◌, true, false, ◌||◌}
use amber.Run.{
  Phase, head, gate, ready, guest, barrier, dumping, stopped, Machine, PrimaryStep, Steps,
  primary_turn, secondary_turn, control_turn, clock_turn, none_yet, then_step,
}

-- What a hangup leaves for good.
pub record IsEnding (m : Machine) : Type 0 where
  pub off : m.running ≡ false
  pub unheld : m.paused ≡ false
  pub unread : m.reader ≡ false
  pub asked : m.yielding ≡ true

-- How many turns the primary has at most before it ends.
abbrev pub turns_left : Phase → ℕ
turns_left gate = 5
turns_left ready = 4
turns_left barrier = 3
turns_left dumping = 2
turns_left guest = 2
turns_left head = 1
turns_left stopped = 0

-- The primary's turns in a run.
abbrev pub own_turns : {m m' : Machine} → Steps m m' → ℕ
own_turns (none_yet m) = 0
own_turns (then_step m m' m'' before (primary_turn a b s)) = suc (own_turns before)
own_turns (then_step m m' m'' before (secondary_turn i a b s)) = own_turns before
own_turns (then_step m m' m'' before (control_turn a b s)) = own_turns before
own_turns (then_step m m' m'' before (clock_turn a)) = own_turns before

-- A turn that comes of itself: one of the primary that does not wait for the guest to exit of its own, or the
-- passing of the barrier's deadline.
pub data Promised : Machine → Machine → Type 0 where
  own :
      (m m' : Machine)
      → PrimaryStep m m'
      → (m.primary ≡ guest → (m.yielding || m.stop_asked) ≡ true)
      → Promised m m'
  deadline :
      (m : Machine)
      → m.primary ≡ barrier
      → m.overdue ≡ false
      → Promised m (record m { overdue = true })
