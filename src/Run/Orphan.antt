-- ===== src/Run/Orphan.antt =====
-- crates/amber-core/src/vm.rs: what becomes of the VM when the daemon's control channel ends.
use amber.Prelude.{ℕ, ◌≡◌, refl, ◌⊎◌, inl, inr, true, false}
use amber.Run.{
  gate, Machine, PrimaryStep, SecondaryStep, ControlStep, Steps, loop_on, loop_ends, unpaused,
  enter, traps, forced, fails, clock_turn, halt, due_alone, due, quiesced, late, written, ends,
  deposit, capture_fails, wakes, unwanted, passes, exits, stops, hangup, cut, balloon, pause,
  resume, reader_ends, primary_turn, secondary_turn, control_turn, none_yet, then_step,
}

-- The primary waits at the gate, and no thread is left to open it.
pub record IsStranded (m : Machine) : Type 0 where
  pub waits : m.primary ≡ gate
  pub closed : m.paused ≡ true
  pub unread : m.reader ≡ false

PrimaryStep-IsStranded : (m m' : Machine) → PrimaryStep m m' → IsStranded m → IsStranded m'
PrimaryStep-IsStranded _ _ (loop_on m a b) k = absurd (cc (a, k.waits))
PrimaryStep-IsStranded _ _ (loop_ends m a b) k = absurd (cc (a, k.waits))
PrimaryStep-IsStranded _ _ (unpaused m a b) k = absurd (cc (b, k.closed))
PrimaryStep-IsStranded _ _ (enter m a) k = absurd (cc (a, k.waits))
PrimaryStep-IsStranded _ _ (fails m a) k = absurd (cc (a, k.waits))
PrimaryStep-IsStranded _ _ (forced m a b) k = absurd (cc (a, k.waits))
PrimaryStep-IsStranded _ _ (traps m a) k = absurd (cc (a, k.waits))
PrimaryStep-IsStranded _ _ (halt m a) k = absurd (cc (a, k.waits))
PrimaryStep-IsStranded _ _ (due_alone m a b) k = absurd (cc (a, k.waits))
PrimaryStep-IsStranded _ _ (due m a b) k = absurd (cc (a, k.waits))
PrimaryStep-IsStranded _ _ (quiesced m a b) k = absurd (cc (a, k.waits))
PrimaryStep-IsStranded _ _ (late m a b) k = absurd (cc (a, k.waits))
PrimaryStep-IsStranded _ _ (written m a) k = absurd (cc (a, k.waits))

SecondaryStep-IsStranded :
    (i : ℕ) (m m' : Machine) → SecondaryStep i m m' → IsStranded m → IsStranded m'
SecondaryStep-IsStranded i _ _ (ends m a b) k = record {
  waits = k.waits;
  closed = k.closed;
  unread = k.unread;
}
SecondaryStep-IsStranded i _ _ (deposit m a b c) k = record {
  waits = k.waits;
  closed = k.closed;
  unread = k.unread;
}
SecondaryStep-IsStranded i _ _ (capture_fails m a b) k = record {
  waits = k.waits;
  closed = k.closed;
  unread = k.unread;
}
SecondaryStep-IsStranded i _ _ (wakes m a) k = record {
  waits = k.waits;
  closed = k.closed;
  unread = k.unread;
}
SecondaryStep-IsStranded i _ _ (unwanted m a b c) k = record {
  waits = k.waits;
  closed = k.closed;
  unread = k.unread;
}
SecondaryStep-IsStranded i _ _ (passes m a b) k = record {
  waits = k.waits;
  closed = k.closed;
  unread = k.unread;
}
SecondaryStep-IsStranded i _ _ (exits m a) k = record {
  waits = k.waits;
  closed = k.closed;
  unread = k.unread;
}
SecondaryStep-IsStranded i _ _ (stops m a) k = record {
  waits = k.waits;
  closed = k.closed;
  unread = k.unread;
}

ControlStep-IsStranded : (m m' : Machine) → ControlStep m m' → IsStranded m → IsStranded m'
ControlStep-IsStranded _ _ (hangup m a) k = absurd (cc (a, k.unread))
ControlStep-IsStranded _ _ (cut m a) k = absurd (cc (a, k.unread))
ControlStep-IsStranded _ _ (balloon m a) k = k
ControlStep-IsStranded _ _ (pause m a) k = absurd (cc (a, k.unread))
ControlStep-IsStranded _ _ (resume m a) k = absurd (cc (a, k.unread))
ControlStep-IsStranded _ _ (reader_ends m a) k = record {
  waits = k.waits;
  closed = k.closed;
  unread = refl;
}

Steps-IsStranded : (m m' : Machine) → Steps m m' → IsStranded m → IsStranded m'
Steps-IsStranded _ _ (none_yet m) k = k
Steps-IsStranded _ _ (then_step m m' m'' before (primary_turn a b s)) k =
    PrimaryStep-IsStranded m' m'' s (Steps-IsStranded m m' before k)
Steps-IsStranded _ _ (then_step m m' m'' before (secondary_turn i a b s)) k =
    SecondaryStep-IsStranded i m' m'' s (Steps-IsStranded m m' before k)
Steps-IsStranded _ _ (then_step m m' m'' before (control_turn a b s)) k =
    ControlStep-IsStranded m' m'' s (Steps-IsStranded m m' before k)
Steps-IsStranded _ _ (then_step m m' m'' before (clock_turn a)) k =
    let same = Steps-IsStranded m m' before k in
    record { waits = same.waits; closed = same.closed; unread = same.unread }

-- Once the control channel has ended, at a frame or inside a balloon frame, while the machine is paused and the
-- primary waits at the gate, the primary waits there in every later state: `run` never returns and the
-- process stays, with its RAM.
pub hangup-stranded :
    (m ended m' : Machine)
    → m.primary ≡ gate
    → m.paused ≡ true
    → m.reader ≡ true
    → (ended ≡ record m { running = false; yielding = true; reader = false })
      ⊎ (ended ≡ record m { reader = false })
    → Steps ended m'
    → m'.primary ≡ gate
hangup-stranded m ended m' waits closed reads (inl e) run =
    (Steps-IsStranded ended m' run
      (rw e (record { waits = waits; closed = closed; unread = refl }))).waits
hangup-stranded m ended m' waits closed reads (inr e) run =
    (Steps-IsStranded ended m' run
      (rw e (record { waits = waits; closed = closed; unread = refl }))).waits
