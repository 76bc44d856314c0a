-- ===== src/Run/Tests.antt =====
-- crates/amber-core/src/vm.rs: a snapshot of a machine with one secondary, and a hangup in a pause.
use amber.Prelude.{◌≡◌, refl, inl, true, false, [], ◌∷◌, arith}
use amber.Run.{
  head, guest, gate, ready, barrier, dumping, Machine, Steps, start, loop_on, unpaused, due,
  quiesced, deposit, primary_turn, secondary_turn, none_yet, then_step,
}
use amber.Run.Quiesce.{is_out, dumping-out}
use amber.Run.Orphan.{hangup-stranded}

abbrev at_gate : Machine
at_gate = record (start 1) { primary = gate }

abbrev at_ready : Machine
at_ready = record (start 1) { primary = ready }

abbrev at_barrier : Machine
at_barrier = record (start 1) { primary = barrier; want = true; yielding = true }

abbrev left : Machine
left = record at_barrier { secondaries = barrier ∷ []; slots = true ∷ [] }

abbrev writing : Machine
writing = record left { primary = dumping }

snapshot : Steps (start 1) writing
snapshot =
    then_step (start 1) left writing
      (then_step (start 1) at_barrier left
        (then_step (start 1) at_ready at_barrier
          (then_step (start 1) at_gate at_ready
            (then_step (start 1) (start 1) at_gate (none_yet (start 1))
              (primary_turn (start 1) at_gate (loop_on (start 1) refl refl)))
            (primary_turn at_gate at_ready (unpaused at_gate refl refl)))
          (primary_turn at_ready at_barrier (due at_ready refl (omega arith))))
        (secondary_turn 0 at_barrier left (deposit at_barrier refl refl refl)))
      (primary_turn left writing (quiesced left refl refl))

dumping-out_example : is_out barrier ≡ true
dumping-out_example = dumping-out 1 writing 0 barrier snapshot refl refl

abbrev paused_vm : Machine
paused_vm = record at_gate { paused = true; yielding = true }

abbrev orphan : Machine
orphan = record paused_vm { running = false; yielding = true; reader = false }

hangup-stranded_example : orphan.primary ≡ gate
hangup-stranded_example =
    hangup-stranded paused_vm orphan orphan refl refl refl (inl refl) (none_yet orphan)

-- A hangup while the guest runs.
abbrev in_guest : Machine
in_guest = record (start 1) { primary = guest }

abbrev ending : Machine
ending = record in_guest { running = false; yielding = true; reader = false }

abbrev back : Machine
back = record ending { primary = head }
