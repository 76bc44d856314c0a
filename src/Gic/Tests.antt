-- ===== src/Gic/Tests.antt =====
-- crates/amber-hvf/src/gicv2.rs: the GIC theorems at concrete inputs, for one CPU whose timer line
-- (27) is high.
use amber.Gic.{
  GicV2, CpuBank, default_bank, with_cpus, num_intid, highest_pending, highest_loop, deliverable,
  better, enabled_at, active_at, priority_at, edge_at, is_pending, running_prio, put_bank,
  gic_taken, bank_taken, gic_ended, bank_ended, acknowledge, end_of_interrupt, iar_value, set_level,
}
use amber.Gic.Blob.{capture, restore}
use amber.Gic.Restore.{IsBank, restore-capture_gic}
use amber.Gic.Deliver.{IsBest, highest_pending-IsBest}
use amber.Gic.Stack.{acknowledge-end_of_interrupt}
use amber.Gic.Events.{IsNested, with_cpus-Reach-IsNested, here, later, drives}
use amber.Prelude.{
  arith, ◌≤◌, ◌<◌, ◌≡◌, refl, true, false, none, some, [], ◌∷◌, length, set, replicate, All,
}

abbrev timer_bank : CpuBank
timer_bank = record default_bank {
  cpu_enabled = true;
  pmr = 0xf0;
  enabled = set (replicate 32 false) 27 true;
  level = set (replicate 32 false) 27 true;
  priority = set (replicate 32 0) 27 0xa0;
}

abbrev timer_gic : GicV2
timer_gic = record {
  dist_enabled = true;
  cpus = timer_bank ∷ [];
  enabled = replicate 256 false;
  pending = replicate 256 false;
  active = replicate 256 false;
  priority = replicate 256 0;
  level = replicate 256 false;
  edge = replicate 256 false;
  targets = replicate 256 1;
}

highest_pending-IsBest_example :
    IsBest timer_gic 0 timer_bank num_intid (highest_pending timer_gic 0 timer_bank)
highest_pending-IsBest_example = highest_pending-IsBest timer_gic 0 timer_bank refl

timer_first : highest_pending timer_gic 0 timer_bank ≡ some (27, 0xa0)
unfolding highest_pending highest_loop deliverable better enabled_at active_at priority_at edge_at
    is_pending running_prio
timer_first = refl

acknowledge-end_of_interrupt_example :
    let taken = put_bank (gic_taken timer_gic 27) 0 (bank_taken timer_bank 27 0xa0) in
    let ended = put_bank (gic_ended taken 27) 0 (bank_ended (bank_taken timer_bank 27 0xa0) 27) in
    (acknowledge timer_gic 0 ≡ some (taken, iar_value timer_bank 27))
    × (deliverable taken 0 (bank_taken timer_bank 27 0xa0) 27 ≡ false)
    × (running_prio (bank_taken timer_bank 27 0xa0) ≡ 0xa0)
    × (0xa0 < running_prio timer_bank)
    × (end_of_interrupt taken 0 27 ≡ some ended)
    × (active_at ended (bank_ended (bank_taken timer_bank 27 0xa0) 27) 27 ≡ false)
    × ((bank_ended (bank_taken timer_bank 27 0xa0) 27).running ≡ timer_bank.running)
acknowledge-end_of_interrupt_example =
    acknowledge-end_of_interrupt timer_gic 0 timer_bank 27 0xa0 refl
      (record { shared = refl; banked = refl }) timer_first

abbrev driven : GicV2
driven = elim (set_level (with_cpus 1) 0 27 true) [ none ↦ with_cpus 1 | some g ↦ g ]

with_cpus-Reach-IsNested_example : IsNested driven × All (λ b. length b.running ≤ 255) driven.cpus
unfolding set_level with_cpus
with_cpus-Reach-IsNested_example = with_cpus-Reach-IsNested 1 (later here (drives 0 27 true refl))

abbrev timer-IsBank : IsBank timer_bank
timer-IsBank = record {
  enabled = refl;
  pending = refl;
  active = refl;
  priority = refl;
  level = refl;
  edge = refl;
  sgi_src = refl;
  depth = omega arith;
}

restore-capture_gic_example : restore (with_cpus 1) (capture timer_gic) ≡ timer_gic
unfolding with_cpus
restore-capture_gic_example =
    restore-capture_gic timer_gic (with_cpus 1)
      (record {
        some_cpu = omega arith;
        few_cpus = omega arith;
        banks = (timer-IsBank, tt);
        enabled = refl;
        pending = refl;
        active = refl;
        priority = refl;
        level = refl;
        edge = refl;
        targets = refl;
      })
      (omega arith)
