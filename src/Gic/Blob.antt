-- ===== src/Gic/Blob.antt =====
-- crates/amber-hvf/src/gicv2.rs: the snapshot blob, `capture` and `restore`. A writer puts its bytes
-- before those that follow; a reader takes bytes off the front, and reads 0 at the end. The source
-- keeps `running` with its top last, so it is reversed on the way out and in.
use amber.Gic.{GicV2, CpuBank, default_bank, max_cpus}
use amber.Prelude.{
  ℕ, zero, suc, ◌-◌, ◌%◌, ◌^◌, min, max, Bool, not, List, [], ◌∷◌, ◌++◌, ◌==◌, if◌then◌else◌,
  length, take, drop, replicate,
}

unfoldable pub reversed : List ℕ → List ℕ
reversed [] = []
reversed (x ∷ xs) = reversed xs ++ (x ∷ [])

unfoldable pub put_flags : List Bool → List ℕ → List ℕ
put_flags [] rest = rest
put_flags (f ∷ fs) rest = (if f then 1 else 0) ∷ put_flags fs rest

unfoldable pub put_running : List ℕ → List ℕ → List ℕ
put_running running rest =
    let n = min (length running) 255 in n ∷ (take n (reversed running) ++ rest)

unfoldable pub capture_bank : CpuBank → List ℕ → List ℕ
capture_bank b rest =
    (if b.cpu_enabled then 1 else 0)
    ∷ b.pmr
    ∷ put_flags b.enabled (
        put_flags b.pending (
          put_flags b.active (
            put_flags b.level
              (put_flags b.edge (b.priority ++ (b.sgi_src ++ put_running b.running rest))))))

unfoldable pub capture_banks : List CpuBank → List ℕ → List ℕ
capture_banks [] rest = rest
capture_banks (b ∷ banks) rest = capture_bank b (capture_banks banks rest)

unfoldable pub capture_shared : GicV2 → List ℕ
capture_shared g = put_flags g.enabled (
    put_flags g.pending
      (put_flags g.active (put_flags g.level (put_flags g.edge (g.priority ++ g.targets)))))

-- The magic 0xa2 and version 2.
unfoldable pub capture : GicV2 → List ℕ
capture g =
    0xa2
    ∷ 2
    ∷ length g.cpus % 2 ^ 8
    ∷ (if g.dist_enabled then 1 else 0)
    ∷ capture_banks g.cpus (capture_shared g)

abbrev pub next : List ℕ → ℕ × List ℕ
next [] = (0, [])
next (b ∷ bs) = (b, bs)

abbrev pub next_flag : List ℕ → Bool × List ℕ
next_flag s = let r = next s in (not (r.0 == 0), r.1)

unfoldable pub take_bytes : ℕ → List ℕ → List ℕ × List ℕ
take_bytes zero s = ([], s)
take_bytes (suc n) s = let r = next s in let more = take_bytes n r.1 in (r.0 ∷ more.0, more.1)

unfoldable pub take_flags : ℕ → List ℕ → List Bool × List ℕ
take_flags zero s = ([], s)
take_flags (suc n) s = let r = next_flag s in let more = take_flags n r.1 in (r.0 ∷ more.0, more.1)

unfoldable pub take_running : List ℕ → List ℕ × List ℕ
take_running s = let n = next s in let r = take_bytes n.0 n.1 in (reversed r.0, r.1)

unfoldable pub restore_bank : List ℕ → CpuBank × List ℕ
restore_bank s =
    let cpu_enabled = next_flag s in
    let pmr = next cpu_enabled.1 in
    let enabled = take_flags 32 pmr.1 in
    let pending = take_flags 32 enabled.1 in
    let active = take_flags 32 pending.1 in
    let level = take_flags 32 active.1 in
    let edge = take_flags 32 level.1 in
    let priority = take_bytes 32 edge.1 in
    let sgi_src = take_bytes 16 priority.1 in
    let running = take_running sgi_src.1 in
    (
      record {
        cpu_enabled = cpu_enabled.0;
        pmr = pmr.0;
        running = running.0;
        enabled = enabled.0;
        pending = pending.0;
        active = active.0;
        priority = priority.0;
        level = level.0;
        edge = edge.0;
        sgi_src = sgi_src.0;
      },
      running.1,
    )

unfoldable pub restore_banks : ℕ → List ℕ → List CpuBank × List ℕ
restore_banks zero s = ([], s)
restore_banks (suc n) s =
    let b = restore_bank s in let more = restore_banks n b.1 in (b.0 ∷ more.0, more.1)

unfoldable pub restore_shared : Bool → List CpuBank → List ℕ → GicV2
restore_shared dist_enabled cpus s =
    let enabled = take_flags 256 s in
    let pending = take_flags 256 enabled.1 in
    let active = take_flags 256 pending.1 in
    let level = take_flags 256 active.1 in
    let edge = take_flags 256 level.1 in
    let priority = take_bytes 256 edge.1 in
    record {
      dist_enabled = dist_enabled;
      cpus = cpus;
      enabled = enabled.0;
      pending = pending.0;
      active = active.0;
      priority = priority.0;
      level = level.0;
      edge = edge.0;
      targets = (take_bytes 256 priority.1).0;
    }

-- The banks that the blob holds; more vcpus than these keep default banks.
unfoldable pub restore_v2 : GicV2 → List ℕ → GicV2
restore_v2 g blob =
    let count = next (drop 2 blob) in
    let ncpu = min (max count.0 1) max_cpus in
    let dist_enabled = next_flag count.1 in
    let banks = restore_banks ncpu dist_enabled.1 in
    restore_shared dist_enabled.0
      (banks.0 ++ replicate (max ncpu (length g.cpus) - ncpu) default_bank) banks.1

-- The single-CPU layout: the first 32 of each array go to CPU 0, the others to the shared block,
-- whose own first 32 stay.
unfoldable pub restore_legacy : GicV2 → List ℕ → GicV2
restore_legacy g blob =
    let dist_enabled = next_flag blob in
    let cpu_enabled = next_flag dist_enabled.1 in
    let pmr = next cpu_enabled.1 in
    let enabled = take_flags 256 pmr.1 in
    let pending = take_flags 256 enabled.1 in
    let active = take_flags 256 pending.1 in
    let level = take_flags 256 active.1 in
    let edge = take_flags 256 level.1 in
    let priority = take_bytes 256 edge.1 in
    record g {
      dist_enabled = dist_enabled.0;
      cpus =
          record default_bank {
            cpu_enabled = cpu_enabled.0;
            pmr = pmr.0;
            running = (take_running priority.1).0;
            enabled = take 32 enabled.0;
            pending = take 32 pending.0;
            active = take 32 active.0;
            priority = take 32 priority.0;
            level = take 32 level.0;
            edge = take 32 edge.0;
          }
          ∷ [];
      enabled = take 32 g.enabled ++ drop 32 enabled.0;
      pending = take 32 g.pending ++ drop 32 pending.0;
      active = take 32 g.active ++ drop 32 active.0;
      priority = take 32 g.priority ++ drop 32 priority.0;
      level = take 32 g.level ++ drop 32 level.0;
      edge = take 32 g.edge ++ drop 32 edge.0;
      targets = replicate 256 1;
    }

unfoldable pub restore : GicV2 → List ℕ → GicV2
restore g blob = if (next blob).0 == 0xa2 then restore_v2 g blob else restore_legacy g blob
