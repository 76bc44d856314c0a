-- ===== src/Fleet.antt =====
-- crates/amber/src/daemon.rs: the daemon's registry of VMs, its warm pool and admission under the
-- fleet's RAM budget. The registry and the pool are maps in the source; here they are lists, the pool
-- in the order in which the map is walked. The id "vm<n>" is its number. A kill flag that is raised on
-- an entry which leaves the registry is kept in `killed`. The manifest is read anew at each admission:
-- what it gives is `ram` and `budget`. Each definition runs under the locks that the source holds.
pub mod Within
pub mod Reach
pub mod Evict
pub mod Fork
pub mod Tests
use amber.Prelude.{
  ℕ, zero, suc, ◌+◌, ◌-◌, ◌*◌, ◌/◌, ◌%◌, ◌^◌, ◌≤◌, ◌<◌, min, max, bit_and, bit_or, ◌≡◌, refl, sym,
  ap, ◌∙◌, ◌≢◌, ◌↔◌, ◌⊎◌, inl, inr, Bool, true, false, not, ◌&&◌, ◌||◌, Option, none, some, List,
  [], ◌∷◌, ◌++◌, map, append-nil, append_assoc, arith, ltb, leb, ◌==◌, if◌then◌else◌, Bool-cases,
  Option-cases, ◌>>=◌, is_some, length, get_elem?, get_or, set, take, drop, replicate, All, IsByte,
  keep, length-append, length-set, All-append, All-set, All-get_elem?, wrapping_add, wrapping_sub,
  not_u32, to_le, from_le, ==_iff, ltb→lt, lt→ltb, leb→le, le→leb, length-take, length-drop,
  length-replicate,
}
use Prim.Native.String.{String}
use text.Mathlib.Text.{◌==◌ as str_eq}

pub record VmEntry : Type 0 where
  pub id : ℕ
  pub reference : String
  pub pid : ℕ
  pub ram_bytes : ℕ
  pub paused : Bool
  pub kill : Bool
  pub control : Bool
  pub console : Bool
  pub vsock : Bool

pub record Fleet : Type 0 where
  pub registry : List VmEntry
  pub pool : List (String × List ℕ)
  pub counter : ℕ
  pub killed : List ℕ

-- What `vm_ram_bytes` and `ram_budget` find in the manifest.
pub record Manifest : Type 0 where
  pub ram : String → ℕ
  pub budget : Option ℕ

pub data Admission : Type 0 where
  admitted : ℕ → Admission
  refused : ℕ → ℕ → ℕ → Admission

-- The map operations on the registry.
abbrev pub find_vm : List VmEntry → ℕ → Option VmEntry
find_vm [] id = none
find_vm (e ∷ es) id = if e.id == id then some e else find_vm es id

abbrev pub remove_vm : List VmEntry → ℕ → List VmEntry
remove_vm [] id = []
remove_vm (e ∷ es) id = let rest = remove_vm es id in if e.id == id then rest else e ∷ rest

abbrev pub insert_vm : List VmEntry → VmEntry → List VmEntry
insert_vm es e = e ∷ remove_vm es e.id

abbrev pub update_vm : List VmEntry → ℕ → (VmEntry → VmEntry) → List VmEntry
update_vm [] id f = []
update_vm (e ∷ es) id f = (if e.id == id then f e else e) ∷ update_vm es id f

abbrev pub used_ram : List VmEntry → ℕ
used_ram [] = 0
used_ram (e ∷ es) = e.ram_bytes + used_ram es

-- The budget check of an admission; the sums are u64 values.
unfoldable pub over_budget : Manifest → List VmEntry → ℕ → Option (ℕ × ℕ × ℕ)
over_budget man reg requested = elim man.budget [
  | none ↦ none
  | some budget ↦
      if ltb budget (wrapping_add 64 (used_ram reg % 2 ^ 64) requested)
      then some (budget, used_ram reg % 2 ^ 64, requested)
      else none
]

-- The entry of a VM that has no process yet.
abbrev pub reserved : ℕ → String → ℕ → VmEntry
reserved id reference ram_bytes = record {
  id = id;
  reference = reference;
  pid = 0;
  ram_bytes = ram_bytes;
  paused = false;
  kill = false;
  control = false;
  console = false;
  vsock = false;
}

unfoldable pub reserve : Manifest → Fleet → String → Fleet × Admission
reserve man f reference =
    let id = wrapping_add 64 f.counter 1 in
    elim (over_budget man f.registry (man.ram reference)) [
      | some (budget, used, requested) ↦ (f, refused budget used requested)
      | none ↦ (
        record f {
          registry = insert_vm f.registry (reserved id reference (man.ram reference));
          counter = id;
        },
        admitted id,
      )
    ]

-- `p.values_mut().find_map(|v| v.pop())`: the last id of the first list that has one.
abbrev pub last : ℕ → List ℕ → ℕ
last id [] = id
last id (i ∷ ids) = last i ids

abbrev pub init : ℕ → List ℕ → List ℕ
init id [] = []
init id (i ∷ ids) = id ∷ init i ids

unfoldable pub pop_pooled : List (String × List ℕ) → Option (ℕ × List (String × List ℕ))
pop_pooled [] = none
pop_pooled ((template, []) ∷ pool) = do r ← pop_pooled pool; some (r.0, (template, []) ∷ r.1)
pop_pooled ((template, id ∷ ids) ∷ pool) = some (last id ids, (template, init id ids) ∷ pool)

unfoldable pub evict_one_pooled : Fleet → Fleet × Bool
evict_one_pooled f = elim (pop_pooled f.pool) [
  | none ↦ (f, false)
  | some (id, pool) ↦ (
    record f {
      registry = remove_vm f.registry id;
      pool = pool;
      killed = if is_some (find_vm f.registry id) then id ∷ f.killed else f.killed;
    },
    true,
  )
]

-- `none` is the fuel running out.
unfoldable pub reserve_with_evict : ℕ → Manifest → Fleet → String → Option (Fleet × Admission)
reserve_with_evict zero man f reference = none
reserve_with_evict (suc fuel) man f reference =
    let r = reserve man f reference in
    let e = evict_one_pooled f in
    elim r.1 [
      | admitted id ↦ some r
      | refused budget used requested ↦ elim e.1 [
        | true ↦ reserve_with_evict fuel man e.0 reference
        | false ↦ some r
      ]
    ]

unfoldable pub set_runtime : Fleet → ℕ → ℕ → Fleet
set_runtime f id pid = record f {
  registry = update_vm f.registry id (λ e. record e { pid = pid; control = true });
}

-- A supervisor's end, or a kill that found no process: the entry goes.
unfoldable pub forget : Fleet → ℕ → Fleet
forget f id = record f { registry = remove_vm f.registry id }

-- How the host's steps of staging a worker go: the log file and the path of this program, the control
-- socket, the process (its pid), and the worker's ready byte.
pub record Staging : Type 0 where
  pub logs : Bool
  pub attach : Bool
  pub spawn : Option ℕ
  pub warm : Bool

-- A worker that has been spawned: it is kept if it warms.
unfoldable pub warm_worker : Fleet → ℕ → ℕ → Bool → Fleet × Option ℕ
warm_worker f id pid warm =
    let g = record f { registry = update_vm f.registry id (λ e. record e { pid = pid }) } in
    if warm
    then (
      record g {
        registry =
            update_vm g.registry id
              (λ e. record e { pid = pid; control = true; console = true; vsock = true });
      },
      some id,
    )
    else (forget g id, none)

-- The steps after the admission. A failure of the log file or of the program's path returns at once.
unfoldable pub stage : Fleet → ℕ → Staging → Fleet × Option ℕ
stage f id s =
    if not s.logs
    then (f, none)
    else if not s.attach
    then (forget f id, none)
    else elim s.spawn [ none ↦ (forget f id, none) | some pid ↦ warm_worker f id pid s.warm ]

unfoldable pub spawn_paused : Manifest → Fleet → String → Staging → Fleet × Option ℕ
spawn_paused man f template s =
    let r = reserve man f template in
    elim r.1 [ refused budget used requested ↦ (r.0, none) | admitted id ↦ stage r.0 id s ]

pub data Reply : Type 0 where
  acknowledged : Reply
  no_such_vm : Reply
  no_channel : Reply
  write_failed : Reply

-- `wrote` is whether the frame reaches the VM's channel.
unfoldable pub control_op : Fleet → ℕ → Bool → Option Bool → Fleet × Reply
control_op f id wrote set_paused = elim (find_vm f.registry id) [
  | none ↦ (f, no_such_vm)
  | some e ↦
      if not e.control
      then (f, no_channel)
      else if not wrote
      then (f, write_failed)
      else elim set_paused [
        | none ↦ (f, acknowledged)
        | some p ↦ (
          record f { registry = update_vm f.registry id (λ e. record e { paused = p }) },
          acknowledged,
        )
      ]
]

-- `pool.get_mut(template).and_then(|v| v.pop())`.
unfoldable pub pop_template : List (String × List ℕ) → String → Option (ℕ × List (String × List ℕ))
pop_template [] template = none
pop_template ((t, ids) ∷ pool) template =
    if str_eq t template
    then (elim ids [ [] ↦ none | i ∷ is ↦ some (last i is, (t, init i is) ∷ pool) ])
    else (do r ← pop_template pool template; some (r.0, (t, ids) ∷ r.1))

-- `pool.entry(template).or_default().push(id)`.
unfoldable pub push_template : List (String × List ℕ) → String → ℕ → List (String × List ℕ)
push_template [] template id = (template, id ∷ []) ∷ []
push_template ((t, ids) ∷ pool) template id =
    if str_eq t template
    then (t, ids ++ (id ∷ [])) ∷ pool
    else (t, ids) ∷ push_template pool template id

-- `handle_fork` up to the release: a warm worker, or one staged now.
unfoldable pub take_worker : Manifest → Fleet → String → Staging → Fleet × Option ℕ
take_worker man f template s = elim (pop_template f.pool template) [
  | some (id, pool) ↦ (record f { pool = pool }, some id)
  | none ↦ spawn_paused man f template s
]

-- The console pipes leave the entry; then the go byte is written, if there is a channel for it.
unfoldable pub release_worker : Fleet → ℕ → Bool → Fleet × Bool
release_worker f id wrote =
    let g = record f { registry = update_vm f.registry id (λ e. record e { console = false }) } in
    (g, elim (find_vm g.registry id) [ none ↦ false | some e ↦ e.control && wrote ])

unfoldable pub pooled_for : List (String × List ℕ) → String → ℕ
pooled_for [] template = 0
pooled_for ((t, ids) ∷ pool) template =
    if str_eq t template then length ids else pooled_for pool template

-- `refill_pool`, over the host's answers to the stagings that it tries.
unfoldable pub refill_pool : Manifest → ℕ → Fleet → String → List Staging → Fleet
refill_pool man target f template [] = f
refill_pool man target f template (s ∷ stagings) =
    let r = spawn_paused man f template s in
    let full = leb target (pooled_for f.pool template) in
    if full then f else elim r.1 [
      | none ↦ r.0
      | some id ↦
          refill_pool man target (record r.0 { pool = push_template r.0.pool template id }) template
            stagings
    ]

-- One fork: take a worker, release it, and refill the pool; `none` is an error reply.
unfoldable pub handle_fork :
    Manifest → ℕ → Fleet → String → Staging → Bool → List Staging → Fleet × Option ℕ
handle_fork man target f template s wrote stagings =
    let taken = take_worker man f template s in
    elim taken.1 [
      | none ↦ (taken.0, none)
      | some id ↦
          let released = release_worker taken.0 id wrote in
          if released.1
          then (refill_pool man target released.0 template stagings, some id)
          else (released.0, none)
    ]
