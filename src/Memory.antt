-- ===== src/Memory.antt =====
-- crates/amber-core/src/memory.rs: guest RAM and the bounds-checked views that devices hold.
-- `host` is the mapped host memory as a function of the offset from the host pointer, so that an
-- access past `len` could be told from one inside. A view is a copy of the three fields: all views
-- of one `GuestMemory` share its bytes, and the state is passed on by each write.
-- `usize` and `u64` have 64 bits.
pub mod Cells
pub mod Access
pub mod Typed
pub mod Tests
use amber.Prelude.{
  ℕ, ◌+◌, ◌-◌, ◌^◌, ◌<◌, Bool, true, false, Option, none, some, List, [], ◌∷◌, if◌then◌else◌, ltb,
  leb, length, replicate, ◌>>=◌, is_some, to_le, from_le,
}
unfoldable pub use Cells.{cells, overwrite}

pub record GuestMemory : Type 0 where
  pub host : ℕ → ℕ
  pub len : ℕ
  pub base : ℕ

pub record GuestRam : Type 0 where
  pub host : ℕ → ℕ
  pub base : ℕ
  pub len : ℕ

-- `u64::checked_sub` and `usize::checked_add`.
abbrev pub checked_sub : ℕ → ℕ → Option ℕ
checked_sub a b = if leb b a then some (a - b) else none

abbrev pub checked_add : ℕ → ℕ → Option ℕ
checked_add a b = if ltb (a + b) (2 ^ 64) then some (a + b) else none

-- The pages of a fresh mapping read as zero.
unfoldable pub new : ℕ → ℕ → GuestMemory
new base len = record { host = λ o. 0; len = len; base = base }

unfoldable pub ram : GuestMemory → GuestRam
ram m = record { host = m.host; base = m.base; len = m.len }

-- `GuestMemory::write`; `none` is its `Error::Loader`.
unfoldable pub write_image : GuestMemory → ℕ → List ℕ → Option GuestMemory
write_image m gpa bytes = do
  off ← checked_sub gpa m.base
  end ← checked_add off (length bytes)
  if leb end m.len then some (record m { host = overwrite m.host off bytes }) else none

unfoldable pub offset : GuestRam → ℕ → ℕ → Option ℕ
offset r gpa n = do
  off ← checked_sub gpa r.base
  end ← checked_add off n
  if leb end r.len then some off else none

unfoldable pub in_range : GuestRam → ℕ → ℕ → Bool
in_range r gpa n = is_some (offset r gpa n)

-- The offset of the host pointer that `host_ptr_at` returns.
unfoldable pub host_ptr_at : GuestRam → ℕ → ℕ → Option ℕ
host_ptr_at r gpa len = offset r gpa len

-- `read` fills the buffer that it is given, or leaves it and answers false.
unfoldable pub read : GuestRam → ℕ → List ℕ → Bool × List ℕ
read r gpa buf = elim (offset r gpa (length buf)) [
  | some off ↦ (true, cells r.host off (length buf))
  | none ↦ (false, buf)
]

unfoldable pub write : GuestRam → ℕ → List ℕ → GuestRam × Bool
write r gpa buf = elim (offset r gpa (length buf)) [
  | some off ↦ (record r { host = overwrite r.host off buf }, true)
  | none ↦ (r, false)
]

-- The typed reads ignore the answer: a buffer of zeros stays as it is.
unfoldable pub read_u16 : GuestRam → ℕ → ℕ
read_u16 r gpa = from_le (read r gpa (replicate 2 0)).1

unfoldable pub read_u32 : GuestRam → ℕ → ℕ
read_u32 r gpa = from_le (read r gpa (replicate 4 0)).1

unfoldable pub read_u64 : GuestRam → ℕ → ℕ
read_u64 r gpa = from_le (read r gpa (replicate 8 0)).1

unfoldable pub write_u16 : GuestRam → ℕ → ℕ → GuestRam
write_u16 r gpa v = (write r gpa (to_le 2 v)).0

unfoldable pub write_u32 : GuestRam → ℕ → ℕ → GuestRam
write_u32 r gpa v = (write r gpa (to_le 4 v)).0
