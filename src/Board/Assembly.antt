-- ===== src/Board/Assembly.antt =====
-- crates/amber-core/src/vm.rs: the devices that `Vm::prepare` puts on the board and those that `Vm::restore_from`
-- puts there from a snapshot (Recreate proves them alike). The host answers whether a file opens and a socket binds; an error is
-- `none`. What `run` captures of the device set is `captured`.
use amber.Prelude.{
  ℕ, Bool, true, false, ◌&&◌, Option, none, some, List, [], ◌∷◌, ◌++◌, ◌==◌, if◌then◌else◌, ◌>>=◌,
  length,
}
use Prim.Native.String.{String}

-- The device at a window.
pub data Kind : Type 0 where
  blk : String → Bool → Kind
  entropy : Kind
  network : Kind
  vsock : String → Kind
  balloon : Kind

pub record Host : Type 0 where
  pub opens : String → Bool
  pub binds : String → Bool
  pub entropy_opens : Bool

pub record VmConfig : Type 0 where
  pub disk : Option String
  pub data_disks : List (String × Bool)
  pub vsock : Option String

-- What the snapshot keeps: the root disk, whether there were a network and a vsock device, and the
-- number of virtio states.
pub record Meta : Type 0 where
  pub disk : Option String
  pub net : Bool
  pub vsock : Bool
  pub virtio : ℕ

unfoldable pub open_root : Host → Option String → Option (List Kind)
open_root host none = some []
open_root host (some path) = if host.opens path then some (blk path false ∷ []) else none

unfoldable pub open_data : Host → List (String × Bool) → Option (List Kind)
open_data host [] = some []
open_data host ((path, writable) ∷ disks) =
    let rest = open_data host disks in
    if host.opens path then (do ks ← rest; some (blk path writable ∷ ks)) else none

-- A vsock socket that cannot be bound is left out with a warning.
unfoldable pub bind_vsock : Host → Option String → List Kind
bind_vsock host none = []
bind_vsock host (some path) = if host.binds path then vsock path ∷ [] else []

abbrev pub net_device : Bool → List Kind
net_device true = network ∷ []
net_device false = []

-- The devices, if the entropy source opens.
unfoldable pub assembled : Host → List Kind → Option (List Kind)
assembled host ks = if host.entropy_opens then some ks else none

unfoldable pub prepare : Host → VmConfig → Bool → Option (List Kind)
prepare host cfg net = do
  root ← open_root host cfg.disk
  disks ← open_data host cfg.data_disks
  assembled host (
      root
      ++ (disks ++ (entropy ∷ (net_device net ++ (bind_vsock host cfg.vsock ++ (balloon ∷ []))))))

-- Whether a device of the kind is there: `any(|d| d.mmio.device_id() == id)`.
abbrev pub has_net : List Kind → Bool
has_net [] = false
has_net (network ∷ ks) = true
has_net (blk path writable ∷ ks) = has_net ks
has_net (entropy ∷ ks) = has_net ks
has_net (vsock path ∷ ks) = has_net ks
has_net (balloon ∷ ks) = has_net ks

abbrev pub has_vsock : List Kind → Bool
has_vsock [] = false
has_vsock (vsock path ∷ ks) = true
has_vsock (blk path writable ∷ ks) = has_vsock ks
has_vsock (entropy ∷ ks) = has_vsock ks
has_vsock (network ∷ ks) = has_vsock ks
has_vsock (balloon ∷ ks) = has_vsock ks

unfoldable pub captured : VmConfig → List Kind → Meta
captured cfg ks = record {
  disk = cfg.disk;
  net = has_net ks;
  vsock = has_vsock ks;
  virtio = length ks;
}

-- A device that the snapshot had and that gets no backend is an error.
unfoldable pub recreate_net : Bool → Bool → Option (List Kind)
recreate_net false backend = some []
recreate_net true backend = if backend then some (network ∷ []) else none

unfoldable pub recreate_vsock : Host → Bool → Option String → Option (List Kind)
recreate_vsock host false path = some []
recreate_vsock host true none = none
recreate_vsock host true (some path) = if host.binds path then some (vsock path ∷ []) else none

-- The backstop: as many devices as the snapshot has states.
unfoldable pub checked : Host → Meta → List Kind → Option (List Kind)
checked host meta ks = if host.entropy_opens && (length ks == meta.virtio) then some ks else none

unfoldable pub restore_from : Host → Meta → Bool → Option String → Option (List Kind)
restore_from host meta backend path = do
  root ← open_root host meta.disk
  ns ← recreate_net meta.net backend
  vs ← recreate_vsock host meta.vsock path
  checked host meta (root ++ (entropy ∷ (ns ++ (vs ++ (balloon ∷ [])))))
