-- ===== src/Lib.antt =====
-- A model of amber (crates/): a virtual machine monitor whose devices serve a guest that is not
-- trusted. Every address, index and length in guest RAM is the guest's; the development shows what
-- the host code guarantees for all of them.
--
-- Parts and files.
--   Memory       crates/amber-core/src/memory.rs: guest RAM (`GuestMemory`) and the bounds-checked
--                views that devices hold (`GuestRam`), with typed little-endian accessors. The
--                mapped bytes are a function of the host offset; all views share them, so a write
--                returns the RAM that it leaves.
--   Virtqueue    crates/amber-core/src/virtio.rs: `collect_chain`, `push_used`, `next_rx_capacity`
--                and `inject_one`, the walks over rings in guest RAM.
--   Transport    crates/amber-core/src/virtio.rs: `VirtioMmio`, the register state machine around one
--                device, `process` (a notify), `pump_rx`, `capture` and `restore`. The trait
--                `VirtioDevice` is a record of functions over the device's state. Offsets are the
--                numbers of the register table; the access size is ignored, as in the source.
--   Devices      crates/amber-core/src/virtio.rs: the handlers of `BlkDevice`, `RngDevice` and
--                `BalloonDevice`, on the chains that Virtqueue collects.
--   Vsock        crates/amber-core/src/vsock.rs: the vsock packet protocol, its connections, credit
--                and host pump (`on_guest_packet`, `pump`, `poll_rx`, `handle`), over a backend and
--                sockets that are a record of functions with their documented answers.
--   Pl011        crates/amber-core/src/bus.rs: the console UART with its receive FIFO and the trigger
--                on console output.
--   Gic          crates/amber-hvf/src/gicv2.rs: the software GICv2, its register windows (Gic/Mmio),
--                delivery, acknowledge and end of interrupt, and the snapshot blob (Gic/Blob).
--                A panic on an absent CPU is `none`.
--                `running` has its top first where the source has it last.
--   Net          crates/amber-core/src/net.rs: the virtio-net device, over any frame backend and any rate
--                limiter.
--   Board        crates/amber-core/src/vm.rs: the devices at their MMIO windows (`dispatch_mmio`), the
--                interrupt lines, and the device sets of `Vm::prepare` and `Vm::restore_from`
--                (Board/Assembly). Devices share guest RAM: each access attaches the RAM as it is.
--   Run          crates/amber-core/src/vm.rs: the vcpu threads, the control reader, the pause gate and the
--                snapshot barrier of `Vm::run` as a step relation, one thread's turn a step. The flags that
--                make a guest exit are those of the HVF backend.
--   Boot         crates/amber-core/src/loader.rs: the kernel, the initramfs and the device tree put into guest
--                RAM. The device tree's bytes are an argument.
--   Proto        crates/amber/src/proto.rs: the frames of the control protocol over a stream of bytes.
--   Fleet        crates/amber/src/daemon.rs: the registry of VMs, admission under the RAM budget, the warm
--                pool, staging, forks and control frames. Maps are lists.
--   Nat          crates/amber-net/src/lib.rs: the flow table of the user-mode network with its egress policy,
--                the rewriting of addresses and the byte bridge. The TCP/IP stack is a parameter; a frame
--                is the fields that the filters read and rewrite.
--   Lockdown     crates/amber-core/src/lockdown.rs: the seccomp filter. The machine that runs it is a
--                function with its documented behaviour.
--   Cpio         crates/amber-image/src/cpio.rs: the writer of initramfs archives, up to the gzip encoder. A
--                string is its bytes.
--   Prelude      tests, lists over the native numbers, bit operations as arithmetic, words and bytes.
--
-- Conventions. A u8, u16, u32, u64 or usize (64 bits) is a natural number. Where the source wraps,
-- the wrap is written out (`% 2 ^ w`). A sequence of host calls is an argument of the definitions
-- that make them, or a record of functions over the host's state.
--
-- Fuel and bounds. `collect_chain` makes at most `qsz` rounds and a notify at most `qsz` rounds, as
-- in the source, by structural recursion. `pump_rx` runs until the device has no payload or the guest
-- no buffer; its fuel is enough where it exceeds the device's backlog, if that falls with each payload.
-- The drain of a vsock connection runs on the number of bytes buffered and its reads on the guest's
-- window; more fuel changes nothing. The loop of vsock accepts is `none` on too little fuel, and runs
-- as long as the host has peers. An admission with eviction runs on more than the number of warm
-- workers, each round but the last taking one. Padding to four bytes takes at most three rounds.
--
-- Not modelled. The host mapping calls (`mmap`, `munmap`, the file system), process and socket
-- I/O, logging, rate limits in floating point, the building of the device tree, the rest of the
-- image builder, Landlock and the macOS profile, the relay of DNS, CPU templates, the hypervisor
-- bindings, the JSON of requests and replies and the command line.
mod Prelude
pub mod Memory
pub mod Virtqueue
pub mod Transport
pub mod Gic
pub mod Pl011
pub mod Vsock
pub mod Devices
pub mod Boot
pub mod Nat
pub mod Lockdown
pub mod Cpio
pub mod Proto
pub mod Run
pub mod Board
pub mod Net
pub mod Fleet
