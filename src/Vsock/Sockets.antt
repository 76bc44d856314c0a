-- ===== src/Vsock/Sockets.antt =====
-- crates/amber-core/src/vsock.rs: what the device relies on of its backend and of the host's sockets.
use amber.Prelude.{ℕ, ◌≤◌, ◌≡◌, Option, List, length}

-- What a non-blocking write and read answer.
pub data WriteResult : Type 0 where
  wrote : ℕ → WriteResult
  write_blocked : WriteResult
  write_failed : WriteResult

pub data ReadResult : Type 0 where
  got : List ℕ → ReadResult
  read_blocked : ReadResult
  read_failed : ReadResult

-- `VsockBackend`, `UnixStream::write` and `read`, and `VecDeque::as_slices`, whose first slice is a
-- prefix that depends on how the queue lies in memory.
pub record Host (W S : Type 0) : Type 0 where
  pub dial : W → ℕ → W × Option S
  pub accept : W → W × Option (ℕ × S)
  pub write : W → S → List ℕ → W × WriteResult
  pub read : W → S → ℕ → W × ReadResult
  pub first_slice : W → List ℕ → ℕ

-- A write takes at most the bytes given, a read gives at most the bytes asked for.
pub record IsDocumented {W S : Type 0} (host : Host W S) : Type 0 where
  pub write_takes :
      (w : W) (s : S) (bytes : List ℕ) (n : ℕ)
      → (host.write w s bytes).1 ≡ wrote n
      → n ≤ length bytes
  pub read_gives :
      (w : W) (s : S) (room : ℕ) (bytes : List ℕ)
      → (host.read w s room).1 ≡ got bytes
      → length bytes ≤ room
