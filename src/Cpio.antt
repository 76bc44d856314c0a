-- ===== src/Cpio.antt =====
-- crates/amber-image/src/cpio.rs: the writer of an initramfs archive, byte for byte. The gzip encoder is a
-- third party's: `finish_gz` gives what it is fed. A string is its bytes.
pub mod Entries
pub mod Archive
pub mod Tests
use amber.Prelude.{
  ℕ, zero, suc, ◌+◌, ◌-◌, ◌*◌, ◌/◌, ◌%◌, ◌^◌, ◌≤◌, ◌<◌, min, max, bit_and, bit_or, ◌≡◌, refl, sym,
  ap, ◌∙◌, ◌≢◌, ◌↔◌, ◌⊎◌, inl, inr, Bool, true, false, not, ◌&&◌, ◌||◌, Option, none, some, List,
  [], ◌∷◌, ◌++◌, map, append-nil, append_assoc, arith, ltb, leb, ◌==◌, if◌then◌else◌, Bool-cases,
  Option-cases, ◌>>=◌, is_some, length, get_elem?, get_or, set, take, drop, replicate, All, IsByte,
  keep, length-append, length-set, All-append, All-set, All-get_elem?, wrapping_add, wrapping_sub,
  not_u32, to_le, from_le, ==_iff, ltb→lt, lt→ltb, leb→le, le→leb, length-take, length-drop,
  length-replicate,
}

abbrev pub s_ifdir : ℕ
s_ifdir = 16384

abbrev pub s_ifreg : ℕ
s_ifreg = 32768

abbrev pub s_iflnk : ℕ
s_iflnk = 40960

abbrev pub s_ifchr : ℕ
s_ifchr = 8192

pub record Cpio : Type 0 where
  pub buf : List ℕ
  pub ino : ℕ

abbrev pub new : Cpio
new = record { buf = []; ino = 0 }

-- A lower-case hexadecimal digit, and the eight of a u32.
unfoldable pub hex_digit : ℕ → ℕ
hex_digit d = if ltb d 10 then 48 + d else 87 + d

abbrev pub hex8 : ℕ → List ℕ
hex8 v =
    hex_digit (v / 268435456 % 16)
    ∷ hex_digit (v / 16777216 % 16)
    ∷ hex_digit (v / 1048576 % 16)
    ∷ hex_digit (v / 65536 % 16)
    ∷ hex_digit (v / 4096 % 16)
    ∷ hex_digit (v / 256 % 16)
    ∷ hex_digit (v / 16 % 16)
    ∷ hex_digit (v % 16)
    ∷ []

abbrev pub push_fields : List ℕ → List ℕ
push_fields [] = []
push_fields (f ∷ fs) = hex8 f ++ push_fields fs

-- "070701" and the thirteen fields.
abbrev pub header : ℕ → ℕ → ℕ → ℕ → ℕ → ℕ → ℕ → List ℕ
header ino mode filesize namesize major minor nlink =
    (48 ∷ 55 ∷ 48 ∷ 55 ∷ 48 ∷ 49 ∷ [])
    ++ push_fields (
        ino
        ∷ mode
        ∷ 0
        ∷ 0
        ∷ nlink
        ∷ 0
        ∷ (filesize % 2 ^ 32)
        ∷ 0
        ∷ 0
        ∷ major
        ∷ minor
        ∷ (namesize % 2 ^ 32)
        ∷ 0
        ∷ [])

-- `while !buf.len().is_multiple_of(4)`: at most three rounds.
abbrev pub pad_loop : ℕ → List ℕ → List ℕ
pad_loop zero buf = buf
pad_loop (suc fuel) buf =
    let next = pad_loop fuel (buf ++ (0 ∷ [])) in if length buf % 4 == 0 then buf else next

unfoldable pub pad4 : List ℕ → List ℕ
pad4 buf = pad_loop 3 buf

unfoldable pub add_record : Cpio → List ℕ → ℕ → List ℕ → ℕ → ℕ → Cpio
add_record c name mode content major minor =
    let ino = wrapping_add 32 c.ino 1 in
    let name_z = name ++ (0 ∷ []) in
    let hdr = header ino mode (length content) (length name_z) major minor 1 in
    record { buf = pad4 (pad4 ((c.buf ++ hdr) ++ name_z) ++ content); ino = ino }

unfoldable pub dir : Cpio → List ℕ → ℕ → Cpio
dir c name mode = add_record c name (bit_or s_ifdir mode) [] 0 0

unfoldable pub file : Cpio → List ℕ → List ℕ → ℕ → Cpio
file c name content mode = add_record c name (bit_or s_ifreg mode) content 0 0

unfoldable pub symlink : Cpio → List ℕ → List ℕ → Cpio
symlink c name target = add_record c name (bit_or s_iflnk 511) target 0 0

unfoldable pub char_dev : Cpio → List ℕ → ℕ → ℕ → ℕ → Cpio
char_dev c name mode major minor = add_record c name (bit_or s_ifchr mode) [] major minor

-- "TRAILER!!!".
abbrev pub trailer : List ℕ
trailer = 84 ∷ 82 ∷ 65 ∷ 73 ∷ 76 ∷ 69 ∷ 82 ∷ 33 ∷ 33 ∷ 33 ∷ []

unfoldable pub finish_gz : Cpio → List ℕ
finish_gz c =
    let name = trailer ++ (0 ∷ []) in pad4 ((c.buf ++ header 0 0 0 (length name) 0 0 1) ++ name)
