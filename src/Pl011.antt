-- ===== src/Pl011.antt =====
-- crates/amber-core/src/bus.rs: the PL011 UART. `out` is the list of the bytes handed to the host's
-- writer, in order; the writer's own errors are ignored by the source. `marked` of the source is the
-- field. The access size is ignored, as in the source.
pub mod Marker
pub mod Receive
pub mod Tests
use amber.Prelude.{
  ℕ, zero, suc, ◌+◌, ◌-◌, ◌*◌, ◌/◌, ◌%◌, ◌^◌, ◌≤◌, ◌<◌, min, max, bit_and, bit_or, ◌≡◌, refl, sym,
  ap, ◌∙◌, ◌≢◌, ◌↔◌, ◌⊎◌, inl, inr, Bool, true, false, not, ◌&&◌, ◌||◌, Option, none, some, List,
  [], ◌∷◌, ◌++◌, map, append-nil, append_assoc, arith, ltb, leb, ◌==◌, if◌then◌else◌, Bool-cases,
  Option-cases, ◌>>=◌, is_some, length, get_elem?, get_or, set, take, drop, replicate, All, IsByte,
  keep, length-append, length-set, All-append, All-set, All-get_elem?, wrapping_add, wrapping_sub,
  not_u32, to_le, from_le, ==_iff, ltb→lt, lt→ltb, leb→le, le→leb, length-take, length-drop,
  length-replicate,
}

pub record Pl011 : Type 0 where
  pub out : List ℕ
  pub rx : List ℕ
  pub cr : ℕ
  pub imsc : ℕ
  pub ris : ℕ
  pub ibrd : ℕ
  pub fbrd : ℕ
  pub lcr_h : ℕ
  pub ifls : ℕ
  pub marker : List ℕ
  pub tx_tail : List ℕ
  pub marked : Bool

-- INT_RX | INT_RT.
abbrev pub int_rx_rt : ℕ
int_rx_rt = bit_or 0x10 0x40

-- PeriphID0..3 and PCellID0..3.
abbrev pub id_words : List (ℕ × ℕ)
id_words =
    (0xfe0, 0x11)
    ∷ (0xfe4, 0x10)
    ∷ (0xfe8, 0x14)
    ∷ (0xfec, 0x00)
    ∷ (0xff0, 0x0d)
    ∷ (0xff4, 0xf0)
    ∷ (0xff8, 0x05)
    ∷ (0xffc, 0xb1)
    ∷ []

abbrev pub new : Pl011
new = record {
  out = [];
  rx = [];
  cr = 0;
  imsc = 0;
  ris = 0;
  ibrd = 0;
  fbrd = 0;
  lcr_h = 0;
  ifls = 0;
  marker = [];
  tx_tail = [];
  marked = false;
}

unfoldable pub arm_marker : Pl011 → List ℕ → Pl011
arm_marker u m = record u { marker = m; tx_tail = []; marked = false }

unfoldable pub push_rx : Pl011 → ℕ → Pl011
push_rx u byte = record u { rx = u.rx ++ (byte ∷ []); ris = bit_or u.ris int_rx_rt }

unfoldable pub irq_level : Pl011 → Bool
irq_level u = not (bit_and u.ris u.imsc == 0)

abbrev pub Regs : Type 0
Regs = ℕ × ℕ × ℕ × ℕ × ℕ × ℕ

unfoldable pub regs : Pl011 → Regs
regs u = (u.cr, u.imsc, u.ibrd, u.fbrd, u.lcr_h, u.ifls)

unfoldable pub set_regs : Pl011 → Regs → Pl011
set_regs u (cr, imsc, ibrd, fbrd, lcr_h, ifls) = record u {
  cr = cr;
  imsc = imsc;
  ibrd = ibrd;
  fbrd = fbrd;
  lcr_h = lcr_h;
  ifls = ifls;
}

abbrev pub find_id : List (ℕ × ℕ) → ℕ → Option ℕ
find_id [] offset = none
find_id ((off, v) ∷ ids) offset = if off == offset then some v else find_id ids offset

abbrev pub is_empty : List ℕ → Bool
is_empty [] = true
is_empty (b ∷ bs) = false

-- DR: pop the FIFO; the interrupt goes when it has run empty.
unfoldable pub read_dr : Pl011 → Pl011 × ℕ
read_dr u =
    let rest = drop 1 u.rx in
    (
      record u {
        rx = rest;
        ris = if is_empty rest then bit_and u.ris (not_u32 int_rx_rt) else u.ris;
      },
      get_or u.rx 0 0,
    )

-- The registers that a read leaves alone.
unfoldable pub read_reg : Pl011 → ℕ → ℕ
read_reg u offset =
    if offset == 0x018
    then (if is_empty u.rx then bit_or 0x80 0x10 else 0x80)
    else if offset == 0x03c
    then u.ris
    else if offset == 0x040
    then bit_and u.ris u.imsc
    else if offset == 0x038
    then u.imsc
    else if offset == 0x030
    then u.cr
    else if offset == 0x024
    then u.ibrd
    else if offset == 0x028
    then u.fbrd
    else if offset == 0x02c
    then u.lcr_h
    else if offset == 0x034
    then u.ifls
    else 0

unfoldable pub read : Pl011 → ℕ → Pl011 × ℕ
read u offset = elim (find_id id_words offset) [
  | some v ↦ (u, v)
  | none ↦ if offset == 0x000 then read_dr u else (u, read_reg u offset)
]

-- `while tx_tail.len() > n { tx_tail.pop_front() }`.
unfoldable pub trim : ℕ → List ℕ → List ℕ
trim n [] = []
trim n (b ∷ bs) = let rest = trim n bs in if ltb n (length (b ∷ bs)) then rest else b ∷ bs

unfoldable pub bytes_eq : List ℕ → List ℕ → Bool
bytes_eq [] [] = true
bytes_eq [] (c ∷ cs) = false
bytes_eq (b ∷ bs) [] = false
bytes_eq (b ∷ bs) (c ∷ cs) = b == c && bytes_eq bs cs

-- The marker's part of a DR write.
unfoldable pub track : Pl011 → ℕ → Pl011
track u byte =
    if not (is_empty u.marker) && not u.marked
    then (let tail = trim (length u.marker) (u.tx_tail ++ (byte ∷ [])) in
        record u {
          tx_tail = tail;
          marked = length tail == length u.marker && bytes_eq tail u.marker;
        })
    else u

unfoldable pub write_dr : Pl011 → ℕ → Pl011
write_dr u byte = track (record u { out = u.out ++ (byte ∷ []) }) byte

unfoldable pub write : Pl011 → ℕ → ℕ → Pl011
write u offset value =
    let v32 = value % 2 ^ 32 in
    if offset == 0x000
    then write_dr u (value % 2 ^ 8)
    else if offset == 0x038
    then record u { imsc = v32 }
    else if offset == 0x030
    then record u { cr = v32 }
    else if offset == 0x024
    then record u { ibrd = v32 }
    else if offset == 0x028
    then record u { fbrd = v32 }
    else if offset == 0x02c
    then record u { lcr_h = v32 }
    else if offset == 0x034
    then record u { ifls = v32 }
    else if offset == 0x044
    then record u { ris = bit_and u.ris (not_u32 v32) }
    else u
