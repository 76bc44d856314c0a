-- ===== src/Vsock/Packet.antt =====
-- crates/amber-core/src/vsock.rs: the packet header that the device writes and the one it reads agree.
use amber.Prelude.{
  from_le-to_le, length-to_le, ℕ, suc, ◌+◌, ◌^◌, ◌<◌, ◌≡◌, refl, sym, ap, ◌∙◌, List, [], ◌∷◌, ◌++◌,
  arith, length, take, drop, to_le, from_le,
}
use amber.Vsock.{packet, field, hdr_len, cid_host, buf_alloc}

take-append : (xs ys : List ℕ) → take (length xs) (xs ++ ys) ≡ xs
take-append [] ys = refl
take-append (x ∷ xs) ys = ap (◌∷◌ x) (take-append xs ys)

drop-append : (xs ys : List ℕ) (n : ℕ) → drop (length xs + n) (xs ++ ys) ≡ drop n ys
drop-append [] ys n = ap (λ (k : ℕ). drop k ys) (omega arith)
drop-append (x ∷ xs) ys n =
    let more : suc (length xs) + n ≡ suc (length xs + n) = omega arith in
    ap (λ (k : ℕ). drop k (x ∷ (xs ++ ys))) more ∙ drop-append xs ys n

drop-to_le : (w v n : ℕ) (rest : List ℕ) → drop (w + n) (to_le w v ++ rest) ≡ drop n rest
drop-to_le w v n rest =
    ap (λ (k : ℕ). drop (k + n) (to_le w v ++ rest)) (sym (length-to_le w v))
    ∙ drop-append (to_le w v) rest n

-- A field that follows a word, and one that is the first word.
field-skip :
    (w v off u : ℕ) (rest : List ℕ) → field (w + off) u (to_le w v ++ rest) ≡ field off u rest
unfolding field
field-skip w v off u rest = ap (λ t. from_le (take u t)) (drop-to_le w v off rest)

field-first : (w v : ℕ) (rest : List ℕ) → v < 256 ^ w → field 0 w (to_le w v ++ rest) ≡ v
unfolding field
field-first w v rest lt =
    ap (λ (k : ℕ). from_le (take k (to_le w v ++ rest))) (sym (length-to_le w v))
    ∙ ap from_le (take-append (to_le w v) rest)
    ∙ from_le-to_le w v lt

module _ (cid gp hp op fwd : ℕ) (payload : List ℕ) where
  abbrev p10 : List ℕ
  p10 = to_le 4 fwd ++ payload

  abbrev p9 : List ℕ
  p9 = to_le 4 buf_alloc ++ p10

  abbrev p8 : List ℕ
  p8 = to_le 4 0 ++ p9

  abbrev p7 : List ℕ
  p7 = to_le 2 op ++ p8

  abbrev p6 : List ℕ
  p6 = to_le 2 1 ++ p7

  abbrev p5 : List ℕ
  p5 = to_le 4 (length payload) ++ p6

  abbrev p4 : List ℕ
  p4 = to_le 4 gp ++ p5

  abbrev p3 : List ℕ
  p3 = to_le 4 hp ++ p4

  abbrev p2 : List ℕ
  p2 = to_le 8 cid ++ p3

  -- Past the first words of the header.
  past3 :
      (off u : ℕ) → field (8 + (8 + (4 + off))) u (packet cid gp hp op fwd payload) ≡ field off u p4
  unfolding packet
  past3 off u =
      field-skip 8 cid_host (8 + (4 + off)) u p2
      ∙ field-skip 8 cid (4 + off) u p3
      ∙ field-skip 4 hp off u p4

  past6 :
      (off u : ℕ)
      → field (8 + (8 + (4 + (4 + (4 + (2 + off)))))) u (packet cid gp hp op fwd payload)
        ≡ field off u p7
  past6 off u =
      past3 (4 + (4 + (2 + off))) u
      ∙ field-skip 4 gp (4 + (2 + off)) u p5
      ∙ field-skip 4 (length payload) (2 + off) u p6
      ∙ field-skip 2 1 off u p7

  -- The device reads back every field of a packet that it has built: the header parser of the one
  -- direction and the writer of the other agree on the layout.
  pub field-packet :
      cid < 2 ^ 64
      → gp < 2 ^ 32
      → hp < 2 ^ 32
      → op < 2 ^ 16
      → fwd < 2 ^ 32
      → length payload < 2 ^ 32
      → let p = packet cid gp hp op fwd payload in
        (field 0 8 p ≡ cid_host)
        × (field 8 8 p ≡ cid)
        × (field 16 4 p ≡ hp)
        × (field 20 4 p ≡ gp)
        × (field 24 4 p ≡ length payload)
        × (field 28 2 p ≡ 1)
        × (field 30 2 p ≡ op)
        × (field 36 4 p ≡ buf_alloc)
        × (field 40 4 p ≡ fwd)
        × (drop hdr_len p ≡ payload)
        × (length p ≡ hdr_len + length payload)
  field-packet hc hg hh ho hf hl = (
    (unfold packet in field-first 8 cid_host p2 (omega arith)),
    (unfold packet in field-skip 8 cid_host 0 8 p2 ∙ field-first 8 cid p3 hc),
    (unfold packet in
        field-skip 8 cid_host 8 4 p2 ∙ field-skip 8 cid 0 4 p3 ∙ field-first 4 hp p4 hh),
    past3 0 4 ∙ field-first 4 gp p5 hg,
    past3 4 4 ∙ field-skip 4 gp 0 4 p5 ∙ field-first 4 (length payload) p6 hl,
    past3 8 2
        ∙ field-skip 4 gp 4 2 p5
        ∙ field-skip 4 (length payload) 0 2 p6
        ∙ field-first 2 1 p7 (omega arith),
    past6 0 2 ∙ field-first 2 op p8 ho,
    past6 6 4
        ∙ field-skip 2 op 4 4 p8
        ∙ field-skip 4 0 0 4 p9
        ∙ field-first 4 buf_alloc p10 (omega arith),
    past6 10 4
        ∙ field-skip 2 op 8 4 p8
        ∙ field-skip 4 0 4 4 p9
        ∙ field-skip 4 buf_alloc 0 4 p10
        ∙ field-first 4 fwd payload hf,
    body,
    size,
  )
    where
      body : drop hdr_len (packet cid gp hp op fwd payload) ≡ payload
      body =
          unfold packet in
          drop-to_le 8 cid_host 36 p2
          ∙ drop-to_le 8 cid 28 p3
          ∙ drop-to_le 4 hp 24 p4
          ∙ drop-to_le 4 gp 20 p5
          ∙ drop-to_le 4 (length payload) 16 p6
          ∙ drop-to_le 2 1 14 p7
          ∙ drop-to_le 2 op 12 p8
          ∙ drop-to_le 4 0 8 p9
          ∙ drop-to_le 4 buf_alloc 4 p10
          ∙ drop-to_le 4 fwd 0 payload

      size : length (packet cid gp hp op fwd payload) ≡ hdr_len + length payload
      size = unfold packet in omega arith
