-- ===== src/Board/Recreate.antt =====
-- crates/amber-core/src/vm.rs: a snapshot is restored onto the devices it was taken from, or not at all.
use amber.Prelude.{
  ◌≡◌, ap, ◌∙◌, inl, inr, Bool, true, false, ◌&&◌, Option, none, some, List, [], ◌∷◌, ◌++◌, map,
  arith, ◌==◌, if◌then◌else◌, Bool-cases, Option-cases, length, length-append,
}
use Prim.Native.String.{String}
use amber.Board.Assembly.{
  Kind, blk, entropy, network, vsock, balloon, Host, Meta, open_root, net_device, recreate_net,
  recreate_vsock, checked, restore_from,
}

-- The kind without the path of its host socket, which a restore gives anew.
abbrev pub unnamed : Kind → Kind
unnamed (blk path writable) = blk path writable
unnamed entropy = entropy
unnamed network = network
unnamed (vsock path) = vsock ""
unnamed balloon = balloon

abbrev root_list : Option String → List Kind
root_list none = []
root_list (some path) = blk path false ∷ []

abbrev data_list : List (String × Bool) → List Kind
data_list [] = []
data_list ((path, writable) ∷ disks) = blk path writable ∷ data_list disks

abbrev vsock_list : Bool → List Kind
vsock_list false = []
vsock_list true = vsock "" ∷ []

if_some : {A : Type 0} (c : Bool) (x y : A) → (if c then some x else none) ≡ some y → y ≡ x
if_some true x y e = cc e
if_some false x y e = absurd (cc e)

open_root-list :
    (host : Host) (disk : Option String) (ks : List Kind)
    → open_root host disk ≡ some ks
    → ks ≡ root_list disk
unfolding open_root
open_root-list host none ks e = cc e
open_root-list host (some path) ks e = if_some (host.opens path) _ ks e

-- The devices after the disks.
abbrev tail : Bool → List Kind → List Kind
tail net vs = entropy ∷ (net_device net ++ (vs ++ (balloon ∷ [])))

recreate_net-list :
    (had backend : Bool) (ks : List Kind) → recreate_net had backend ≡ some ks → ks ≡ net_device had
unfolding recreate_net
recreate_net-list false backend ks e = cc e
recreate_net-list true backend ks e = if_some backend _ ks e

recreate_vsock-list :
    (host : Host) (had : Bool) (path : Option String) (ks : List Kind)
    → recreate_vsock host had path ≡ some ks
    → map unnamed ks ≡ vsock_list had
unfolding recreate_vsock
recreate_vsock-list host false path ks e = let same : ks ≡ [] = cc e in ap (map unnamed) same
recreate_vsock-list host true none ks e = absurd (cc e)
recreate_vsock-list host true (some path) ks e = ap (map unnamed) (if_some (host.binds path) _ ks e)

checked-some :
    (host : Host) (meta : Meta) (ks ks' : List Kind)
    → checked host meta ks ≡ some ks'
    → (ks' ≡ ks) × (length ks' ≡ meta.virtio)
unfolding checked
checked-some host meta ks ks' =
    elim (Bool-cases (host.entropy_opens && (length ks == meta.virtio))) [
      | inr c ↦ rw c (λ e. absurd (cc e))
      | inl c ↦ rw c (λ e.
          let same : ks' ≡ ks = cc e in
          let count : length ks ≡ meta.virtio = ground (arith, c) in (same, ap length same ∙ count))
    ]

restore_from-list :
    (host : Host) (meta : Meta) (backend : Bool) (path : Option String) (ks : List Kind)
    → restore_from host meta backend path ≡ some ks
    → (length ks ≡ meta.virtio)
      × ((vs : List Kind) × (map unnamed vs ≡ vsock_list meta.vsock)
          × (ks ≡ root_list meta.disk ++ tail meta.net vs))
unfolding restore_from
restore_from-list host meta backend path ks = elim (Option-cases (open_root host meta.disk)) [
  | inl n ↦ rw (restore_from, n) (λ e. absurd (cc e))
  | inr (root, n) ↦ elim (Option-cases (recreate_net meta.net backend)) [
    | inl m ↦ rw (restore_from, n, m) (λ e. absurd (cc e))
    | inr (ns, m) ↦ elim (Option-cases (recreate_vsock host meta.vsock path)) [
      | inl v ↦ rw (restore_from, n, m, v) (λ e. absurd (cc e))
      | inr (vs, v) ↦
          rw (restore_from, n, m, v)
            (λ e.
              let (same, count) = checked-some host meta _ ks e in
              (
                count,
                (
                  vs,
                  recreate_vsock-list host meta.vsock path vs v,
                  same
                      ∙ ap (λ (r : List Kind). r ++ (entropy ∷ (ns ++ (vs ++ (balloon ∷ [])))))
                          (open_root-list host meta.disk root n)
                      ∙ ap
                          (λ (r : List Kind).
                            root_list meta.disk ++ (entropy ∷ (r ++ (vs ++ (balloon ∷ [])))))
                          (recreate_net-list meta.net backend ns m),
                ),
              ))
    ]
  ]
]

-- A snapshot without the states of its virtio devices is refused, on any host.
pub restore_from-stateless :
    (host : Host) (meta : Meta) (backend : Bool) (path : Option String)
    → meta.virtio ≡ 0
    → restore_from host meta backend path ≡ none
restore_from-stateless host meta backend path none_kept =
    elim (Option-cases (restore_from host meta backend path)) [
      | inl e ↦ e
      | inr (ks, e) ↦
          let (count, (vs, alike, shape)) = restore_from-list host meta backend path ks e in
          absurd (
            omega (
              arith,
              count,
              none_kept,
              ap length shape ∙ length-append (root_list meta.disk) (tail meta.net vs),
            ))
    ]
