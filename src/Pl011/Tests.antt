-- ===== src/Pl011/Tests.antt =====
-- crates/amber-core/src/bus.rs: the UART theorems at concrete inputs.
use amber.Prelude.{ℕ, bit_and, ◌≡◌, refl, ◌↔◌, true, List, [], ◌∷◌, ◌++◌}
use amber.Pl011.{new, arm_marker, int_rx_rt}
use amber.Pl011.Marker.{Access, reads, writes, receives, run, sent, Appears, arm_marker-marked}
use amber.Pl011.Receive.{received, taken, run-received}

-- "OK" within "xOKy", between an interrupt mask, a received byte and a read.
abbrev session : List Access
session =
    writes 0x000 120
    ∷ writes 0x038 0x10
    ∷ writes 0x000 79
    ∷ receives 65
    ∷ reads 0x000
    ∷ writes 0x000 75
    ∷ receives 66
    ∷ writes 0x000 121
    ∷ []

abbrev ok : List ℕ
ok = 79 ∷ 75 ∷ []

arm_marker-marked_example :
    ((run (arm_marker new ok) session).marked ≡ true) ↔ Appears ok (sent session)
arm_marker-marked_example = arm_marker-marked new ok session refl

run-received_example :
    (received session ≡ taken new session ++ (run new session).rx)
    × ((run new session).rx ≡ [] → bit_and (run new session).ris int_rx_rt ≡ 0)
run-received_example = run-received session
