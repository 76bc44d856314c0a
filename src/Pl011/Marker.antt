-- ===== src/Pl011/Marker.antt =====
-- crates/amber-core/src/bus.rs: the console trigger latches exactly when the guest has sent the marker.
use amber.Prelude.{
  subst, ℕ, ◌%◌, ◌^◌, min, ◌≡◌, refl, sym, ap, ◌∙◌, ◌↔◌, ◌⊎◌, inl, inr, true, false, ◌&&◌, List, [],
  ◌∷◌, ◌++◌, append-nil, append_assoc, arith, ltb, ◌==◌, if◌then◌else◌, Bool-cases, Option-cases,
  length, drop, length-append,
}
use amber.Pl011.{
  Pl011, arm_marker, push_rx, read, read_dr, trim, bytes_eq, track, write_dr, write, is_empty,
  find_id, id_words,
}

-- What the run loop does to the UART.
pub data Access : Type 0 where
  reads : ℕ → Access
  writes : ℕ → ℕ → Access
  receives : ℕ → Access

abbrev pub apply : Pl011 → Access → Pl011
apply u (reads offset) = (read u offset).0
apply u (writes offset value) = write u offset value
apply u (receives byte) = push_rx u byte

abbrev pub run : Pl011 → List Access → Pl011
run u [] = u
run u (a ∷ accesses) = run (apply u a) accesses

-- The bytes that an access sends, and those of a sequence.
abbrev pub sent_by : Access → List ℕ
sent_by (reads offset) = []
sent_by (writes offset value) = if offset == 0x000 then (value % 2 ^ 8) ∷ [] else []
sent_by (receives byte) = []

abbrev pub sent : List Access → List ℕ
sent [] = []
sent (a ∷ accesses) = sent_by a ++ sent accesses

-- `m` stands somewhere in the stream.
abbrev pub Appears : List ℕ → List ℕ → Type 0
Appears m s = (pre : List ℕ) × (suf : List ℕ) × (s ≡ (pre ++ m) ++ suf)

abbrev IsTail : ℕ → List ℕ → List ℕ → Type 0
IsTail n s t = (pre : List ℕ) × (s ≡ pre ++ t) × (length t ≡ min n (length s))

trim-IsTail : (n : ℕ) (t : List ℕ) → IsTail n t (trim n t)
unfolding trim
trim-IsTail n [] = ([], refl, omega arith)
trim-IsTail n (b ∷ bs) = elim (Bool-cases (ltb n (length (b ∷ bs)))) [
  | inl e ↦
      let (pre, eq, len) = trim-IsTail n bs in rw e (b ∷ pre, ap (◌∷◌ b) eq, ground (arith, len, e))
  | inr e ↦ rw e ([], refl, ground (arith, e))
]

bytes_eq→≡ : (bs cs : List ℕ) → bytes_eq bs cs ≡ true → bs ≡ cs
unfolding bytes_eq
bytes_eq→≡ [] [] e = refl
bytes_eq→≡ [] (c ∷ cs) e = cc
bytes_eq→≡ (b ∷ bs) [] e = cc
bytes_eq→≡ (b ∷ bs) (c ∷ cs) e = ground (arith, e, bytes_eq→≡ bs cs)

bytes_eq_refl : (bs : List ℕ) → bytes_eq bs bs ≡ true
unfolding bytes_eq
bytes_eq_refl [] = refl
bytes_eq_refl (b ∷ bs) = ground (arith, bytes_eq_refl bs)

-- Two ends of one stream that are as long are the same.
append-cancel : (p q t m : List ℕ) → p ++ t ≡ q ++ m → length t ≡ length m → t ≡ m
append-cancel [] [] t m e l = e
append-cancel [] (y ∷ q) t m e l = absurd (omega (arith, ap length e, l, length-append q m))
append-cancel (x ∷ p) [] t m e l = absurd (omega (arith, ap length e, l, length-append p t))
append-cancel (x ∷ p) (y ∷ q) t m e l = append-cancel p q t m (ap (drop 1) e) l

-- The last byte of a stream is in its end or the end is empty.
append-snoc :
    (xs suf s : List ℕ) (b : ℕ)
    → s ++ (b ∷ []) ≡ xs ++ suf
    → (s ++ (b ∷ []) ≡ xs) ⊎ ((suf' : List ℕ) × (s ≡ xs ++ suf'))
append-snoc [] suf s b e = inr (s, refl)
append-snoc (x ∷ xs) suf [] b e = inl (cc (empty xs suf (ap (drop 1) e)))
  where
    empty : (xs suf : List ℕ) → [] ≡ xs ++ suf → xs ≡ []
    empty [] suf e = refl
    empty (x ∷ xs) suf e = cc
append-snoc (x ∷ xs) suf (y ∷ s) b e = elim (append-snoc xs suf s b (ap (drop 1) e)) [
  | inl q ↦ inl (cc)
  | inr (suf', q) ↦ inr (suf', cc)
]

-- The trigger after the stream `s`: latched where the marker has appeared, and else following the
-- end of the stream.
abbrev Latch : List ℕ → List ℕ → Pl011 → Type 0
Latch m s u =
    ((u.marked ≡ true) × Appears m s)
    ⊎ ((u.marked ≡ false) × (Appears m s → ⊥) × IsTail (length m) s u.tx_tail)

record Tracks (m s : List ℕ) (u : Pl011) : Type 0 where
  armed : u.marker ≡ m
  latch : Latch m s u

Appears-snoc : (m s : List ℕ) (b : ℕ) → Appears m s → Appears m (s ++ (b ∷ []))
Appears-snoc m s b (pre, suf, e) =
    (pre, suf ++ (b ∷ []), rw e (append_assoc (pre ++ m) suf (b ∷ [])))

-- A byte more: the trimmed end is the end of the longer stream.
IsTail-snoc :
    (n : ℕ) (s t : List ℕ) (b : ℕ)
    → IsTail n s t
    → IsTail n (s ++ (b ∷ [])) (trim n (t ++ (b ∷ [])))
IsTail-snoc n s t b (pre, e, l) =
    let (pre', e', l') = trim-IsTail n (t ++ (b ∷ [])) in
    (
      pre ++ pre',
      rw e (
          append_assoc pre t (b ∷ [])
          ∙ ap (◌++◌ pre) e'
          ∙ sym (append_assoc pre pre' (trim n (t ++ (b ∷ []))))),
      omega (arith, l, l', length-append t (b ∷ []), length-append s (b ∷ [])),
    )

-- The marker appears with this byte only as the end of the stream.
Appears-tail :
    (m s t : List ℕ) (b : ℕ)
    → (Appears m s → ⊥)
    → IsTail (length m) (s ++ (b ∷ [])) t
    → Appears m (s ++ (b ∷ []))
    → t ≡ m
Appears-tail m s t b unseen (p, e, l) (pre, suf, f) = elim (append-snoc (pre ++ m) suf s b f) [
  | inl q ↦ append-cancel p pre t m (sym e ∙ q) (omega (arith, l, ap length q, length-append pre m))
  | inr (suf', q) ↦ absurd (unseen (pre, suf', q))
]

-- A byte that is followed: the comparison decides whether the marker ends the longer stream.
followed :
    (m s t : List ℕ) (u : Pl011) (b : ℕ)
    → u.marker ≡ m
    → (Appears m s → ⊥)
    → IsTail (length m) (s ++ (b ∷ [])) t
    → Tracks m
        (s ++ (b ∷ []))
        (record u { tx_tail = t; marked = length t == length m && bytes_eq t m })
followed m s t u b armed unseen tail = elim (Bool-cases (length t == length m && bytes_eq t m)) [
  | inl e ↦ record {
    armed = armed;
    latch = inl (
      e,
      (
        tail.0,
        [],
        tail.1
            ∙ ap (◌++◌ tail.0) (bytes_eq→≡ t m (ground (arith, e)))
            ∙ sym (append-nil (tail.0 ++ m)),
      ),
    );
  }
  | inr e ↦ record {
    armed = armed;
    latch = inr (e, (λ seen. missed e (Appears-tail m s t b unseen tail seen)), tail);
  }
]
  where
    missed : (length t == length m && bytes_eq t m) ≡ false → t ≡ m → ⊥
    missed e q = ground (arith, e, ap length q, ap (bytes_eq t) (sym q), bytes_eq_refl t)

track-Tracks :
    (m s : List ℕ) (u : Pl011) (b : ℕ)
    → is_empty m ≡ false
    → Tracks m s u
    → Tracks m (s ++ (b ∷ [])) (track u b)
unfolding track
track-Tracks m s u b h k = elim k.latch [
  | inl (on, seen) ↦
      rw (k.armed, h, on) (record { armed = refl; latch = inl (refl, Appears-snoc m s b seen) })
  | inr (off, unseen, tail) ↦
      rw (k.armed, h, off)
        (followed m s _ (record u { marker = m }) b refl unseen
          (IsTail-snoc (length m) s u.tx_tail b tail))
]

abbrev Idle : Pl011 → Pl011 → Type 0
Idle u v = (v.marker ≡ u.marker) × (v.marked ≡ u.marked) × (v.tx_tail ≡ u.tx_tail)

Tracks-Idle : (m s : List ℕ) (u v : Pl011) → Idle u v → Tracks m s u → Tracks m (s ++ []) v
Tracks-Idle m s u v (a, b, c) k = rw (append-nil s) (record {
  armed = a ∙ k.armed;
  latch = elim k.latch [
    | inl (on, seen) ↦ inl (b ∙ on, seen)
    | inr (off, unseen, tail) ↦ inr (b ∙ off, unseen, rw c tail)
  ];
})

read-Idle : (u : Pl011) (offset : ℕ) → Idle u (read u offset).0
unfolding read read_dr
read-Idle u offset = elim (Option-cases (find_id id_words offset)) [
  | inl n ↦ ground (arith, n)
  | inr (v, n) ↦ ground (arith, n)
]

write-Idle :
    (u : Pl011) (offset value : ℕ) → (offset == 0x000) ≡ false → Idle u (write u offset value)
unfolding write
write-Idle u offset value e = ground (arith, e)

apply-Tracks :
    (m s : List ℕ) (u : Pl011) (a : Access)
    → is_empty m ≡ false
    → Tracks m s u
    → Tracks m (s ++ sent_by a) (apply u a)
apply-Tracks m s u (reads offset) h k = Tracks-Idle m s u _ (read-Idle u offset) k
apply-Tracks m s u (receives byte) h k =
    Tracks-Idle m s u _ (unfold push_rx in (refl, refl, refl)) k
apply-Tracks m s u (writes offset value) h k = elim (Bool-cases (offset == 0x000)) [
  | inl e ↦
      unfold write write_dr in
      rw e (track-Tracks m s _ (value % 2 ^ 8) h (record { armed = k.armed; latch = k.latch }))
  | inr e ↦ rw e (Tracks-Idle m s u _ (write-Idle u offset value e) k)
]

run-Tracks :
    (m s : List ℕ) (u : Pl011) (accesses : List Access)
    → is_empty m ≡ false
    → Tracks m s u
    → Tracks m (s ++ sent accesses) (run u accesses)
run-Tracks m s u [] h k = rw (append-nil s) k
run-Tracks m s u (a ∷ accesses) h k =
    subst (λ t. Tracks m t (run (apply u a) accesses)) (append_assoc s (sent_by a) (sent accesses))
      (run-Tracks m (s ++ sent_by a) (apply u a) accesses h (apply-Tracks m s u a h k))

-- After arming a marker that is not empty and any sequence of register accesses and received bytes,
-- the trigger has latched exactly when the marker stands somewhere in the bytes that the guest has
-- sent since.
pub arm_marker-marked :
    (u : Pl011) (m : List ℕ) (accesses : List Access)
    → is_empty m ≡ false
    → ((run (arm_marker u m) accesses).marked ≡ true) ↔ Appears m (sent accesses)
arm_marker-marked u m accesses h = decide (run-Tracks m [] (arm_marker u m) accesses h armed)
  where
    armed : Tracks m [] (arm_marker u m)
    armed =
        unfold arm_marker in
        record { armed = refl; latch = inr (refl, absent m h, ([], refl, omega arith)) }
      where
        absent : (m : List ℕ) → is_empty m ≡ false → Appears m [] → ⊥
        absent [] h seen = cc
        absent (b ∷ bs) h ([], suf, e) = cc
        absent (b ∷ bs) h (x ∷ pre, suf, e) = cc

    decide :
        Tracks m (sent accesses) (run (arm_marker u m) accesses)
        → ((run (arm_marker u m) accesses).marked ≡ true) ↔ Appears m (sent accesses)
    decide k = elim k.latch [
      | inl (on, seen) ↦ ((λ e. seen), (λ a. on))
      | inr (off, unseen, tail) ↦ ((λ e. cc), (λ a. absurd (unseen a)))
    ]
