-- ===== src/Run/Quiesce.antt =====
-- crates/amber-core/src/vm.rs: while a snapshot is written no vcpu is in the guest.
use amber.Prelude.{
  ℕ, zero, suc, ◌≡◌, refl, sym, ap, ◌∙◌, Bool, true, false, some, List, [], ◌∷◌, get_elem?, set,
  replicate,
}
use amber.Run.{
  Phase, head, gate, ready, guest, barrier, dumping, stopped, Machine, all_left, PrimaryStep,
  SecondaryStep, ControlStep, Steps, start, loop_on, loop_ends, unpaused, enter, traps, forced,
  fails, clock_turn, halt, due_alone, due, quiesced, late, written, ends, deposit, capture_fails,
  wakes, unwanted, passes, exits, stops, hangup, cut, balloon, pause, resume, reader_ends,
  primary_turn, secondary_turn, control_turn, none_yet, then_step,
}

-- The phases at which a secondary that has left its registers may be.
abbrev pub is_out : Phase → Bool
is_out head = true
is_out gate = false
is_out ready = false
is_out guest = false
is_out barrier = true
is_out dumping = false
is_out stopped = true

-- One secondary and its slot.
abbrev pub IsLeft : Bool → Phase → Bool → Type 0
IsLeft want p slot = slot ≡ true → (want ≡ true) × (is_out p ≡ true)

abbrev pub AllLeft : Bool → List Phase → List Bool → Type 0
AllLeft want [] [] = Unit {0}
AllLeft want [] (s ∷ slots) = ⊥
AllLeft want (p ∷ ps) [] = ⊥
AllLeft want (p ∷ ps) (s ∷ slots) = IsLeft want p s × AllLeft want ps slots

AllLeft-set_phase :
    (want : Bool) (i : ℕ) (ps : List Phase) (slots : List Bool) (p p' : Phase)
    → get_elem? ps i ≡ some p
    → (want ≡ true → is_out p ≡ true → is_out p' ≡ true)
    → AllLeft want ps slots
    → AllLeft want (set ps i p') slots
AllLeft-set_phase want i [] slots p p' e h k = absurd (cc e)
AllLeft-set_phase want i (q ∷ ps) [] p p' e h k = absurd k
AllLeft-set_phase want zero (q ∷ ps) (s ∷ slots) p p' e h (here, k) =
    let same : q ≡ p = cc e in (λ t. let (w, o) = here t in (w, h w (ap is_out (sym same) ∙ o)), k)
AllLeft-set_phase want (suc i) (q ∷ ps) (s ∷ slots) p p' e h (here, k) =
    (here, AllLeft-set_phase want i ps slots p p' e h k)

AllLeft-deposit :
    (want : Bool) (i : ℕ) (ps : List Phase) (slots : List Bool)
    → want ≡ true
    → AllLeft want ps slots
    → AllLeft want (set ps i barrier) (set slots i true)
AllLeft-deposit want i [] [] w k = tt
AllLeft-deposit want i [] (s ∷ slots) w k = absurd k
AllLeft-deposit want i (q ∷ ps) [] w k = absurd k
AllLeft-deposit want zero (q ∷ ps) (s ∷ slots) w (here, k) = (λ t. (w, refl), k)
AllLeft-deposit want (suc i) (q ∷ ps) (s ∷ slots) w (here, k) =
    (here, AllLeft-deposit want i ps slots w k)

AllLeft-want :
    (want : Bool) (ps : List Phase) (slots : List Bool)
    → AllLeft want ps slots
    → AllLeft true ps slots
AllLeft-want want [] [] k = tt
AllLeft-want want [] (s ∷ slots) k = k
AllLeft-want want (p ∷ ps) [] k = k
AllLeft-want want (p ∷ ps) (s ∷ slots) (here, k) =
    (λ t. (refl, (here t).1), AllLeft-want want ps slots k)

all_left-set :
    (slots : List Bool) (i : ℕ) → all_left slots ≡ true → all_left (set slots i true) ≡ true
all_left-set [] i h = h
all_left-set (false ∷ slots) zero h = absurd (cc h)
all_left-set (true ∷ slots) zero h = h
all_left-set (false ∷ slots) (suc i) h = absurd (cc h)
all_left-set (true ∷ slots) (suc i) h = all_left-set slots i h

AllLeft-out :
    (want : Bool) (ps : List Phase) (slots : List Bool) (i : ℕ) (p : Phase)
    → AllLeft want ps slots
    → all_left slots ≡ true
    → get_elem? ps i ≡ some p
    → is_out p ≡ true
AllLeft-out want [] slots i p k all e = absurd (cc e)
AllLeft-out want (q ∷ ps) [] i p k all e = absurd k
AllLeft-out want (q ∷ ps) (false ∷ slots) i p k all e = absurd (cc all)
AllLeft-out want (q ∷ ps) (true ∷ slots) zero p (here, k) all e =
    let same : q ≡ p = cc e in ap is_out (sym same) ∙ (here refl).1
AllLeft-out want (q ∷ ps) (true ∷ slots) (suc i) p (here, k) all e =
    AllLeft-out want ps slots i p k all e

-- The barrier's invariant.
pub record IsBarred (m : Machine) : Type 0 where
  pub left : AllLeft m.want m.secondaries m.slots
  pub full : m.primary ≡ dumping → all_left m.slots ≡ true

alone :
    (want : Bool) (ps : List Phase) (slots : List Bool)
    → ps ≡ []
    → AllLeft want ps slots
    → all_left slots ≡ true
alone want ps [] e k = refl
alone want [] (s ∷ slots) e k = absurd k
alone want (p ∷ ps) (s ∷ slots) e k = absurd (cc e)

PrimaryStep-IsBarred : (m m' : Machine) → PrimaryStep m m' → IsBarred m → IsBarred m'
PrimaryStep-IsBarred _ _ (loop_on m a b) k = record { left = k.left; full = λ e. absurd (cc e) }
PrimaryStep-IsBarred _ _ (loop_ends m a b) k = record { left = k.left; full = λ e. absurd (cc e) }
PrimaryStep-IsBarred _ _ (unpaused m a b) k = record { left = k.left; full = λ e. absurd (cc e) }
PrimaryStep-IsBarred _ _ (enter m a) k = record { left = k.left; full = λ e. absurd (cc e) }
PrimaryStep-IsBarred _ _ (fails m a) k = record { left = k.left; full = λ e. absurd (cc e) }
PrimaryStep-IsBarred _ _ (forced m a b) k = record { left = k.left; full = λ e. absurd (cc e) }
PrimaryStep-IsBarred _ _ (traps m a) k = record { left = k.left; full = λ e. absurd (cc e) }
PrimaryStep-IsBarred _ _ (halt m a) k = record { left = k.left; full = λ e. absurd (cc e) }
PrimaryStep-IsBarred _ _ (due_alone m a b) k = record {
  left = k.left;
  full = λ e. alone m.want m.secondaries m.slots b k.left;
}
PrimaryStep-IsBarred _ _ (due m a b) k = record {
  left = AllLeft-want m.want m.secondaries m.slots k.left;
  full = λ e. absurd (cc e);
}
PrimaryStep-IsBarred _ _ (quiesced m a b) k = record { left = k.left; full = λ e. b }
PrimaryStep-IsBarred _ _ (late m a b) k = record { left = k.left; full = λ e. absurd (cc e) }
PrimaryStep-IsBarred _ _ (written m a) k = record { left = k.left; full = λ e. absurd (cc e) }

moved :
    (m : Machine) (i : ℕ) (p p' : Phase)
    → get_elem? m.secondaries i ≡ some p
    → (m.want ≡ true → is_out p ≡ true → is_out p' ≡ true)
    → IsBarred m
    → IsBarred (record m { secondaries = set m.secondaries i p' })
moved m i p p' e h k = record {
  left = AllLeft-set_phase m.want i m.secondaries m.slots p p' e h k.left;
  full = k.full;
}

SecondaryStep-IsBarred : (i : ℕ) (m m' : Machine) → SecondaryStep i m m' → IsBarred m → IsBarred m'
SecondaryStep-IsBarred i _ _ (ends m a b) k = moved m i head stopped a (λ w o. refl) k
SecondaryStep-IsBarred i _ _ (deposit m a b c) k = record {
  left = AllLeft-deposit m.want i m.secondaries m.slots c k.left;
  full = λ e. all_left-set m.slots i (k.full e);
}
SecondaryStep-IsBarred i _ _ (capture_fails m a b) k = record { left = k.left; full = k.full }
SecondaryStep-IsBarred i _ _ (wakes m a) k = moved m i barrier head a (λ w o. refl) k
SecondaryStep-IsBarred i _ _ (unwanted m a b c) k =
    moved m i head gate a (λ w o. absurd (cc (w, c))) k
SecondaryStep-IsBarred i _ _ (passes m a b) k = moved m i gate guest a (λ w o. o) k
SecondaryStep-IsBarred i _ _ (exits m a) k = moved m i guest head a (λ w o. refl) k
SecondaryStep-IsBarred i _ _ (stops m a) k =
    let same = moved m i guest head a (λ w o. refl) k in
    record { left = same.left; full = same.full }

ControlStep-IsBarred : (m m' : Machine) → ControlStep m m' → IsBarred m → IsBarred m'
ControlStep-IsBarred _ _ (hangup m a) k = record { left = k.left; full = k.full }
ControlStep-IsBarred _ _ (cut m a) k = record { left = k.left; full = k.full }
ControlStep-IsBarred _ _ (balloon m a) k = k
ControlStep-IsBarred _ _ (pause m a) k = record { left = k.left; full = k.full }
ControlStep-IsBarred _ _ (resume m a) k = record { left = k.left; full = k.full }
ControlStep-IsBarred _ _ (reader_ends m a) k = record { left = k.left; full = k.full }

start-IsBarred : (n : ℕ) → IsBarred (start n)
start-IsBarred n = record { left = fresh n; full = λ e. absurd (cc e) }
  where
    fresh : (n : ℕ) → AllLeft false (replicate n head) (replicate n false)
    fresh zero = tt
    fresh (suc n) = (λ t. absurd (cc t), fresh n)

Steps-IsBarred : (m m' : Machine) → Steps m m' → IsBarred m → IsBarred m'
Steps-IsBarred _ _ (none_yet m) k = k
Steps-IsBarred _ _ (then_step m m' m'' before (primary_turn a b s)) k =
    PrimaryStep-IsBarred m' m'' s (Steps-IsBarred m m' before k)
Steps-IsBarred _ _ (then_step m m' m'' before (secondary_turn i a b s)) k =
    SecondaryStep-IsBarred i m' m'' s (Steps-IsBarred m m' before k)
Steps-IsBarred _ _ (then_step m m' m'' before (control_turn a b s)) k =
    ControlStep-IsBarred m' m'' s (Steps-IsBarred m m' before k)
Steps-IsBarred _ _ (then_step m m' m'' before (clock_turn a)) k =
    let same = Steps-IsBarred m m' before k in record { left = same.left; full = same.full }

-- In every run of the machine, under every interleaving of its threads, while the primary writes the snapshot no
-- vcpu is in the guest and none can pass the pause gate into it: each secondary is at the head of its
-- loop, at the barrier or ended.
pub dumping-out :
    (n : ℕ) (m : Machine) (i : ℕ) (p : Phase)
    → Steps (start n) m
    → m.primary ≡ dumping
    → get_elem? m.secondaries i ≡ some p
    → is_out p ≡ true
dumping-out n m i p run writes e =
    let k = Steps-IsBarred (start n) m run (start-IsBarred n) in
    AllLeft-out m.want m.secondaries m.slots i p k.left (k.full writes) e
