-- ===== src/Transport/Snapshot.antt =====
-- `capture` and `restore`.
use amber.Prelude.{◌^◌, ◌≤◌, ◌<◌, ◌≡◌, refl, List, [], ◌∷◌, map, arith, length, All}
use amber.Virtqueue.{Queue, queue_max}
use amber.Transport.{VirtioMmio, QueueState, capture, restore, restore_queues}

-- The ranges of a queue's fields that `capture` and `restore` must keep.
pub record IsQueue (q : Queue) : Type 0 where
  pub num : q.num ≤ queue_max
  pub ready : q.ready < 2 ^ 32
  pub desc : q.desc < 2 ^ 64
  pub avail : q.avail < 2 ^ 64
  pub used : q.used < 2 ^ 64
  pub last_avail : q.last_avail < 2 ^ 16

restore_queues-map :
    (fresh qs : List Queue)
    → length fresh ≡ length qs
    → All IsQueue qs
    → restore_queues fresh (map (λ q. (q.num, q.ready, q.desc, q.avail, q.used, q.last_avail)) qs)
      ≡ qs
unfolding restore_queues
restore_queues-map [] [] l h = refl
restore_queues-map [] (x ∷ qs) l h = absurd (omega arith)
restore_queues-map (y ∷ fresh) [] l h = absurd (omega arith)
restore_queues-map (y ∷ fresh) (x ∷ qs) l h =
    let v = h.0 in
    ground (arith, restore_queues-map fresh qs (omega arith) h.1, v.num, v.ready, v.last_avail)

-- A snapshot restored into a transport with as many queues gives back the status, the interrupt
-- status and every queue; the device, RAM, the register selectors and a held payload are those of the
-- fresh transport.
pub restore-capture :
    {D : Type 0} (m fresh : VirtioMmio D)
    → All IsQueue m.queues
    → length fresh.queues ≡ length m.queues
    → restore fresh (capture m)
      ≡ record fresh { status = m.status; interrupt_status = m.interrupt_status; queues = m.queues }
unfolding restore capture
restore-capture m fresh h l = rw (restore_queues-map fresh.queues m.queues l h) refl

-- A saved queue holds six u64 words.
pub record IsSaved (s : QueueState) : Type 0 where
  pub desc : s.2 < 2 ^ 64
  pub avail : s.3 < 2 ^ 64
  pub used : s.4 < 2 ^ 64

-- A restored queue never has more entries than the device advertises, whatever the snapshot says.
pub restore_queues-IsQueue :
    (qs : List Queue) (saved : List QueueState)
    → All IsQueue qs
    → All IsSaved saved
    → All IsQueue (restore_queues qs saved)
unfolding restore_queues
restore_queues-IsQueue [] saved h k = tt
restore_queues-IsQueue (q ∷ qs) [] h k = h
restore_queues-IsQueue (q ∷ qs) (s ∷ saved) h k =
    let v = k.0 in (omega (arith, v.desc, v.avail, v.used), restore_queues-IsQueue qs saved h.1 k.1)
