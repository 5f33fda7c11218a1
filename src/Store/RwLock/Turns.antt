-- ===== src/Store/RwLock/Turns.antt =====
-- SP_LAB5/src/rwlock.c: what one turn of a thread does to the ring of waiting writers.
use fall_snu_system_pro.Base.{
  ℕ, ◌+◌, ◌%◌, ◌≡◌, ◌≢◌, ◌⊎◌, inl, inr, refl, ap, sym, ◌∙◌, arith, List, [], ◌∷◌, ◌++◌, ◌==◌,
  length, Bool-cases, set, length-set,
}
use fall_snu_system_pro.Base.Int.{pred_ℤ, is_positive, is_zero}
use fall_snu_system_pro.Store.RwLock.Queue.{queue, IsRing, queue-push, queue-pop}
use fall_snu_system_pro.Store.RwLock.Threads.{
  Pc, idle, read_waiting, reading, write_waiting, writing, Request, read, write, turn, settle,
  all_ok,
}
use fall_snu_system_pro.Store.RwLock.{
  RwLock, rwlock_read_lock, read_lock_retry, rwlock_read_unlock, rwlock_write_lock,
  write_lock_retry, rwlock_write_unlock, writer_ring_size, must_wait,
}

abbrev pub is_queued : Pc → ℕ
is_queued write_waiting = 1
is_queued _ = 0

-- What a turn of the thread `i` from `p` to `p'` does to the queue `q` of waiting writers.
abbrev pub Queues : ℕ → Pc → Pc → List ℕ → List ℕ → Type 0
Queues i idle write_waiting q q' = q' ≡ q ++ i ∷ []
Queues i idle writing q q' = q ++ i ∷ [] ≡ i ∷ q'
Queues i write_waiting writing q q' = q ≡ i ∷ q'
Queues i p p' q q' = (q' ≡ q) × (is_queued p' ≡ is_queued p)

-- The retry of a writer in a queue that is not empty.
write_lock_retry-Queues :
    (i : ℕ) (l : RwLock)
    → IsRing l
    → l.writer_ring_head ≢ l.writer_ring_tail
    → Queues i write_waiting
        (settle writing write_waiting (write_lock_retry all_ok i l)).0
        (queue l)
        (queue (settle writing write_waiting (write_lock_retry all_ok i l)).1)
      × IsRing (settle writing write_waiting (write_lock_retry all_ok i l)).1
unfolding write_lock_retry
write_lock_retry-Queues i l r ne = elim (Bool-cases (must_wait i l)) [
  | inl e ↦ rw e ((refl, refl), r)
  | inr e ↦ rw e (
    queue-pop l r ne
        ∙ ap
            (λ x.
              x
              ∷ queue (record l { writer_ring_head = (l.writer_ring_head + 1) % writer_ring_size }))
            (ground arith),
    record { sized = r.sized; head_in = omega arith; tail_in = r.tail_in },
  )
]

-- A retry ends in one of two places.
pub write_lock_retry-ends :
    (i : ℕ) (l : RwLock)
    → ((settle writing write_waiting (write_lock_retry all_ok i l)).0 ≡ write_waiting)
      ⊎ ((settle writing write_waiting (write_lock_retry all_ok i l)).0 ≡ writing)
unfolding write_lock_retry
write_lock_retry-ends i l = ground arith

Queues-push :
    (i : ℕ) (p' : Pc) (q q' q'' : List ℕ)
    → q' ≡ q ++ i ∷ []
    → (p' ≡ write_waiting) ⊎ (p' ≡ writing)
    → Queues i write_waiting p' q' q''
    → Queues i idle p' q q''
Queues-push i write_waiting q q' q'' e o h = h.0 ∙ e
Queues-push i writing q q' q'' e o h = sym e ∙ h
Queues-push i idle q q' q'' e o h = absurd (ground arith)
Queues-push i read_waiting q q' q'' e o h = absurd (ground arith)
Queues-push i reading q q' q'' e o h = absurd (ground arith)

-- The lock with the thread at the end of the ring.
abbrev pub pushed : RwLock → ℕ → RwLock
pushed l i = record l {
  writer_ring = set l.writer_ring l.writer_ring_tail i;
  writer_ring_tail = (l.writer_ring_tail + 1) % writer_ring_size;
}

pushed-IsRing : (l : RwLock) (i : ℕ) → IsRing l → IsRing (pushed l i)
pushed-IsRing l i r = record {
  sized = length-set l.writer_ring l.writer_ring_tail i ∙ r.sized;
  head_in = r.head_in;
  tail_in = omega arith;
}

-- What a turn does to the ring.
pub record TurnQueues (i : ℕ) (p : Pc) (l : RwLock) (o : Pc × RwLock) : Type 0 where
  pub queues : Queues i p o.0 (queue l) (queue o.1)
  pub ring : IsRing o.1

rwlock_write_lock-Queues :
    (i : ℕ) (l : RwLock)
    → IsRing l
    → TurnQueues i idle l (settle writing write_waiting (rwlock_write_lock all_ok i l))
unfolding rwlock_write_lock
rwlock_write_lock-Queues i l r =
    elim (Bool-cases ((l.writer_ring_tail + 1) % writer_ring_size == l.writer_ring_head)) [
      | inl full ↦ rw full (record { queues = (refl, refl); ring = r })
      | inr room ↦
          let ne : (l.writer_ring_tail + 1) % writer_ring_size ≢ l.writer_ring_head =
            ground arith in
          let (q, r') =
            write_lock_retry-Queues i (pushed l i) (pushed-IsRing l i r) (λ e. ne (sym e)) in
          rw room (record {
            queues =
                Queues-push i _ _ _ _ (queue-push l i r ne) (write_lock_retry-ends i (pushed l i))
                  q;
            ring = r';
          })
    ]

same-IsRing :
    {m : RwLock} (l : RwLock)
    → IsRing l
    → m.writer_ring ≡ l.writer_ring
    → m.writer_ring_head ≡ l.writer_ring_head
    → m.writer_ring_tail ≡ l.writer_ring_tail
    → IsRing m
same-IsRing l r e h t = record {
  sized = ap (λ x. length x) e ∙ r.sized;
  head_in = omega (arith, r.head_in);
  tail_in = omega (arith, r.tail_in);
}

pub turn-Queues :
    (i : ℕ) (r : Request) (p : Pc) (l : RwLock)
    → IsRing l
    → (p ≡ write_waiting → l.writer_ring_head ≢ l.writer_ring_tail)
    → TurnQueues i p l (turn i r p l)
unfolding turn rwlock_read_lock rwlock_read_unlock rwlock_write_unlock read_lock_retry
turn-Queues i read idle l g ne = elim (Bool-cases (is_positive l.write_count)) [
  | inl e ↦ rw e (record { queues = (refl, refl); ring = same-IsRing l g refl refl refl })
  | inr e ↦ rw e (record { queues = (refl, refl); ring = same-IsRing l g refl refl refl })
]
turn-Queues i write idle l g ne = rwlock_write_lock-Queues i l g
turn-Queues i r read_waiting l g ne = elim (Bool-cases (is_positive l.write_count)) [
  | inl e ↦ rw e (record { queues = (refl, refl); ring = same-IsRing l g refl refl refl })
  | inr e ↦ rw e (record { queues = (refl, refl); ring = same-IsRing l g refl refl refl })
]
turn-Queues i r reading l g ne = elim (Bool-cases (is_zero (pred_ℤ l.read_count))) [
  | inl e ↦ rw e (record { queues = (refl, refl); ring = same-IsRing l g refl refl refl })
  | inr e ↦ rw e (record { queues = (refl, refl); ring = same-IsRing l g refl refl refl })
]
turn-Queues i r write_waiting l g ne =
    let (q, g') = write_lock_retry-Queues i l g (ne refl) in record { queues = q; ring = g' }
turn-Queues i r writing l g ne = elim (Bool-cases (is_zero (pred_ℤ l.write_count))) [
  | inl e ↦ rw e (record { queues = (refl, refl); ring = same-IsRing l g refl refl refl })
  | inr e ↦ rw e (record { queues = (refl, refl); ring = same-IsRing l g refl refl refl })
]
