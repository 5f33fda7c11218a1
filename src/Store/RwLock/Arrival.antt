-- ===== src/Store/RwLock/Arrival.antt =====
-- SP_LAB5/src/rwlock.c: writers get the lock in the order of their arrival.
use fall_snu_system_pro.Base.{
  ℕ, ◌+◌, ◌%◌, ◌<◌, ◌≡◌, ◌≢◌, ◌⊎◌, inl, inr, refl, ap, sym, subst, ◌∙◌, arith, false, List, [], ◌∷◌,
  ◌++◌, ◌==◌, if◌then◌else◌, length, length-append,
}
use fall_snu_system_pro.Store.RwLock.Queue.{queue, waiting, IsRing, slots, length-slots}
use fall_snu_system_pro.Store.RwLock.Threads.{
  Pc, idle, write_waiting, writing, Request, write, turn, System, taken, take, initial,
  rwlock_init-cleared, Reach, start, later, total, total-update, total-eq-zero, total-lt,
}
use fall_snu_system_pro.Store.RwLock.{RwLock, cleared, rwlock_write_lock, writer_ring_size}
use fall_snu_system_pro.Store.RwLock.Turns.{
  is_queued, Queues, write_lock_retry-ends, pushed, turn-Queues,
}

abbrev pub count : ℕ → List ℕ → ℕ
count i [] = 0
count i (x ∷ xs) = (if x == i then 1 else 0) + count i xs

count-append : (i : ℕ) (xs ys : List ℕ) → count i (xs ++ ys) ≡ count i xs + count i ys
count-append i [] ys = omega arith
count-append i (x ∷ xs) ys = omega (arith, count-append i xs ys)

-- The ring holds exactly the writers that wait, each of them once.
pub record InvQueue (n : ℕ) (s : System) : Type 0 where
  pub ring : IsRing s.lock
  pub queued : (j : ℕ) → count j (queue s.lock) ≡ is_queued (s.pc j)
  pub sized : length (queue s.lock) ≡ total is_queued n s.pc

-- A turn keeps both counts in step.
Queues-count :
    (i : ℕ) (p p' : Pc) (q q' : List ℕ) (j : ℕ)
    → Queues i p p' q q'
    → count i q ≡ is_queued p
    → (count j q' ≡ (if i == j then is_queued p' else count j q))
      × (length q' + is_queued p ≡ length q + is_queued p')
Queues-count i idle write_waiting q q' j h e = ground (
  arith,
  ap (count j) h,
  ap (λ x. length x) h,
  count-append j q (i ∷ []),
  length-append q (i ∷ []),
)
Queues-count i idle writing q q' j h e = ground (
  arith,
  ap (count j) h,
  ap (λ x. length x) h,
  count-append j q (i ∷ []),
  length-append q (i ∷ []),
)
Queues-count i write_waiting writing q q' j h e =
    ground (arith, ap (count j) h, ap (count i) h, ap (λ x. length x) h)
Queues-count i p p' q q' j h e = ground (arith, ap (count j) h.0, ap (λ x. length x) h.0)

-- A writer that waits is in the ring, so the ring is not empty.
not_empty :
    (l : RwLock) (i : ℕ)
    → IsRing l
    → count i (queue l) ≡ 1
    → l.writer_ring_head ≢ l.writer_ring_tail
not_empty l i r h e =
    let none_waiting : waiting l ≡ 0 = omega arith in
    absurd
      (omega (arith, ap (λ k. count i (slots l.writer_ring l.writer_ring_head k)) none_waiting))

taken-InvQueue :
    {n : ℕ} (s : System) (i : ℕ) (r : Request) → i < n → InvQueue n s → InvQueue n (taken s i r)
taken-InvQueue {n} s i r lt inv =
    let p' = (turn i r (s.pc i) s.lock).0 in
    let l' = (turn i r (s.pc i) s.lock).1 in
    let t =
      turn-Queues i r (s.pc i) s.lock inv.ring
        (λ e. not_empty s.lock i inv.ring (inv.queued i ∙ ap is_queued e)) in
    let counts =
      λ (j : ℕ). Queues-count i (s.pc i) p' (queue s.lock) (queue l') j t.queues (inv.queued i) in
    record {
      ring = t.ring;
      queued = λ j. ground (arith, (counts j).0, inv.queued j);
      sized = omega (arith, (counts i).1, total-update is_queued n s.pc i p' lt, inv.sized);
    }

initial-InvQueue : (n delay : ℕ) → InvQueue n (initial (cleared delay))
initial-InvQueue n delay = record {
  ring = record { sized = refl; head_in = omega arith; tail_in = omega arith };
  queued = λ j. refl;
  sized = sym (total-eq-zero is_queued n (λ i. idle) (λ i. refl));
}

pub Reach-InvQueue : {n delay : ℕ} {s : System} → Reach n delay s → InvQueue n s
Reach-InvQueue {n} {delay} (start old l e) =
    subst (λ m. InvQueue n (initial m)) (rwlock_init-cleared old delay l e)
      (initial-InvQueue n delay)
Reach-InvQueue (later {s} r (take i q lt)) = taken-InvQueue s i q lt (Reach-InvQueue r)

-- While the calls of the thread library succeed, in every interleaving a writer that has to wait
-- goes to the end of the queue of waiting writers, a writer gets the lock only from the front of
-- that queue, and no other turn changes it.
pub arrival_order :
    {n delay : ℕ} {s : System}
    → Reach n delay s
    → (i : ℕ) (r : Request)
    → Queues i (s.pc i) ((taken s i r).pc i) (queue s.lock) (queue (taken s i r).lock)
arrival_order {s} reached i r =
    let inv = Reach-InvQueue reached in
    let t =
      turn-Queues i r (s.pc i) s.lock inv.ring
        (λ e. not_empty s.lock i inv.ring (inv.queued i ∙ ap is_queued e)) in
    subst (λ p'. Queues i (s.pc i) p' (queue s.lock) (queue (taken s i r).lock)) (ground arith)
      t.queues

room-ends :
    (i : ℕ) (l : RwLock)
    → waiting l < 9
    → IsRing l
    → ((turn i write idle l).0 ≡ writing) ⊎ ((turn i write idle l).0 ≡ write_waiting)
unfolding turn rwlock_write_lock
room-ends i l few r =
    let room : ((l.writer_ring_tail + 1) % writer_ring_size == l.writer_ring_head) ≡ false =
      ground (arith, r.head_in, r.tail_in) in
    rw room (elim (write_lock_retry-ends i (pushed l i)) [ inl e ↦ inr e | inr e ↦ inl e ])

-- With at most nine threads, while the calls of the thread library succeed, the ring never fills
-- up: a thread that asks for the write lock gets it or waits, and the call does not fail.
pub never_full :
    {n delay : ℕ} {s : System}
    → n < writer_ring_size
    → Reach n delay s
    → (i : ℕ) → i < n
    → s.pc i ≡ idle
    → ((taken s i write).pc i ≡ writing) ⊎ ((taken s i write).pc i ≡ write_waiting)
never_full {n} {s} few reached i lt e =
    let inv = Reach-InvQueue reached in
    let total_few = total-lt is_queued (λ p. ground arith) n s.pc i lt (ap is_queued e) in
    let counted = length-slots s.lock.writer_ring s.lock.writer_ring_head (waiting s.lock) in
    let ends = room-ends i s.lock (omega (arith, inv.sized)) inv.ring in
    let here : (taken s i write).pc i ≡ (turn i write idle s.lock).0 = ground arith in
    elim ends [ inl w ↦ inl (here ∙ w) | inr w ↦ inr (here ∙ w) ]
