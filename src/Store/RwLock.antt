-- ===== src/Store/RwLock.antt =====
-- SP_LAB5/src/rwlock.c: the reader-writer lock with its ring of waiting writers. Each function is
-- split where it gives the mutex away: a call returns, or it waits on a condition variable and is
-- resumed by its `retry`.
mod Tests
pub mod Queue
pub mod Threads
pub mod Exclusion
pub mod Turns
pub mod Arrival
use fall_snu_system_pro.Base.{
  ℕ, ◌+◌, ◌%◌, Bool, true, false, Option, none, some, not, ◌&&◌, ◌||◌, List, [], ◌==◌,
  if◌then◌else◌, get_or, set, replicate,
}
use fall_snu_system_pro.Base.Int.{ℤ, pos, suc_ℤ, pred_ℤ, is_positive, is_zero}

-- `WRITER_RING_SIZE`, which is `NUM_THREADS`.
abbrev pub writer_ring_size : ℕ
writer_ring_size = 10

-- `rwlock_t` without its mutex and condition variables; a thread is its number.
pub record RwLock : Type 0 where
  pub read_count : ℤ
  pub write_count : ℤ
  pub writer_ring : List ℕ
  pub writer_ring_head : ℕ
  pub writer_ring_tail : ℕ
  pub delay : ℕ

-- What the calls of the thread library answer: whether each returns 0.
pub record Pthread : Type 0 where
  pub lock_ok : Bool
  pub wait_ok : Bool
  pub wake_ok : Bool
  pub unlock_ok : Bool

-- The return values 0 and -1.
pub data Code : Type 0 where
  success failure : Code

-- Whom a function wakes.
pub data Wake : Type 0 where
  nobody one_writer all_readers : Wake

-- How a function leaves the mutex: for good, or to wait for a signal. `fails` is the return of -1
-- when the mutex was not taken.
pub data Call : Type 0 where
  returns : Code → Wake → RwLock → Call
  waits : Wake → RwLock → Call

-- The last test of each function: `if (pthread_mutex_unlock(&rw->lock) != 0) return -1; return 0;`
abbrev pub unlock : Pthread → Wake → RwLock → Call
unlock p w l = returns (if p.unlock_ok then success else failure) w l

-- What the calls in `rwlock_init` answer: the ring's `calloc`, and the three objects.
pub record Setup : Type 0 where
  pub ring_ok : Bool
  pub mutex_ok : Bool
  pub readers_ok : Bool
  pub writers_ok : Bool

-- What a pointer field holds before it is set: NULL, a block that nothing else uses, so that `free`
-- takes it, or anything else.
pub data Pointer : Type 0 where
  null block wild : Pointer

-- `if (rw->writer_ring) free(rw->writer_ring);`: what `free` does to a wild pointer is undefined.
abbrev pub freed_if_set : Pointer → Bool
freed_if_set wild = false
freed_if_set _ = true

-- The fields that it sets; `calloc` clears the ring.
abbrev pub cleared : ℕ → RwLock
cleared delay = record {
  read_count = pos 0;
  write_count = pos 0;
  writer_ring = replicate writer_ring_size 0;
  writer_ring_head = 0;
  writer_ring_tail = 0;
  delay = delay;
}

-- Whether it returns 0, and the fields of a lock that it has made, by what `rw->writer_ring` holds
-- before; `none` is undefined.
unfoldable pub rwlock_init : Setup → Pointer → ℕ → Option (Code × RwLock)
rwlock_init c old delay =
    if freed_if_set old
    then some (
      if c.ring_ok && c.mutex_ok && c.readers_ok && c.writers_ok then success else failure,
      cleared delay,
    )
    else none

-- The `while` loop of `rwlock_read_lock`, and what follows it.
unfoldable pub read_lock_retry : Pthread → RwLock → Call
read_lock_retry p l =
    if is_positive l.write_count
    then if p.wait_ok then waits nobody l else returns failure nobody l
    else unlock p nobody l

unfoldable pub rwlock_read_lock : Pthread → RwLock → Call
unfolding read_lock_retry
rwlock_read_lock p l =
    if p.lock_ok
    then read_lock_retry p (record l { read_count = suc_ℤ l.read_count })
    else returns failure nobody l

-- After the signal of an unlock, whose failure gives the mutex back and is returned.
abbrev pub wake_and_unlock : Pthread → Wake → RwLock → Call
wake_and_unlock p w l = if p.wake_ok then unlock p w l else returns failure nobody l

-- `rwlock_read_unlock` after `read_count--`.
unfoldable pub read_unlock_counted : Pthread → RwLock → Call
read_unlock_counted p l =
    if is_zero l.read_count then wake_and_unlock p one_writer l else unlock p nobody l

unfoldable pub rwlock_read_unlock : Pthread → RwLock → Call
unfolding read_unlock_counted
rwlock_read_unlock p l =
    if p.lock_ok
    then read_unlock_counted p (record l { read_count = pred_ℤ l.read_count })
    else returns failure nobody l

-- The test of the `while` loop of `rwlock_write_lock` in the thread `self`.
abbrev pub must_wait : ℕ → RwLock → Bool
must_wait self l =
    is_positive l.write_count
    || is_positive l.read_count
    || not (get_or l.writer_ring l.writer_ring_head 0 == self)

-- The loop, and what follows it. The result of the signal inside the loop is not tested.
abbrev pub pass_on : RwLock → Wake
pass_on l = if is_zero l.write_count && is_zero l.read_count then one_writer else nobody

unfoldable pub write_lock_retry : Pthread → ℕ → RwLock → Call
write_lock_retry p self l =
    if must_wait self l
    then if p.wait_ok then waits (pass_on l) l else returns failure (pass_on l) l
    else unlock p nobody (record l {
      write_count = suc_ℤ l.write_count;
      writer_ring_head = (l.writer_ring_head + 1) % writer_ring_size;
    })

unfoldable pub rwlock_write_lock : Pthread → ℕ → RwLock → Call
unfolding write_lock_retry
rwlock_write_lock p self l =
    if p.lock_ok
    then if (l.writer_ring_tail + 1) % writer_ring_size == l.writer_ring_head
      then returns failure nobody l
      else write_lock_retry p self (record l {
        writer_ring = set l.writer_ring l.writer_ring_tail self;
        writer_ring_tail = (l.writer_ring_tail + 1) % writer_ring_size;
      })
    else returns failure nobody l

-- `rwlock_write_unlock` after `write_count--`.
unfoldable pub write_unlock_counted : Pthread → RwLock → Call
write_unlock_counted p l =
    if is_zero l.write_count
    then wake_and_unlock p (if is_zero l.read_count then one_writer else all_readers) l
    else unlock p nobody l

unfoldable pub rwlock_write_unlock : Pthread → RwLock → Call
unfolding write_unlock_counted
rwlock_write_unlock p l =
    if p.lock_ok
    then write_unlock_counted p (record l { write_count = pred_ℤ l.write_count })
    else returns failure nobody l

-- The three `destroy` calls in order; `ring_ok` plays no part. The ring is freed at the end.
unfoldable pub rwlock_destroy : Setup → RwLock → Code × RwLock
rwlock_destroy c l =
    if c.mutex_ok && c.readers_ok && c.writers_ok
    then (success, record l { writer_ring = [] })
    else (failure, l)
