-- ===== src/Store/Table/Free.antt =====
-- SP_LAB5/src/rwlock.c for one thread: a free lock is taken at once and given back free.
use fall_snu_system_pro.Base.{ℕ, ◌+◌, ◌%◌, ◌≡◌, refl, ◌∙◌, arith, length-set, set, get_or-set_self}
use fall_snu_system_pro.Base.Int.{pos}
use fall_snu_system_pro.Store.RwLock.Queue.{IsRing}
use fall_snu_system_pro.Store.RwLock.Threads.{all_ok}
use fall_snu_system_pro.Store.RwLock.{
  RwLock, Call, returns, success, nobody, one_writer, Wake, rwlock_read_lock, rwlock_read_unlock,
  rwlock_write_lock, rwlock_write_unlock, writer_ring_size,
}

-- Nobody holds the lock or waits for it.
pub record IsFree (l : RwLock) : Type 0 where
  pub no_reader : l.read_count ≡ pos 0
  pub no_writer : l.write_count ≡ pos 0
  pub ring : IsRing l
  pub empty : l.writer_ring_head ≡ l.writer_ring_tail

-- Taking a lock by `take` and giving it back by `leave` succeeds, and leaves the lock free.
pub record Rounds (take leave : RwLock → Call) (l : RwLock) : Type 0 where
  pub held : RwLock
  pub after : RwLock
  pub woken : Wake
  pub takes : take l ≡ returns success nobody held
  pub leaves : leave held ≡ returns success woken after
  pub free : IsFree after

pub read-Rounds :
    (l : RwLock) → IsFree l → Rounds (rwlock_read_lock all_ok) (rwlock_read_unlock all_ok) l
unfolding rwlock_read_lock rwlock_read_unlock
read-Rounds l f = record {
  held = record l { read_count = pos 1 };
  after = record l { read_count = pos 0 };
  woken = one_writer;
  takes = ground arith;
  leaves = refl;
  free = record {
    no_reader = refl;
    no_writer = f.no_writer;
    ring = record { sized = f.ring.sized; head_in = f.ring.head_in; tail_in = f.ring.tail_in };
    empty = f.empty;
  };
}

pub write-Rounds :
    (self : ℕ) (l : RwLock)
    → IsFree l
    → Rounds (rwlock_write_lock all_ok self) (rwlock_write_unlock all_ok) l
unfolding rwlock_write_lock rwlock_write_unlock
write-Rounds self l f =
    let ring' = set l.writer_ring l.writer_ring_tail self in
    let next = (l.writer_ring_tail + 1) % writer_ring_size in
    let here =
      get_or-set_self l.writer_ring l.writer_ring_tail self 0
        (omega (arith, f.ring.sized, f.ring.tail_in)) in
    record {
      held = record l {
        write_count = pos 1;
        writer_ring = ring';
        writer_ring_head = next;
        writer_ring_tail = next;
      };
      after = record l {
        write_count = pos 0;
        writer_ring = ring';
        writer_ring_head = next;
        writer_ring_tail = next;
      };
      woken = one_writer;
      takes = ground (arith, f.empty, f.no_writer, f.no_reader, f.ring.tail_in);
      leaves = ground (arith, f.no_reader);
      free = record {
        no_reader = f.no_reader;
        no_writer = refl;
        ring = record {
          sized = length-set l.writer_ring l.writer_ring_tail self ∙ f.ring.sized;
          head_in = omega arith;
          tail_in = omega arith;
        };
        empty = refl;
      };
    }
