-- ===== src/Store/RwLock/Threads.antt =====
-- SP_LAB5/src/rwlock.c with `n` threads, interleaved in any order. A thread that waits on a
-- condition variable may go on at any time, since POSIX allows wake-ups without a signal. The
-- calls of the thread library succeed.
use mathlib.Core.Logic.{ite}
use native.Mathlib.Decide.{ℕ_discrete, dec_lt}
use fall_snu_system_pro.Base.{ℕ, zero, suc, ◌+◌, ◌≤◌, ◌<◌, ◌≡◌, refl, arith, true, some}
use fall_snu_system_pro.Store.RwLock.{
  RwLock, Setup, Pointer, null, block, wild, cleared, Pthread, Call, returns, waits, success,
  failure, rwlock_init, rwlock_read_lock, read_lock_retry, rwlock_read_unlock, rwlock_write_lock,
  write_lock_retry, rwlock_write_unlock,
}

abbrev pub all_ok : Pthread
all_ok = record { lock_ok = true; wait_ok = true; wake_ok = true; unlock_ok = true }

-- Where a thread stands: outside, in one of the two waits, or between a lock and its unlock.
pub data Pc : Type 0 where
  idle read_waiting reading write_waiting writing : Pc

-- What a thread outside asks for next.
pub data Request : Type 0 where
  read write : Request

-- Where a call leaves the thread: `got` on success, `wait` while it waits.
abbrev pub settle : Pc → Pc → Call → Pc × RwLock
settle got wait (returns success w l) = (got, l)
settle got wait (returns failure w l) = (Pc.idle, l)
settle got wait (waits w l) = (wait, l)

-- The next turn of the thread `i`.
unfoldable pub turn : ℕ → Request → Pc → RwLock → Pc × RwLock
turn i read Pc.idle l = settle Pc.reading Pc.read_waiting (rwlock_read_lock all_ok l)
turn i write Pc.idle l = settle Pc.writing Pc.write_waiting (rwlock_write_lock all_ok i l)
turn i r Pc.read_waiting l = settle Pc.reading Pc.read_waiting (read_lock_retry all_ok l)
turn i r Pc.reading l = settle Pc.idle Pc.idle (rwlock_read_unlock all_ok l)
turn i r Pc.write_waiting l = settle Pc.writing Pc.write_waiting (write_lock_retry all_ok i l)
turn i r Pc.writing l = settle Pc.idle Pc.idle (rwlock_write_unlock all_ok l)

pub record System : Type 0 where
  pub lock : RwLock
  pub pc : ℕ → Pc

abbrev pub update : (ℕ → Pc) → ℕ → Pc → ℕ → Pc
update f i p j = ite (ℕ_discrete i j) p (f j)

abbrev pub taken : System → ℕ → Request → System
taken s i r = let (p, l) = turn i r (s.pc i) s.lock in record { lock = l; pc = update s.pc i p }

pub data Step (n : ℕ) (s : System) : System → Type 0 where
  take : (i : ℕ) (r : Request) → i < n → Step n s (taken s i r)

abbrev pub all_made : Setup
all_made = record { ring_ok = true; mutex_ok = true; readers_ok = true; writers_ok = true }

-- No thread is in the lock.
abbrev pub initial : RwLock → System
initial l = record { lock = l; pc = λ i. Pc.idle }

pub data Reach (n delay : ℕ) : System → Type 0 where
  start :
      (old : Pointer) (l : RwLock)
      → rwlock_init all_made old delay ≡ some (success, l)
      → Reach n delay (initial l)
  later : {s t : System} → Reach n delay s → Step n s t → Reach n delay t

pub rwlock_init-cleared :
    (old : Pointer) (delay : ℕ) (l : RwLock)
    → rwlock_init all_made old delay ≡ some (success, l)
    → cleared delay ≡ l
unfolding rwlock_init
rwlock_init-cleared null delay l e = ground (arith, e)
rwlock_init-cleared block delay l e = ground (arith, e)
rwlock_init-cleared wild delay l e = absurd (ground (arith, e))

-- Weighted sums over the first `n` threads.
module _ (w : Pc → ℕ) where
  pub total : ℕ → (ℕ → Pc) → ℕ
  total zero f = 0
  total (suc n) f = total n f + w (f n)

  total-update_above :
      (n : ℕ) (f : ℕ → Pc) (i : ℕ) (p : Pc) → n ≤ i → total n (update f i p) ≡ total n f
  unfolding total
  total-update_above zero f i p h = refl
  total-update_above (suc n) f i p h = ground (arith, total-update_above n f i p)

  pub total-update :
      (n : ℕ) (f : ℕ → Pc) (i : ℕ) (p : Pc)
      → i < n
      → total n (update f i p) + w (f i) ≡ total n f + w p
  unfolding total
  total-update zero f i p h = absurd (omega arith)
  total-update (suc n) f i p h = elim (dec_lt i n) [
    | yes below ↦ ground (arith, total-update n f i p below)
    | no last ↦ ground (arith, total-update_above n f i p)
  ]

  pub total-eq-zero : (n : ℕ) (f : ℕ → Pc) → ((i : ℕ) → w (f i) ≡ 0) → total n f ≡ 0
  unfolding total
  total-eq-zero zero f h = refl
  total-eq-zero (suc n) f h = omega (arith, total-eq-zero n f h, h n)

  total-le : ((p : Pc) → w p ≤ 1) → (n : ℕ) (f : ℕ → Pc) → total n f ≤ n
  unfolding total
  total-le small zero f = omega arith
  total-le small (suc n) f = omega (arith, total-le small n f, small (f n))

  pub le-total : (n : ℕ) (f : ℕ → Pc) (i : ℕ) → i < n → w (f i) ≤ total n f
  unfolding total
  le-total zero f i h = absurd (omega arith)
  le-total (suc n) f i h = elim (dec_lt i n) [
    | yes below ↦ omega (arith, le-total n f i below)
    | no last ↦ ground arith
  ]

  -- A thread that does not count leaves room.
  pub total-lt :
      ((p : Pc) → w p ≤ 1) → (n : ℕ) (f : ℕ → Pc) (i : ℕ) → i < n → w (f i) ≡ 0 → total n f < n
  unfolding total
  total-lt small zero f i h e = absurd (omega arith)
  total-lt small (suc n) f i h e = elim (dec_lt i n) [
    | yes below ↦ omega (arith, total-lt small n f i below e, small (f n))
    | no last ↦ ground (arith, total-le small n f)
  ]

  -- Two threads add up.
  pub add-le-total : (n : ℕ) (f : ℕ → Pc) (i j : ℕ) → i < j → j < n → w (f i) + w (f j) ≤ total n f
  unfolding total
  add-le-total zero f i j h k = absurd (omega arith)
  add-le-total (suc n) f i j h k = elim (dec_lt j n) [
    | yes below ↦ omega (arith, add-le-total n f i j h below)
    | no last ↦ ground (arith, le-total n f i)
  ]

pub total-le-total :
    (v w : Pc → ℕ) → ((p : Pc) → v p ≤ w p) → (n : ℕ) (f : ℕ → Pc) → total v n f ≤ total w n f
unfolding total
total-le-total v w h zero f = omega arith
total-le-total v w h (suc n) f = omega (arith, total-le-total v w h n f, h (f n))
