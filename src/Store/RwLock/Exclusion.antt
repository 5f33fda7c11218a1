-- ===== src/Store/RwLock/Exclusion.antt =====
-- SP_LAB5/src/rwlock.c: the counters count, and a writer is alone.
use native.Mathlib.Decide.{dec_lt}
use fall_snu_system_pro.Base.{
  ℕ, zero, suc, ◌+◌, ◌-◌, ◌≤◌, ◌<◌, ◌≡◌, ◌⊎◌, inl, inr, refl, ap, sym, ◌∙◌, arith, subst,
}
use fall_snu_system_pro.Base.Int.{pos}
use fall_snu_system_pro.Store.RwLock.Threads.{
  Pc, idle, read_waiting, reading, write_waiting, writing, Request, read, write, turn, System,
  taken, take, initial, rwlock_init-cleared, Reach, start, later, total, total-update,
  total-eq-zero, total-le-total, le-total, add-le-total,
}
use fall_snu_system_pro.Store.RwLock.{
  RwLock, cleared, rwlock_read_lock, rwlock_read_unlock, rwlock_write_lock, rwlock_write_unlock,
}

abbrev pub counts_read : Pc → ℕ
counts_read read_waiting = 1
counts_read reading = 1
counts_read _ = 0

abbrev pub is_reading : Pc → ℕ
is_reading reading = 1
is_reading _ = 0

abbrev pub is_writing : Pc → ℕ
is_writing writing = 1
is_writing _ = 0

-- `read_count` counts the readers inside and those that wait, `write_count` the writer; while
-- there is a writer, nobody reads.
pub record Inv (n : ℕ) (s : System) : Type 0 where
  pub readers : s.lock.read_count ≡ pos (total counts_read n s.pc)
  pub writers : s.lock.write_count ≡ pos (total is_writing n s.pc)
  pub alone :
      (total is_writing n s.pc ≡ 0)
      ⊎ ((total is_writing n s.pc ≡ 1) × (total is_reading n s.pc ≡ 0))

-- What a turn that leads from `p` to `p'` does to the counters `reads` and `writes`, and when it
-- may let the thread in.
record Effect (p p' : Pc) (reads writes : ℕ) (l : RwLock) : Type 0 where
  readers_kept : l.read_count ≡ pos (reads + counts_read p' - counts_read p)
  writers_kept : l.write_count ≡ pos (writes + is_writing p' - is_writing p)
  enters_read : (is_reading p' ≤ is_reading p) ⊎ (writes ≡ 0)
  enters_write : (is_writing p' ≤ is_writing p) ⊎ ((writes ≡ 0) × (reads ≡ 0))

turn-Effect :
    (i : ℕ) (r : Request) (p : Pc) (l : RwLock) (reads writes : ℕ)
    → l.read_count ≡ pos reads
    → l.write_count ≡ pos writes
    → counts_read p ≤ reads
    → is_writing p ≤ writes
    → Effect p (turn i r p l).0 reads writes (turn i r p l).1
unfolding turn rwlock_read_lock rwlock_read_unlock rwlock_write_lock rwlock_write_unlock
turn-Effect i read idle l reads zero er ew hr hw = ground arith
turn-Effect i read idle l reads (suc writes) er ew hr hw = ground arith
turn-Effect i write idle l zero zero er ew hr hw = ground arith
turn-Effect i write idle l (suc reads) zero er ew hr hw = ground arith
turn-Effect i write idle l reads (suc writes) er ew hr hw = ground arith
turn-Effect i r read_waiting l reads zero er ew hr hw = ground arith
turn-Effect i r read_waiting l reads (suc writes) er ew hr hw = ground arith
turn-Effect i r reading l zero writes er ew hr hw = absurd (omega arith)
turn-Effect i r reading l (suc reads) writes er ew hr hw = ground arith
turn-Effect i r write_waiting l zero zero er ew hr hw = ground arith
turn-Effect i r write_waiting l (suc reads) zero er ew hr hw = ground arith
turn-Effect i r write_waiting l reads (suc writes) er ew hr hw = ground arith
turn-Effect i r writing l reads zero er ew hr hw = absurd (omega arith)
turn-Effect i r writing l reads (suc writes) er ew hr hw = ground arith

one_place : (p : Pc) → is_writing p + is_reading p ≤ 1
one_place p = ground arith

reading-le-counts : (p : Pc) → is_reading p ≤ counts_read p
reading-le-counts p = ground arith

taken-Inv : {n : ℕ} (s : System) (i : ℕ) (r : Request) → i < n → Inv n s → Inv n (taken s i r)
taken-Inv {n} s i r lt inv =
    let p' = (turn i r (s.pc i) s.lock).0 in
    let ur = total-update counts_read n s.pc i p' lt in
    let uw = total-update is_writing n s.pc i p' lt in
    let ui = total-update is_reading n s.pc i p' lt in
    let lr = le-total counts_read n s.pc i lt in
    let lw = le-total is_writing n s.pc i lt in
    let li = le-total is_reading n s.pc i lt in
    let f =
      turn-Effect i r (s.pc i) s.lock (total counts_read n s.pc) (total is_writing n s.pc)
        inv.readers inv.writers lr lw in
    record {
      readers = f.readers_kept ∙ ap pos (omega arith);
      writers = f.writers_kept ∙ ap pos (omega arith);
      alone = omega (
        arith,
        one_place (s.pc i),
        one_place p',
        total-le-total is_reading counts_read reading-le-counts n s.pc,
      );
    }

initial-Inv : (n delay : ℕ) → Inv n (initial (cleared delay))
initial-Inv n delay = record {
  readers = ap pos (sym (total-eq-zero counts_read n (λ i. idle) (λ i. refl)));
  writers = ap pos (sym (total-eq-zero is_writing n (λ i. idle) (λ i. refl)));
  alone = inl (total-eq-zero is_writing n (λ i. idle) (λ i. refl));
}

-- While the calls of the thread library succeed, in every interleaving read_count is the number
-- of readers inside or waiting, write_count the number of writers inside, and either no writer is
-- inside or one writer and no reader.
pub Reach-Inv : {n delay : ℕ} {s : System} → Reach n delay s → Inv n s
Reach-Inv {n} {delay} (start old l e) =
    subst (λ m. Inv n (initial m)) (rwlock_init-cleared old delay l e) (initial-Inv n delay)
Reach-Inv (later {s} r (take i q lt)) = taken-Inv s i q lt (Reach-Inv r)

-- While the calls of the thread library succeed, in every interleaving, a thread that holds the
-- write lock is alone: no other thread holds the lock, for writing or for reading.
pub mutual_exclusion :
    {n delay : ℕ} {s : System}
    → Reach n delay s
    → (i j : ℕ) → i < n
    → j < n
    → s.pc i ≡ writing
    → (s.pc j ≡ writing) ⊎ (s.pc j ≡ reading)
    → i ≡ j
mutual_exclusion {n} {s} r i j li lj wi (inl wj) = elim (dec_lt i j) [
  | yes h ↦ absurd (ground (arith, add-le-total is_writing n s.pc i j h lj, (Reach-Inv r).alone))
  | no h ↦ elim (dec_lt j i) [
    | yes h' ↦
        absurd (ground (arith, add-le-total is_writing n s.pc j i h' li, (Reach-Inv r).alone))
    | no h' ↦ omega arith
  ]
]
mutual_exclusion {n} {s} r i j li lj wi (inr rj) = absurd (
    ground (
      arith,
      le-total is_writing n s.pc i li,
      le-total is_reading n s.pc j lj,
      (Reach-Inv r).alone,
    ))
