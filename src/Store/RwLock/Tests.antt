-- ===== src/Store/RwLock/Tests.antt =====
-- SP_LAB5/src/rwlock.c: the theorems at concrete runs of two threads.
use native.Mathlib.Decide.{ℕ_discrete}
use fall_snu_system_pro.Base.{ℕ, ◌≡◌, ◌⊎◌, inl, some, refl, arith}
use fall_snu_system_pro.Store.RwLock.{null, success, cleared, rwlock_init, rwlock_write_lock}
use fall_snu_system_pro.Store.RwLock.Queue.{queue}
use fall_snu_system_pro.Store.RwLock.Threads.{
  idle, writing, write_waiting, write, turn, System, taken, initial, take, all_made, Reach, start,
  later,
}
use fall_snu_system_pro.Store.RwLock.Exclusion.{Inv, Reach-Inv, mutual_exclusion}
use fall_snu_system_pro.Store.RwLock.Arrival.{arrival_order, never_full}
use fall_snu_system_pro.Store.RwLock.Turns.{Queues}

-- Thread 0 takes the write lock, and thread 1 has to wait for it.
abbrev first_in : System
first_in = taken (initial (cleared 0)) 0 write

abbrev second_waits : System
second_waits = taken first_in 1 write

made : rwlock_init all_made null 0 ≡ some (success, cleared 0)
unfolding rwlock_init
made = refl

first_in-Reach : Reach 2 0 first_in
first_in-Reach = later (start null (cleared 0) made) (take 0 write (omega arith))

second_waits-Reach : Reach 2 0 second_waits
second_waits-Reach = later first_in-Reach (take 1 write (omega arith))

Reach-Inv_example : Inv 2 second_waits
Reach-Inv_example = Reach-Inv second_waits-Reach

here : second_waits.pc 0 ≡ writing
unfolding turn rwlock_write_lock ℕ_discrete
here = refl

outside : first_in.pc 1 ≡ idle
unfolding ℕ_discrete
outside = refl

abbrev writer : ℕ
writer = 0

mutual_exclusion_example : writer ≡ writer
mutual_exclusion_example =
    mutual_exclusion second_waits-Reach writer writer (omega arith) (omega arith) here (inl here)

arrival_order_example :
    Queues 1 (first_in.pc 1) (second_waits.pc 1) (queue first_in.lock) (queue second_waits.lock)
arrival_order_example = arrival_order first_in-Reach 1 write

never_full_example : (second_waits.pc 1 ≡ writing) ⊎ (second_waits.pc 1 ≡ write_waiting)
never_full_example = never_full (omega arith) first_in-Reach 1 (omega arith) outside
