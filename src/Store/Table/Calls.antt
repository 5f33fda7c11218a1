-- ===== src/Store/Table/Calls.antt =====
-- SP_LAB5/src/hashtable.c: a call of a table operation while its bucket's lock is free.
use fall_snu_system_pro.Base.{
  ℕ, ◌<◌, ◌≡◌, ap, ◌∙◌, arith, Option, some, List, get_elem?, set, get_elem?-in, get_elem?-set_self,
  set-set,
}
use fall_snu_system_pro.Store.Chain.{Result}
use fall_snu_system_pro.Store.RwLock.{RwLock, Call}
use fall_snu_system_pro.Store.Table.{Table, Outcome, returned, locked, set_lock}
use fall_snu_system_pro.Store.Table.Free.{IsFree, Rounds}
use fall_snu_system_pro.Store.Table.Valid.{IsLocked, set-IsLocked}

-- The locks after a call on bucket `i`.
pub record Unlocked (n i : ℕ) (section : Table → Result × Option (List ℕ) × Table) (run : Outcome)
    (t : Table) : Type 0 where
  pub held : RwLock
  pub locks' : List RwLock
  pub locks_ok : IsLocked n locks'
  pub runs : run ≡ (
      let (r, v, t') = section (set_lock t i held) in returned r v (record t' { locks = locks' }))

-- A section that leaves the locks alone runs between the lock and the unlock, which both succeed.
pub locked_lem :
    (lock unlock : RwLock → Call) (t : Table) (i : ℕ)
    (section : Table → Result × Option (List ℕ) × Table)
    → ((l : RwLock) → IsFree l → Rounds lock unlock l)
    → IsLocked t.hash_size t.locks
    → i < t.hash_size
    → ((u : Table) → (section u).2.locks ≡ u.locks)
    → Unlocked t.hash_size i section (locked lock unlock t i section) t
unfolding locked
locked_lem lock unlock t i section rounds ok h keeps =
    let (l, at) = get_elem?-in t.locks i (omega (arith, ok.sized)) in
    let r = rounds l (ok.free i l at) in
    let u = set_lock t i r.held in
    let at' : get_elem? (section u).2.locks i ≡ some r.held =
      ap (λ ls. get_elem? ls i) (keeps u)
      ∙ get_elem?-set_self t.locks i r.held (omega (arith, ok.sized)) in
    let same : set (section u).2.locks i r.after ≡ set t.locks i r.after =
      ap (λ ls. set ls i r.after) (keeps u) ∙ set-set t.locks i r.held r.after in
    record {
      held = r.held;
      locks' = set t.locks i r.after;
      locks_ok = set-IsLocked t.hash_size t.locks i r.after ok r.free;
      runs = ground (arith, at, r.takes, at', r.leaves, same);
    }
