-- ===== src/Store/Table/Remove.antt =====
-- SP_LAB5/src/hashtable.c: hash_delete on a table whose locks are free.
use fall_snu_system_pro.Base.{
  ℕ, ◌+◌, ◌-◌, ◌%◌, ◌≤◌, ◌≡◌, arith, none, List, [], length, get_or, set, Option-cases, inl, inr,
}
use fall_snu_system_pro.Store.Chain.{Node, Memory, list_delete}
use fall_snu_system_pro.Store.Chain.Lookup.{
  find, count, find-list_delete, count-list_delete-le, list_delete-found, length-list_delete,
}
use fall_snu_system_pro.Store.RwLock.{rwlock_write_lock, rwlock_write_unlock}
use fall_snu_system_pro.Store.RwLock.Threads.{all_ok}
use fall_snu_system_pro.Store.Table.{
  Table, size_limit, hash, with_head, delete_section, hash_delete,
}
use fall_snu_system_pro.Store.Table.Free.{write-Rounds}
use fall_snu_system_pro.Store.Table.Valid.{IsValid, lookup, set-IsData, length-le-total_length}
use fall_snu_system_pro.Store.Table.Calls.{locked_lem}
use fall_snu_system_pro.Store.Table.Map.{
  remove, Effect, healthy, home-lt, head-eq, set-lookup, hash-same,
}

module _ (t : Table) (key : List ℕ) (ok : IsValid t) where
  -- Hash_delete on a valid table returns 1 where the key is there and 0 otherwise; the map it
  -- leaves has nothing under the key and is the same elsewhere, and the table is valid again;
  -- while the thread library makes no error.
  pub hash_delete-Effect :
      (self : ℕ) (m : Memory)
      → Effect (hash_delete (healthy self m) t key) none (remove (lookup t) key)
  unfolding hash_delete with_head delete_section
  hash_delete-Effect self m =
      let n = t.hash_size in
      let i = hash key n in
      let head = get_or t.buckets i [] in
      let inside = home-lt t key ok in
      let u =
        locked_lem (rwlock_write_lock all_ok self) (rwlock_write_unlock all_ok) t i
          (delete_section i head key) (λ l f. write-Rounds self l f) ok.locks_ok inside
          (λ u. ground arith) in
      let found = list_delete-found head key in
      let at = head-eq t key ok in
      let b : List Node = (list_delete head key).1 in
      let long = length-list_delete head key in
      let once : count head key ≤ 1 = ground (arith, ok.data_ok.placed i key) in
      let counted = ok.data_ok.counted i in
      elim (Option-cases (find head key)) [
        | inl e ↦ record {
          table = record t { locks = u.locks' };
          returns = ground (arith, at, u.runs, found, e);
          valid = record { locks_ok = u.locks_ok; data_ok = ok.data_ok };
          holds = λ q. ground (arith, e);
        }
        | inr (old, e) ↦
            let short = length-le-total_length t.buckets i in
            let longer : length b + 1 ≡ length head = ground (arith, long, e) in
            let size : (get_or t.bucket_sizes i 0 + size_limit - 1) % size_limit ≡ length b =
              omega (arith, short, counted, ok.data_ok.summed, ok.data_ok.fits, longer) in
            let entries : (t.total_entries + size_limit - 1) % size_limit ≡ t.total_entries - 1 =
              omega (arith, short, ok.data_ok.summed, ok.data_ok.fits, longer) in
            record {
              table = record t {
                locks = u.locks';
                buckets = set t.buckets i b;
                bucket_sizes = set t.bucket_sizes i (length b);
                total_entries = t.total_entries - 1;
              };
              returns = ground (arith, at, u.runs, found, e, size, entries);
              valid = record {
                locks_ok = u.locks_ok;
                data_ok =
                    set-IsData n t.buckets t.bucket_sizes t.total_entries i b (t.total_entries - 1)
                      inside ok.data_ok
                      (λ k. ground (arith, count-list_delete-le key k head, ok.data_ok.placed i k))
                      (omega (arith, longer, short, ok.data_ok.summed))
                      (omega (arith, ok.data_ok.fits));
              };
              holds = λ q. ground (
                arith,
                e,
                find-list_delete key q head once,
                set-lookup t key ok b q,
                hash-same t key ok q,
              );
            }
      ]
