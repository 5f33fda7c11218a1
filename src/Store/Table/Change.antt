-- ===== src/Store/Table/Change.antt =====
-- SP_LAB5/src/hashtable.c: hash_update on a table whose locks are free.
use fall_snu_system_pro.Base.{
  ℕ, ◌≡◌, sym, ◌∙◌, arith, none, List, [], length, get_or, set, set-get_or_self,
}
use fall_snu_system_pro.Store.Chain.{Node, Memory, list_update}
use fall_snu_system_pro.Store.Chain.Lookup.{
  find, count, list_search-find, find-assign, count-assign, length-assign,
}
use fall_snu_system_pro.Store.RwLock.{rwlock_write_lock, rwlock_write_unlock}
use fall_snu_system_pro.Store.RwLock.Threads.{all_ok}
use fall_snu_system_pro.Store.Table.{Table, hash, with_head, update_section, hash_update}
use fall_snu_system_pro.Store.Table.Free.{write-Rounds}
use fall_snu_system_pro.Store.Table.Valid.{IsValid, lookup, set-IsData}
use fall_snu_system_pro.Store.Table.Calls.{locked_lem}
use fall_snu_system_pro.Store.Table.Map.{
  change, Effect, healthy, home-lt, head-eq, set-lookup, hash-same,
}

find-list_update :
    (m : Memory) (head : List Node) (key value q : List ℕ)
    → find (list_update m head key value).1 q ≡ (change m.value_ok (find head) key value).1 q
unfolding list_update
find-list_update m head key value q =
    ground (arith, list_search-find head key, find-assign key q head value)

list_update-result :
    (m : Memory) (head : List Node) (key value : List ℕ)
    → (list_update m head key value).0 ≡ (change m.value_ok (find head) key value).0
unfolding list_update
list_update-result m head key value = ground (arith, list_search-find head key)

length-list_update :
    (m : Memory) (head : List Node) (key value : List ℕ)
    → length (list_update m head key value).1 ≡ length head
unfolding list_update
length-list_update m head key value = ground (arith, length-assign head key value)

count-list_update :
    (m : Memory) (head : List Node) (key value q : List ℕ)
    → count (list_update m head key value).1 q ≡ count head q
unfolding list_update
count-list_update m head key value q = ground (arith, count-assign key q head value)

module _ (t : Table) (key : List ℕ) (ok : IsValid t) where
  -- Hash_update on a valid table returns 0 where the key is not there, -1 where memory fails and
  -- 1 otherwise; the map it leaves has the new value under the key in the last case and is the
  -- same in the others, and the table is valid again; while the thread library makes no error.
  pub hash_update-Effect :
      (self : ℕ) (m : Memory) (value : List ℕ)
      → Effect
          (hash_update (healthy self m) t key value)
          none
          (change m.value_ok (lookup t) key value)
  unfolding hash_update with_head update_section
  hash_update-Effect self m value =
      let n = t.hash_size in
      let i = hash key n in
      let head = get_or t.buckets i [] in
      let inside = home-lt t key ok in
      let u =
        locked_lem (rwlock_write_lock all_ok self) (rwlock_write_unlock all_ok) t i
          (update_section m i head key value) (λ l f. write-Rounds self l f) ok.locks_ok inside
          (λ u. ground arith) in
      let found = list_search-find head key in
      let at = head-eq t key ok in
      let b : List Node = (list_update m head key value).1 in
      let long = length-list_update m head key value in
      let same : set t.bucket_sizes i (length b) ≡ t.bucket_sizes =
        set-get_or_self t.bucket_sizes i (length b) 0 (ok.data_ok.counted i ∙ sym long)
          (omega (arith, inside, ok.data_ok.sizes_sized)) in
      record {
        table = record t {
          locks = u.locks';
          buckets = set t.buckets i b;
          bucket_sizes = set t.bucket_sizes i (length b);
        };
        returns = ground (arith, at, u.runs, list_update-result m head key value, same);
        valid = record {
          locks_ok = u.locks_ok;
          data_ok =
              set-IsData n t.buckets t.bucket_sizes t.total_entries i b t.total_entries inside
                ok.data_ok
                (λ k. ground (arith, count-list_update m head key value k, ok.data_ok.placed i k))
                (omega (arith, long)) ok.data_ok.fits;
        };
        holds = λ q. ground (
          arith,
          find-list_update m head key value q,
          set-lookup t key ok b q,
          hash-same t key ok q,
        );
      }
