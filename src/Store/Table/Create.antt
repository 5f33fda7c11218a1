-- ===== src/Store/Table/Create.antt =====
-- SP_LAB5/src/hashtable.c: hash_insert on a table whose locks are free.
use fall_snu_system_pro.Base.{
  ℕ, ◌+◌, ◌%◌, ◌<◌, ◌≡◌, refl, sym, ap, ◌∙◌, arith, true, none, some, List, [], ◌∷◌, length, get_or,
  set, Option-cases, Bool-cases, inl, inr,
}
use fall_snu_system_pro.Store.Chain.{Node, Memory, same_string, list_search, list_insert}
use fall_snu_system_pro.Store.Chain.Lookup.{
  find, count, value_of, list_search-find, same_string_iff, count-eq-zero,
}
use fall_snu_system_pro.Store.RwLock.{rwlock_write_lock, rwlock_write_unlock}
use fall_snu_system_pro.Store.RwLock.Threads.{all_ok}
use fall_snu_system_pro.Store.Table.{
  Table, size_limit, hash, with_head, insert_section, hash_insert, hash_insert_between,
}
use fall_snu_system_pro.Store.Table.Free.{write-Rounds}
use fall_snu_system_pro.Store.Table.Valid.{IsValid, lookup, set-IsData, length-le-total_length}
use fall_snu_system_pro.Store.Table.Calls.{locked_lem}
use fall_snu_system_pro.Store.Table.Map.{
  memory_ok, create, Effect, healthy, home-lt, head-eq, put-lookup,
}

module _ (t : Table) (key : List ℕ) (ok : IsValid t) where
  -- Hash_insert on a valid table returns 0 where the key is there, -1 where memory fails and 1
  -- otherwise; the map it leaves has the value under the key in the last case and is the same in
  -- the others, and the table is valid again; while the thread library makes no error and the
  -- counter of entries has room for one more.
  pub hash_insert-Effect :
      (self : ℕ) (m : Memory) (value : List ℕ)
      → t.total_entries + 1 < size_limit
      → Effect
          (hash_insert (healthy self m) t key value)
          none
          (create (memory_ok m) (lookup t) key value)
  unfolding hash_insert hash_insert_between with_head insert_section list_insert find
  hash_insert-Effect self m value room =
      let n = t.hash_size in
      let i = hash key n in
      let head = get_or t.buckets i [] in
      let u =
        locked_lem (rwlock_write_lock all_ok self) (rwlock_write_unlock all_ok) t i
          (insert_section m i head key value) (λ l f. write-Rounds self l f) ok.locks_ok
          (home-lt t key ok) (λ u. ground arith) in
      let kept : IsValid (record t { locks = u.locks' }) = record {
        data_ok = ok.data_ok;
        locks_ok = u.locks_ok;
      } in
      let found = list_search-find head key in
      elim (Option-cases (list_search head key)) [
        | inl e ↦ elim (Bool-cases (memory_ok m)) [
          | inr bad ↦ record {
            table = record t { locks = u.locks' };
            returns = ground (arith, head-eq t key ok, u.runs, found, e, bad);
            valid = kept;
            holds = λ q. ground (arith, found, e, bad);
          }
          | inl good ↦
              let b : List Node = record { key = key; value = value } ∷ head in
              let short = length-le-total_length t.buckets i in
              let size : (get_or t.bucket_sizes i 0 + 1) % size_limit ≡ length b =
                omega (arith, short, ok.data_ok.counted i, ok.data_ok.summed, room) in
              let entries : (t.total_entries + 1) % size_limit ≡ t.total_entries + 1 =
                omega (arith, room) in
              let none_key : find head key ≡ none = sym found ∙ ap value_of e in
              let same : (k : List ℕ) → same_string key k ≡ true → key ≡ k =
                λ k. (same_string_iff key k).0 in
              let counts : (k : List ℕ)
                  → same_string key k ≡ true
                  → (count head key ≡ count head k) × (hash key n ≡ hash k n) =
                λ k e. (ap (count head) (same k e), ap (λ k. hash k n) (same k e)) in
              let zero_key : count head key ≡ 0 = count-eq-zero head key none_key in
              record {
                table = record t {
                  locks = u.locks';
                  buckets = set t.buckets i b;
                  bucket_sizes = set t.bucket_sizes i (length b);
                  total_entries = t.total_entries + 1;
                };
                returns = ground (arith, head-eq t key ok, u.runs, found, e, good, size, entries);
                valid = record {
                  locks_ok = u.locks_ok;
                  data_ok =
                      set-IsData n t.buckets t.bucket_sizes t.total_entries i b
                        (t.total_entries + 1) (home-lt t key ok) ok.data_ok
                        (λ k. ground (
                          arith,
                          ok.data_ok.placed i k,
                          ok.data_ok.placed i key,
                          found,
                          e,
                          zero_key,
                          counts k,
                        ))
                        (omega arith) room;
                };
                holds = λ q.
                    ground (arith, found, e, good, put-lookup t key ok b (some value) q (refl));
              }
        ]
        | inr (old, e) ↦ record {
          table = record t { locks = u.locks' };
          returns = ground (arith, head-eq t key ok, u.runs, found, e);
          valid = kept;
          holds = λ q. ground (arith, found, e);
        }
      ]
