-- ===== src/Store/Table/Fresh.antt =====
-- SP_LAB5/src/hashtable.c: the table that hash_init makes.
use fall_snu_system_pro.Base.{
  ℕ, zero, suc, ◌+◌, ◌^◌, ◌≤◌, ◌<◌, ◌≡◌, refl, sym, ap, arith, true, none, some, List, [], get_or,
  get_elem?, replicate, length-replicate, subst,
}
use fall_snu_system_pro.Store.Chain.{Node}
use fall_snu_system_pro.Store.Chain.Lookup.{find}
use fall_snu_system_pro.Store.RwLock.{RwLock, Pointer, freed_if_set, cleared, rwlock_init}
use fall_snu_system_pro.Store.Table.{Table, hash, made, init_locks, hash_init}
use fall_snu_system_pro.Store.RwLock.Threads.{all_made}
use fall_snu_system_pro.Store.Table.Free.{IsFree}
use fall_snu_system_pro.Store.Table.Valid.{IsValid, lookup, total_length}

cleared-IsFree : (delay : ℕ) → IsFree (cleared delay)
cleared-IsFree delay = record {
  no_reader = refl;
  no_writer = refl;
  ring = record { sized = refl; head_in = omega arith; tail_in = omega arith };
  empty = refl;
}

init_locks-new :
    (old : ℕ → Pointer) (delay i n : ℕ)
    → ((k : ℕ) → i ≤ k → k < i + n → freed_if_set (old k) ≡ true)
    → init_locks (λ k. all_made) old delay i n ≡ made (replicate n (cleared delay))
unfolding init_locks rwlock_init
init_locks-new old delay i zero tame = refl
init_locks-new old delay i (suc n) tame =
    let rest =
      init_locks-new old delay (i + 1) n
        (λ k lo hi. tame k (omega (arith, lo)) (omega (arith, hi))) in
    ground (arith, rest, tame i (omega arith) (omega arith))

replicate-all :
    (n : ℕ) (delay j : ℕ) (l : RwLock)
    → get_elem? (replicate n (cleared delay)) j ≡ some l
    → IsFree l
replicate-all zero delay j l h = absurd (ground (arith, h))
replicate-all (suc n) delay zero l h =
    subst IsFree (ap (λ o. elim o [ none ↦ l | some x ↦ x ]) h) (cleared-IsFree delay)
replicate-all (suc n) delay (suc j) l h = replicate-all n delay j l h

get_or-replicate {ℓ} : {A : Type ℓ} (n i : ℕ) (a : A) → get_or (replicate n a) i a ≡ a
get_or-replicate zero i a = refl
get_or-replicate (suc n) zero a = refl
get_or-replicate (suc n) (suc i) a = get_or-replicate n i a

total_length-replicate : (n : ℕ) → total_length (replicate n []) ≡ 0
total_length-replicate zero = refl
total_length-replicate (suc n) = omega (arith, total_length-replicate n)

abbrev pub new_table : ℕ → ℕ → Table
new_table n delay = record {
  buckets = replicate n [];
  locks = replicate n (cleared delay);
  bucket_sizes = replicate n 0;
  total_entries = 0;
  hash_size = n;
}

new_table-IsValid : (n delay : ℕ) → 0 < n → IsValid (new_table n delay)
new_table-IsValid n delay h = record {
  data_ok = record {
    positive = h;
    buckets_sized = length-replicate n [];
    sizes_sized = length-replicate n 0;
    placed = λ i key. rw (get_or-replicate {A = List Node} n i []) (omega arith);
    counted = λ i. rw (get_or-replicate {A = List Node} n i [], get_or-replicate {A = ℕ} n i 0);
    summed = sym (total_length-replicate n);
    fits = omega arith;
  };
  locks_ok = record { sized = length-replicate n (cleared delay); free = replicate-all n delay };
}

-- When every allocation and initialisation succeeds, and in the memory that malloc gave for the
-- locks no ring pointer is wild (each is NULL or a block of its own, which free takes), hash_init
-- makes a table that is valid and holds no key; for at least one and fewer than 2 ^ 31 buckets.
pub hash_init-IsValid :
    (n delay : ℕ) (old : ℕ → Pointer)
    → 0 < n
    → n < 2 ^ 31
    → ((k : ℕ) → k < n → freed_if_set (old k) ≡ true)
    → (hash_init true (λ k. all_made) old n delay ≡ made (new_table n delay))
      × IsValid (new_table n delay)
      × ((q : List ℕ) → lookup (new_table n delay) q ≡ none)
unfolding hash_init find
hash_init-IsValid n delay old h small tame = (
  ground (arith, init_locks-new old delay 0 n (λ k lo hi. tame k (omega (arith, hi)))),
  new_table-IsValid n delay h,
  λ q. rw (get_or-replicate {A = List Node} n (hash q n) []),
)
