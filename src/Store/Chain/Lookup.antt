-- ===== src/Store/Chain/Lookup.antt =====
-- SP_LAB5/src/hashtable.c: what a bucket's list looks up after each operation.
use fall_snu_system_pro.Base.{
  ℕ, ◌+◌, ◌≤◌, true, Option, none, some, List, [], ◌∷◌, ◌≡◌, ◌↔◌, refl, arith, if◌then◌else◌,
  length,
}
use fall_snu_system_pro.Store.Chain.{
  Node, done, not_done, same_string, list_search, assign, list_delete,
}

pub same_string_iff : (a b : List ℕ) → (same_string a b ≡ true) ↔ (a ≡ b)
unfolding same_string
same_string_iff [] [] = ground arith
same_string_iff [] (y ∷ b) = ground arith
same_string_iff (x ∷ a) [] = ground arith
same_string_iff (x ∷ a) (y ∷ b) = ground (arith, same_string_iff a b)

-- The value under a key.
unfoldable pub find : List Node → List ℕ → Option (List ℕ)
find [] key = none
find (n ∷ rest) key = if same_string n.key key then some n.value else find rest key

abbrev pub value_of : Option Node → Option (List ℕ)
value_of none = none
value_of (some n) = some n.value

pub list_search-find :
    (head : List Node) (key : List ℕ) → value_of (list_search head key) ≡ find head key
unfolding list_search find
list_search-find [] key = refl
list_search-find (n ∷ rest) key = ground (arith, list_search-find rest key)

-- How many nodes have a key.
abbrev pub count : List Node → List ℕ → ℕ
count [] key = 0
count (n ∷ rest) key = (if same_string n.key key then 1 else 0) + count rest key

pub find-eq-none : (head : List Node) (key : List ℕ) → count head key ≡ 0 → find head key ≡ none
unfolding find
find-eq-none [] key h = refl
find-eq-none (n ∷ rest) key h = ground (arith, find-eq-none rest key)

pub count-eq-zero : (head : List Node) (key : List ℕ) → find head key ≡ none → count head key ≡ 0
unfolding find
count-eq-zero [] key h = refl
count-eq-zero (n ∷ rest) key h = ground (arith, count-eq-zero rest key)

module _ (key q : List ℕ) where
  pub find-assign :
      (head : List Node) (value : List ℕ)
      → find (assign head key value) q ≡ (
          if same_string key q
          then elim (find head key) [ none ↦ none | some old ↦ some value ]
          else find head q)
  unfolding find assign
  find-assign [] value = ground arith
  find-assign (n ∷ rest) value = ground (
    arith,
    find-assign rest value,
    same_string_iff n.key key,
    same_string_iff n.key q,
    same_string_iff key q,
  )

  pub count-assign :
      (head : List Node) (value : List ℕ) → count (assign head key value) q ≡ count head q
  unfolding assign
  count-assign [] value = refl
  count-assign (n ∷ rest) value = ground (arith, count-assign rest value)

  pub find-list_delete :
      (head : List Node)
      → count head key ≤ 1
      → find (list_delete head key).1 q ≡ (if same_string key q then none else find head q)
  unfolding find list_delete
  find-list_delete [] h = ground arith
  find-list_delete (n ∷ rest) h = ground (
    arith,
    find-list_delete rest,
    find-eq-none rest q,
    same_string_iff n.key key,
    same_string_iff n.key q,
    same_string_iff key q,
  )

  pub count-list_delete-le : (head : List Node) → count (list_delete head key).1 q ≤ count head q
  unfolding list_delete
  count-list_delete-le [] = omega arith
  count-list_delete-le (n ∷ rest) = ground (arith, count-list_delete-le rest)

-- The result that `list_delete` reports, and the length it leaves.
pub list_delete-found :
    (head : List Node) (key : List ℕ)
    → (list_delete head key).0 ≡ elim (find head key) [ none ↦ not_done | some old ↦ done ]
unfolding find list_delete
list_delete-found [] key = refl
list_delete-found (n ∷ rest) key = ground (arith, list_delete-found rest key)

pub length-list_delete :
    (head : List Node) (key : List ℕ)
    → length (list_delete head key).1 + elim (find head key) [ none ↦ 0 | some old ↦ 1 ]
      ≡ length head
unfolding find list_delete
length-list_delete [] key = refl
length-list_delete (n ∷ rest) key = ground (arith, length-list_delete rest key)

pub length-assign :
    (head : List Node) (key value : List ℕ) → length (assign head key value) ≡ length head
unfolding assign
length-assign [] key value = refl
length-assign (n ∷ rest) key value = ground (arith, length-assign rest key value)
