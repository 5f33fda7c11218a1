-- ===== src/Store/Chain.antt =====
-- SP_LAB5/src/hashtable.c: the list of nodes in one bucket. A C string is the list of its
-- characters.
pub mod Lookup
use fall_snu_system_pro.Base.{
  ℕ, Bool, true, false, ◌&&◌, Option, none, some, List, [], ◌∷◌, ◌==◌, if◌then◌else◌,
}

-- `node_t`: the fields that the code sets.
pub record Node : Type 0 where
  pub key : List ℕ
  pub value : List ℕ

-- Whether each `malloc` and `strdup` of one operation succeeds.
pub record Memory : Type 0 where
  pub node_ok : Bool
  pub key_ok : Bool
  pub value_ok : Bool

-- The return values 1, 0 and -1.
pub data Result : Type 0 where
  done not_done internal_error : Result

-- `strcmp(a, b) == 0`
unfoldable pub same_string : List ℕ → List ℕ → Bool
same_string [] [] = true
same_string [] (y ∷ b) = false
same_string (x ∷ a) [] = false
same_string (x ∷ a) (y ∷ b) = x == y && same_string a b

unfoldable pub list_search : List Node → List ℕ → Option Node
list_search [] key = none
list_search (n ∷ rest) key = if same_string n.key key then some n else list_search rest key

-- The result and the new `*head`. What was allocated before a failure is freed again.
unfoldable pub list_insert : Memory → List Node → List ℕ → List ℕ → Result × List Node
list_insert m head key value = elim (list_search head key) [
  | some n ↦ (not_done, head)
  | none ↦
      if m.node_ok && m.key_ok && m.value_ok
      then (done, record { key = key; value = value } ∷ head)
      else (internal_error, head)
]

-- `target->value = new_value` at the first node with the key.
unfoldable pub assign : List Node → List ℕ → List ℕ → List Node
assign [] key value = []
assign (n ∷ rest) key value =
    if same_string n.key key then record n { value = value } ∷ rest else n ∷ assign rest key value

unfoldable pub list_update : Memory → List Node → List ℕ → List ℕ → Result × List Node
unfolding assign
list_update m head key value = elim (list_search head key) [
  | none ↦ (not_done, head)
  | some n ↦ if m.value_ok then (done, assign head key value) else (internal_error, head)
]

-- The loop unlinks the first node with the key.
unfoldable pub list_delete : List Node → List ℕ → Result × List Node
list_delete [] key = (not_done, [])
list_delete (n ∷ rest) key =
    let (r, rest') = list_delete rest key in
    if same_string n.key key then (done, rest) else (r, n ∷ rest')
