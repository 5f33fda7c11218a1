-- ===== src/Heap/FreeList.antt =====
-- SP_LAB3/src/heapmgr1.c: the free list in the memory, and what insertion and removal leave of the
-- chunks.
pub mod Insert
pub mod Remove
pub mod Split
pub mod Merge
pub mod State
use fall_snu_system_pro.Base.{
  ℕ, ◌≡◌, refl, ap, ◌∙◌, arith, Bool, true, false, Option, none, some, List, if◌then◌else◌, ◌==◌,
}
use fall_snu_system_pro.Heap.Chunk.{Status, chunk_in_use}
use fall_snu_system_pro.Heap.Links.{has, distinct, Linked}
use fall_snu_system_pro.Heap.Blocks.{Block, find}
use fall_snu_system_pro.Heap.Blocks.Rep.{Rep}
use fall_snu_system_pro.Heap.Manager.{Heap, is_free}

abbrev pub next_at : Option Block → Option ℕ
next_at none = none
next_at (some b) = b.next

abbrev pub prev_at : Option Block → Option ℕ
prev_at none = none
prev_at (some b) = b.prev

-- The size and the status of a chunk.
abbrev pub shape : Option Block → Option (ℕ × Status)
shape none = none
shape (some b) = some (b.units, b.status)

abbrev pub used : Option (ℕ × Status) → Option (ℕ × Status)
used none = none
used (some (n, s)) = some (n, chunk_in_use)

abbrev pub restate : Status → Option (ℕ × Status) → Option (ℕ × Status)
restate v none = none
restate v (some (n, s)) = some (n, v)

abbrev pub free_shape : Option (ℕ × Status) → Bool
free_shape none = false
free_shape (some (n, s)) = is_free s

-- The memory holds the chunks `bs`, and the free list is `fs`: distinct free chunks.
pub record Listed (h : Heap) (bs : List Block) (fs : List ℕ) : Type 0 where
  pub rep : Rep h bs
  pub linked :
      Linked
        (λ d. next_at (find h.heap_start bs d))
        (λ d. prev_at (find h.heap_start bs d))
        none
        h.free_head
        fs
  pub nodup : distinct fs ≡ true
  pub free : (c : ℕ) → has c fs ≡ true → free_shape (shape (find h.heap_start bs c)) ≡ true

-- An operation on the free list: it succeeds, the list is `fs`, and the chunks have the shapes `g`.
pub record Relisted (h : Heap) (run : Option Heap) (fs : List ℕ) (g : ℕ → Option (ℕ × Status))
    : Type 0 where
  pub heap : Heap
  pub runs : run ≡ some heap
  pub blocks : List Block
  pub listed : Listed heap blocks fs
  pub same_start : heap.heap_start ≡ h.heap_start
  pub same_end : heap.heap_end ≡ h.heap_end
  pub shapes : (d : ℕ) → shape (find heap.heap_start blocks d) ≡ g d

-- The representation does not depend on the head of the list.
pub Rep-head :
    (h : Heap) (bs : List Block) (v : Option ℕ) → Rep h bs → Rep (record h { free_head = v }) bs
Rep-head h bs v r = record { ends = r.ends; sized = r.sized; holds = r.holds }

-- The same for an operation that returns the chunk `c`.
pub record Returned (h : Heap) (run : Option (ℕ × Heap)) (c : ℕ) (fs : List ℕ)
    (g : ℕ → Option (ℕ × Status)) : Type 0 where
  pub heap : Heap
  pub runs : run ≡ some (c, heap)
  pub blocks : List Block
  pub listed : Listed heap blocks fs
  pub same_start : heap.heap_start ≡ h.heap_start
  pub same_end : heap.heap_end ≡ h.heap_end
  pub shapes : (d : ℕ) → shape (find heap.heap_start blocks d) ≡ g d

-- A chunk that is not one of `touched` keeps its links too.
pub record Careful (h : Heap) (bs : List Block) (touched : List ℕ) (run : Option Heap) (fs : List ℕ)
    (g : ℕ → Option (ℕ × Status)) : Type 0 where
  pub relisted : Relisted h run fs g
  pub kept :
      (d : ℕ)
      → has d touched ≡ false
      → find relisted.heap.heap_start relisted.blocks d ≡ find h.heap_start bs d
