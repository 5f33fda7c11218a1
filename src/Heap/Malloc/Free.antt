-- ===== src/Heap/Malloc/Free.antt =====
-- SP_LAB3/src/heapmgr1.c: what `heapmgr_free` does to the allocated chunks.
use fall_snu_system_pro.Base.{
  ℕ, ◌+◌, ◌^◌, ◌≤◌, ◌<◌, ◌≡◌, ◌≢◌, ap, ◌∙◌, arith, false, Option, none, some, List, ◌∷◌,
  if◌then◌else◌, ◌==◌, ◌>>=◌,
}
use fall_snu_system_pro.Heap.Chunk.{
  Status, chunk_free, chunk_in_use, chunk_get_status, chunk_set_status,
}
use fall_snu_system_pro.Heap.Links.{has}
use fall_snu_system_pro.Heap.Blocks.{Block, find}
use fall_snu_system_pro.Heap.Blocks.Rep.{read_status}
use fall_snu_system_pro.Heap.Manager.{Heap, insert_chunk}
use fall_snu_system_pro.Heap.FreeList.{free_shape}
use fall_snu_system_pro.Heap.FreeList.Insert.{insert_chunk-Relisted}
use fall_snu_system_pro.Heap.FreeList.State.{set_status-Relisted}
use fall_snu_system_pro.Heap.Malloc.{free_chunk}
use fall_snu_system_pro.Heap.Malloc.Sound.{
  size_of, Tidy, Tidy-same, Sound, shapes_of, live, shape_found,
}
use fall_snu_system_pro.Heap.Malloc.Neighbours.{Merging, after_next}
use fall_snu_system_pro.Heap.Malloc.Before.{after_prev}

-- The chunk `c` is not allocated any more, every other allocation is as it was, and the heap is
-- sound.
pub record Freed (h : Heap) (bs : List Block) (c : ℕ) (run : Option Heap) : Type 0 where
  pub heap : Heap
  pub runs : run ≡ some heap
  pub blocks : List Block
  pub list : List ℕ
  pub sound : Sound heap blocks list
  pub table :
      (d : ℕ) → live (shapes_of heap blocks d) ≡ (if c == d then none else live (shapes_of h bs d))
  pub same_start : heap.heap_start ≡ h.heap_start

-- A chunk between chunks in use becomes free and is listed.
Tidy-free :
    (g : ℕ → Option (ℕ × Status)) (fs : List ℕ) (c n : ℕ)
    → Tidy g fs
    → 0 < n
    → free_shape (g (c + n + 2)) ≡ false
    → ((d k : ℕ) → g d ≡ some (k, chunk_free) → d + k + 2 ≢ c)
    → Tidy (λ d. if c == d then some (n, chunk_free) else g d) (c ∷ fs)
Tidy-free g fs c n t pos quiet before = record {
  all = λ d f. ground (arith, t.all d, f);
  positive = λ d k f. ground (arith, t.positive d k, f, pos);
  coalesced = λ d k f. ground (arith, t.coalesced d k, f, quiet, before d k);
}

-- The end of `heapmgr_free` on the merged chunk.
abbrev release : Option (ℕ × Heap) → Option Heap
release run = do
  r ← run
  m ← chunk_set_status r.1.memory r.0 chunk_free
  insert_chunk (record r.1 { memory = m }) r.0

-- Both steps at once.
release_runs :
    (run : Option (ℕ × Heap)) (c : ℕ) (h h1 h2 : Heap)
    → run ≡ some (c, h)
    → (chunk_set_status h.memory c chunk_free >>= (λ m. some (record h { memory = m }))) ≡ some h1
    → insert_chunk h1 c ≡ some h2
    → release run ≡ some h2
release_runs run c h h1 h2 e e1 e2 = ground (arith, e, e1, e2)

release-Freed :
    (h : Heap) (bs : List Block) (c : ℕ) (run : Option (ℕ × Heap)) (m : Merging h bs c run)
    → ((d k : ℕ) → shapes_of m.heap m.blocks d ≡ some (k, chunk_free) → d + k + 2 ≢ m.chunk)
    → Freed h bs c (release run)
release-Freed h bs c run m quiet =
    let (x, f, u', st) =
      shape_found (find m.heap.heap_start m.blocks m.chunk) m.size chunk_in_use m.here in
    let out : has m.chunk m.list ≡ false = ground (arith, m.sound.listed.free m.chunk, m.here) in
    let w = set_status-Relisted m.heap m.blocks m.list m.sound.listed m.chunk x f out chunk_free in
    let pos : 0 < m.size = m.sound.tidy.positive m.chunk m.size (ap size_of m.here) in
    let (z, f', u'', st') =
      shape_found (find w.heap.heap_start w.blocks m.chunk) m.size chunk_free
        (ground (arith, w.shapes m.chunk, m.here)) in
    let v =
      insert_chunk-Relisted w.heap w.blocks m.list w.listed m.chunk z f' (ground (arith, st'))
        (omega (arith, pos, u'')) out in
    record {
      heap = v.heap;
      runs = release_runs run m.chunk m.heap w.heap v.heap m.runs w.runs v.runs;
      blocks = v.blocks;
      list = m.chunk ∷ m.list;
      sound = record {
        listed = v.listed;
        tidy =
            Tidy-same _ (shapes_of v.heap v.blocks) (m.chunk ∷ m.list)
              (λ d. ground (
                arith,
                v.shapes d,
                w.shapes d,
                m.here,
                ap (shapes_of m.heap m.blocks) {x = m.chunk} {y = d},
              ))
              (Tidy-free (shapes_of m.heap m.blocks) m.list m.chunk m.size m.sound.tidy pos
                m.quiet_next quiet);
      };
      table = λ d. ground (
        arith,
        v.shapes d,
        w.shapes d,
        m.here,
        m.table d,
        m.origin,
        ap (λ q. live (shapes_of h bs q)) {x = m.chunk} {y = d},
      );
      same_start = v.same_start ∙ w.same_start ∙ m.same_start;
    }

pub free_chunk-Freed :
    (h : Heap) (bs : List Block) (fs : List ℕ)
    → Sound h bs fs
    → h.heap_end ≤ h.heap_start + 2 ^ 31
    → (c n : ℕ) → shapes_of h bs c ≡ some (n, chunk_in_use)
    → Freed h bs c (free_chunk h c)
unfolding free_chunk
free_chunk-Freed h bs fs so small c n used =
    let (b, found, u, is) = shape_found (find h.heap_start bs c) n chunk_in_use used in
    let first = after_next h bs fs so c b found is small in
    let second = after_prev h bs fs so c b found is small first in
    let e = release-Freed h bs c _ second.merging second.quiet_prev in
    let status : chunk_get_status h.memory c ≡ some chunk_in_use =
      ground (arith, read_status h bs so.listed.rep c b found, is) in
    record {
      heap = e.heap;
      runs = rw (status, first.merging.runs) e.runs;
      blocks = e.blocks;
      list = e.list;
      sound = e.sound;
      table = e.table;
      same_start = e.same_start;
    }
