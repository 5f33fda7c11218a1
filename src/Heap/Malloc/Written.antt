-- ===== src/Heap/Malloc/Written.antt =====
-- SP_LAB3/src/heapmgr1.c: a program writes to the data of a chunk that it was given.
use fall_snu_system_pro.Base.{
  ℕ, ◌+◌, ◌<◌, ◌≡◌, ◌≢◌, sym, ap, ◌∙◌, arith, Option, some, set, length-set, get_elem?,
  get_elem?-set,
}
use fall_snu_system_pro.Heap.Chunk.{Chunk, chunk_in_use}
use fall_snu_system_pro.Heap.Blocks.{Block, find, find-in, find-apart}
use fall_snu_system_pro.Heap.Blocks.Rep.Write.{with_memory}
use fall_snu_system_pro.Heap.Blocks.Rep.Units.{get_elem?-in}
use fall_snu_system_pro.Heap.Manager.{Heap}
use fall_snu_system_pro.Heap.Malloc.Sound.{shapes_of, shape_found}
use fall_snu_system_pro.Heap.Malloc.Manages.{Tracks, live_shape}

-- A write to the data of a chunk in use changes no header and no footer.
pub write-Tracks :
    (h : Heap) (table : ℕ → Option ℕ) (c n i : ℕ) (v : Chunk)
    → Tracks h table
    → table c ≡ some n
    → i < n
    → Tracks (with_memory h (set h.memory (c + 1 + i) v)) table
write-Tracks h table c n i v t e low =
    let (b, f, u, st) =
      shape_found (find h.heap_start t.blocks c) n chunk_in_use
        (live_shape (shapes_of h t.blocks c) n (sym (t.agrees c) ∙ e)) in
    let r = t.sound.listed.rep in
    let p = c + 1 + i in
    let (old, at_p) =
      get_elem?-in h.memory p
        (omega (arith, find-in h.heap_start t.blocks c b f, r.ends, r.sized, u, low)) in
    let kept : (q : ℕ) → p ≢ q → get_elem? (set h.memory p v) q ≡ get_elem? h.memory q =
      λ q ne. ground (arith, get_elem?-set h.memory p q old v at_p, ne) in
    let away : (d : ℕ) (x : Block)
        → find h.heap_start t.blocks d ≡ some x
        → (p ≢ d) × (p ≢ d + x.units + 1) =
      λ d x g. ground (
        arith,
        find-apart h.heap_start t.blocks c d b x f g,
        f,
        g,
        low,
        u,
        ap (find h.heap_start t.blocks) {x = c} {y = d},
      ) in
    record {
      blocks = t.blocks;
      list = t.list;
      sound = record {
        listed = record {
          rep = record {
            ends = r.ends;
            sized = length-set h.memory p v ∙ r.sized;
            holds = λ d x g. record {
              header = kept d (ground (arith, away d x g)) ∙ (r.holds d x g).header;
              footer = kept (d + x.units + 1) (ground (arith, away d x g)) ∙ (r.holds d x g).footer;
            };
          };
          linked = t.sound.listed.linked;
          nodup = t.sound.listed.nodup;
          free = t.sound.listed.free;
        };
        tidy = t.sound.tidy;
      };
      agrees = t.agrees;
    }
