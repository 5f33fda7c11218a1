-- ===== src/Heap/FreeList/State.antt =====
-- SP_LAB3/src: the state of a chunk that is not in the list is written.
use fall_snu_system_pro.Base.{
  ℕ, ◌≡◌, refl, ap, ◌∙◌, arith, true, false, none, some, List, if◌then◌else◌, ◌==◌, ◌>>=◌,
}
use fall_snu_system_pro.Heap.Chunk.{Status, chunk_set_status}
use fall_snu_system_pro.Heap.Links.{has, frame}
use fall_snu_system_pro.Heap.Blocks.{Block, find, find-update, update}
use fall_snu_system_pro.Heap.Blocks.Rep.Write.{put_status, write_status}
use fall_snu_system_pro.Heap.Manager.{Heap}
use fall_snu_system_pro.Heap.FreeList.{
  next_at, prev_at, shape, restate, free_shape, Listed, Relisted,
}

pub set_status-Relisted :
    (h : Heap) (bs : List Block) (fs : List ℕ)
    → Listed h bs fs
    → (c : ℕ) (b : Block) → find h.heap_start bs c ≡ some b
    → has c fs ≡ false
    → (v : Status)
    → Relisted h (chunk_set_status h.memory c v >>= (λ m. some (record h { memory = m }))) fs (λ d.
      if c == d then restate v (shape (find h.heap_start bs d)) else shape (find h.heap_start bs d))
set_status-Relisted h bs fs l c b found out v =
    let s = h.heap_start in
    let m = write_status h bs l.rep c b found v in
    let law = λ (d : ℕ). find-update s bs c (put_status v) (λ x. refl) d in
    let apart : (d : ℕ) → has d fs ≡ true → find s (update s bs c (put_status v)) d ≡ find s bs d =
      λ d e. ground (arith, law d, e, out, ap (λ q. has q fs) {x = c} {y = d}) in
    record {
      heap = record h { memory = m.memory };
      runs = ground (arith, m.runs);
      blocks = update s bs c (put_status v);
      listed = record {
        rep = m.rep;
        linked =
            frame (λ d. next_at (find s bs d)) (λ d. prev_at (find s bs d)) _ _ none h.free_head fs
              l.linked (λ d e. (ap next_at (apart d e), ap prev_at (apart d e)));
        nodup = l.nodup;
        free = λ d e. ap (λ o. free_shape (shape o)) (apart d e) ∙ l.free d e;
      };
      same_start = refl;
      same_end = refl;
      shapes = λ d. ground (arith, law d);
    }
