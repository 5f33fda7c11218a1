-- ===== src/Store/RwLock/Queue.antt =====
-- SP_LAB5/src/rwlock.c: the writer ring as a queue of threads.
use fall_snu_system_pro.Base.{
  ℕ, zero, suc, ◌+◌, ◌-◌, ◌%◌, ◌≤◌, ◌<◌, List, [], ◌∷◌, ◌++◌, ◌≡◌, ◌≢◌, refl, ap, ap₂, sym, ◌∙◌,
  arith, length, get_or, set, get_or-set_self, get_or-set_ne,
}
use fall_snu_system_pro.Store.RwLock.{RwLock, writer_ring_size}

-- `k` slots of the ring from position `h` on.
abbrev pub slots : List ℕ → ℕ → ℕ → List ℕ
slots ring h zero = []
slots ring h (suc k) = get_or ring h 0 ∷ slots ring ((h + 1) % writer_ring_size) k

-- How many writers are in the ring.
abbrev pub waiting : RwLock → ℕ
waiting l = (l.writer_ring_tail + writer_ring_size - l.writer_ring_head) % writer_ring_size

-- The writers in the ring, in the order of their arrival.
abbrev pub queue : RwLock → List ℕ
queue l = slots l.writer_ring l.writer_ring_head (waiting l)

pub record IsRing (l : RwLock) : Type 0 where
  pub sized : length l.writer_ring ≡ writer_ring_size
  pub head_in : l.writer_ring_head < writer_ring_size
  pub tail_in : l.writer_ring_tail < writer_ring_size

pub length-slots : (ring : List ℕ) (h k : ℕ) → length (slots ring h k) ≡ k
length-slots ring h zero = refl
length-slots ring h (suc k) = ap suc (length-slots ring ((h + 1) % writer_ring_size) k)

-- A write `d` positions behind the head leaves the first `k` slots.
slots-set :
    (ring : List ℕ) (h k d t v : ℕ)
    → h < writer_ring_size
    → d < writer_ring_size
    → k ≤ d
    → t ≡ (h + d) % writer_ring_size
    → slots (set ring t v) h k ≡ slots ring h k
slots-set ring h zero d t v lt room le e = refl
slots-set ring h (suc k) d t v lt room le e = ap₂ ◌∷◌ (get_or-set_ne ring t h v 0 (omega arith)) (
    slots-set ring ((h + 1) % writer_ring_size) k (d - 1) t v (omega arith) (omega arith)
      (omega arith) (omega arith))

slots-suc :
    (ring : List ℕ) (h k : ℕ)
    → h < writer_ring_size
    → slots ring h (suc k) ≡ slots ring h k ++ get_or ring ((h + k) % writer_ring_size) 0 ∷ []
slots-suc ring h zero lt = ap (λ i. get_or ring i 0 ∷ []) (omega arith)
slots-suc ring h (suc k) lt = ap (◌∷◌ (get_or ring h 0)) (
    slots-suc ring ((h + 1) % writer_ring_size) k (omega arith)
    ∙ ap (λ i. slots ring ((h + 1) % writer_ring_size) k ++ get_or ring i 0 ∷ []) (omega arith))

-- `writer_ring[writer_ring_tail] = pthread_self()` and the new tail put a thread at the end.
pub queue-push :
    (l : RwLock) (self : ℕ)
    → IsRing l
    → (l.writer_ring_tail + 1) % writer_ring_size ≢ l.writer_ring_head
    → queue (record l {
      writer_ring = set l.writer_ring l.writer_ring_tail self;
      writer_ring_tail = (l.writer_ring_tail + 1) % writer_ring_size;
    })
      ≡ queue l ++ self ∷ []
queue-push l self r ne =
    let h = l.writer_ring_head in
    let ring' = set l.writer_ring l.writer_ring_tail self in
    let tail : l.writer_ring_tail ≡ (h + waiting l) % writer_ring_size =
      omega (arith, r.head_in, r.tail_in) in
    ap (slots ring' h)
      {x = ((l.writer_ring_tail + 1) % writer_ring_size + writer_ring_size - h) % writer_ring_size}
      {y = suc (waiting l)} (omega (arith, r.head_in, r.tail_in))
    ∙ slots-suc ring' h (waiting l) r.head_in
    ∙ ap₂ ◌++◌
        (slots-set l.writer_ring h (waiting l) (waiting l) l.writer_ring_tail self r.head_in
          (omega arith) (omega arith) tail)
        (ap (λ i. get_or ring' i 0 ∷ []) (sym tail)
          ∙ ap (λ x. x ∷ [])
              (get_or-set_self l.writer_ring l.writer_ring_tail self 0
                (omega (arith, r.tail_in, r.sized))))

-- A new head takes the first thread out.
pub queue-pop :
    (l : RwLock)
    → IsRing l
    → l.writer_ring_head ≢ l.writer_ring_tail
    → queue l
      ≡ get_or l.writer_ring l.writer_ring_head 0
        ∷ queue (record l { writer_ring_head = (l.writer_ring_head + 1) % writer_ring_size })
queue-pop l r ne =
    ap (slots l.writer_ring l.writer_ring_head)
      {y = suc (
        (l.writer_ring_tail + writer_ring_size - (l.writer_ring_head + 1) % writer_ring_size)
        % writer_ring_size)}
      (omega (arith, r.head_in, r.tail_in))
