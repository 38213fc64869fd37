-- ===== src/Fifo/Refinement.antt =====
-- `FIFO_Evictor` keeps the interface of the evictors, as a plain queue.
use hw6_csci.Base.{
  ℕ, zero, suc, append-nil, append_assoc, ◌>>=◌, ◌+◌, ◌≤◌, ◌≡◌, refl, sym, ap, ◌∙◌, List, [], ◌∷◌,
  ◌++◌, arith, Bytes, Outcome, ok, length,
}
use mathlib.Core.List.{reverse, reverse-append}
use hw6_csci.Evictor.{Evictor}
use hw6_csci.Evictor.Queue.{member-snoc, length-snoc}
use hw6_csci.Fifo.{Fifo, pop_back, touch_key, evict}

pop_back-snoc : (d : Fifo) (k : Bytes) → pop_back (d ++ k ∷ []) ≡ ok (k, d)
unfolding pop_back
pop_back-snoc [] k = refl
pop_back-snoc (j ∷ []) k = refl
pop_back-snoc (j ∷ i ∷ d) k = rw (pop_back-snoc (i ∷ d) k)

-- The deque, read from its back, is the queue.
abbrev pub Holds : Fifo → List Bytes → Type 0
Holds d q = d ≡ reverse q

-- A touch puts the key at the end of the queue, also where it stands in the queue already.
pub touch_law :
    (k : Bytes) (d : Fifo) (q : List Bytes)
    → Holds d q
    → (d' : Fifo) × (touch_key k d ≡ ok d') × Holds d' (q ++ k ∷ [])
unfolding touch_key
touch_law k d q e = (k ∷ d, refl, ap (◌∷◌ k) e ∙ sym (reverse-append q (k ∷ [])))

-- An eviction takes the key at the front of the queue.
pub evict_law :
    (k : Bytes) (d : Fifo) (q : List Bytes)
    → Holds d (k ∷ q)
    → (d' : Fifo) × (evict d ≡ ok (k, d')) × Holds d' q
unfolding evict
evict_law k d q e =
    (reverse q, ap evict (e ∙ reverse-append (k ∷ []) q) ∙ pop_back-snoc (reverse q) k, refl)

pub length-requeue : (k : Bytes) (q : List Bytes) → length (q ++ k ∷ []) ≤ length q + 1
length-requeue k q = omega (arith, length-snoc k q)

abbrev pub fifo_evictor : Evictor
fifo_evictor = record {
  State = Fifo;
  touch_key = touch_key;
  evict = evict;
  Holds = Holds;
  requeue = λ k q. q ++ k ∷ [];
  touch_law = touch_law;
  evict_law = evict_law;
  member-requeue = member-snoc;
  length-requeue = length-requeue;
}

-- The keys in turn.
pub touch_all : List Bytes → Fifo → Outcome Fifo
touch_all [] d = ok d
touch_all (k ∷ ks) d = do d' ← touch_key k d; touch_all ks d'

-- So many evictions.
pub evict_all : ℕ → Fifo → Outcome (List Bytes × Fifo)
evict_all zero d = ok ([], d)
evict_all (suc n) d = do (k, d') ← evict d; (ks, d'') ← evict_all n d'; ok (k ∷ ks, d'')

touch_all-Holds :
    (ks : List Bytes) (d : Fifo) (q : List Bytes)
    → Holds d q
    → (d' : Fifo) × (touch_all ks d ≡ ok d') × Holds d' (q ++ ks)
unfolding touch_all
touch_all-Holds [] d q e = (d, refl, e ∙ ap reverse (sym (append-nil q)))
touch_all-Holds (k ∷ ks) d q e =
    let (d1, run, e1) = touch_law k d q e in
    let (d2, run', e2) = touch_all-Holds ks d1 (q ++ k ∷ []) e1 in
    (d2, rw run run', e2 ∙ ap reverse (append_assoc q (k ∷ []) ks))

evict_all-Holds :
    (q : List Bytes) (d : Fifo)
    → Holds d q
    → (d' : Fifo) × (evict_all (length q) d ≡ ok (q, d')) × Holds d' []
unfolding evict_all
evict_all-Holds [] d e = (d, refl, e)
evict_all-Holds (k ∷ q) d e =
    let (d1, run, e1) = evict_law k d q e in
    let (d2, run', e2) = evict_all-Holds q d1 e1 in (d2, rw (run, run'), e2)

-- First in, first out: from an empty deque, the keys that are touched one after the other are
-- evicted in the same order, a key that is touched twice also twice, and the deque is empty
-- afterwards.
pub evict_all-touch_all :
    (ks : List Bytes)
    → (d : Fifo) × (touch_all ks [] ≡ ok d) × (evict_all (length ks) d ≡ ok (ks, []))
evict_all-touch_all ks =
    let (d, run, e) = touch_all-Holds ks [] [] refl in
    let (d', run', e') = evict_all-Holds ks d e in (d, run, run' ∙ ap (λ x. ok (ks, x)) e')
