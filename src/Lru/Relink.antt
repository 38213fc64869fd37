-- ===== src/Lru/Relink.antt =====
-- The two assignments of lru_evictor.cc, `p->next_ = q` at the end of a segment and `p->prev_ = q`
-- at its start.
use hw6_csci.Base.{◌≡◌, refl, ◌≢◌, true, false, Option, some, [], ◌∷◌, arith, ◌==◌, Bytes, ok}
use hw6_csci.Lru.Nodes.{
  Ptr, null, Node, node, Store, write, set_prev, set_next, set_prev-ok, set_next-ok,
}
use hw6_csci.Lru.Segment.{Cells, head_or, last_or, has, Seg, Apart, SameOutside, Seg-same}

pub SameOutside-write : (h : Store) (p : Ptr) (c : Option Node) → SameOutside p h (write h p c)
unfolding write
SameOutside-write h p c q e = ground arith

pub write_self : (h : Store) (p : Ptr) (c : Option Node) → write h p c p ≡ c
unfolding write
write_self h p c = ground arith

pub last_ne_null :
    (top : Ptr) (k : Bytes) (p : Ptr) (l : Cells) → Apart top ((k, p) ∷ l) → last_or p l ≢ null
last_ne_null top k p [] s = s.0
last_ne_null top k p ((k', p') ∷ l) s = last_ne_null top k' p' l s.3

pub has-last : (k : Bytes) (p : Ptr) (l : Cells) → has (last_or p l) ((k, p) ∷ l) ≡ true
has-last k p [] = ground arith
has-last k p ((k', p') ∷ l) = ground (arith, has-last k' p' l)

pub last_ne_outside :
    (k : Bytes) (p q : Ptr) (l : Cells) → has q ((k, p) ∷ l) ≡ false → (q == last_or p l) ≡ false
last_ne_outside k p q l out = ground (arith, has-last k p l)

last_node :
    (h : Store) (a z : Ptr) (k : Bytes) (p : Ptr) (l : Cells)
    → Seg h a z ((k, p) ∷ l)
    → (n : Node) × (h (last_or p l) ≡ some n) × (n.next ≡ z)
last_node h a z k p [] s = (node k a z, s.0, refl)
last_node h a z k p ((k', p') ∷ l) s = last_node h p z k' p' l s.1

Seg-next :
    (h g : Store) (top a z z' : Ptr) (n : Node) (k : Bytes) (p : Ptr) (l : Cells)
    → Apart top ((k, p) ∷ l)
    → Seg h a z ((k, p) ∷ l)
    → h (last_or p l) ≡ some n
    → g (last_or p l) ≡ some (record n { next = z' })
    → SameOutside (last_or p l) h g
    → Seg g a z' ((k, p) ∷ l)
Seg-next h g top a z z' n k p [] apart s e f same = (ground arith, tt)
Seg-next h g top a z z' n k p ((k', p') ∷ l) apart s e f same = (
  ground (arith, same p, last_ne_outside k' p' p l),
  Seg-next h g top p z z' n k' p' l apart.3 s.1 e f same,
)

pub set_next-Seg :
    (h : Store) (top a z z' : Ptr) (k : Bytes) (p : Ptr) (l : Cells)
    → Apart top ((k, p) ∷ l)
    → Seg h a z ((k, p) ∷ l)
    → (g : Store) × (set_next (last_or p l) z' h ≡ ok g)
      × Seg g a z' ((k, p) ∷ l)
      × SameOutside (last_or p l) h g
set_next-Seg h top a z z' k p l apart s =
    let q = last_or p l in
    let (n, e, next) = last_node h a z k p l s in
    let g = write h q (some (record n { next = z' })) in
    let same = SameOutside-write h q (some (record n { next = z' })) in
    let self = write_self h q (some (record n { next = z' })) in
    (
      g,
      set_next-ok h q n (last_ne_null top k p l apart) e z',
      Seg-next h g top a z z' n k p l apart s e self same,
      same,
    )

pub set_prev-Seg :
    (h : Store) (top a a' z : Ptr) (k : Bytes) (p : Ptr) (l : Cells)
    → Apart top ((k, p) ∷ l)
    → Seg h a z ((k, p) ∷ l)
    → (g : Store) × (set_prev p a' h ≡ ok g) × Seg g a' z ((k, p) ∷ l) × SameOutside p h g
set_prev-Seg h top a a' z k p l apart s =
    let n = node k a (head_or z l) in
    let c = some (record n { prev = a' }) in
    let same = SameOutside-write h p c in
    (
      write h p c,
      set_prev-ok h p n apart.0 s.0 a',
      (write_self h p c, Seg-same h (write h p c) p p z l same apart.2 s.1),
      same,
    )
