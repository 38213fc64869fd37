-- ===== src/Lru/Evict.antt =====
-- `evict` on every state that stands for a list.
use hw6_csci.Base.{◌≡◌, refl, ◌≢◌, false, none, [], ◌∷◌, arith, ◌==◌, Bytes, ok}
use hw6_csci.Base.Dict.{Dict, find, erase, find-erase}
use hw6_csci.Lru.{LruEvictor, evict}
use hw6_csci.Lru.Nodes.{Ptr, null, node, Store, load, load-ok, set_prev}
use hw6_csci.Lru.Segment.{Cells, last_or}
use hw6_csci.Lru.Relink.{last_ne_outside, set_prev-Seg}
use hw6_csci.Lru.Holds.{Holds}

mapped_rest :
    (m : Dict Ptr) (k : Bytes) (p : Ptr) (l : Cells)
    → find k l ≡ none
    → ((q : Bytes) → find q m ≡ find q ((k, p) ∷ l))
    → (q : Bytes) → find q (erase k m) ≡ find q l
unfolding find
mapped_rest m k p l out same q = ground (arith, find-erase q k m, same q)

evict_step :
    (s : LruEvictor) (k : Bytes) (p p2 : Ptr) (g : Store)
    → s.root ≡ p
    → (s.back == p) ≡ false
    → p ≢ null
    → p2 ≢ null
    → load p s.cells ≡ ok (node k null p2)
    → set_prev p2 null s.cells ≡ ok g
    → load p g ≡ ok (node k null p2)
    → evict s ≡ ok (k, record s { cells = g; root = p2; map = erase k s.map })
unfolding evict
evict_step s k p p2 g root back p_ne p2_ne load_p run load_p' = ground arith

-- On a well-formed list with a first node, `evict` returns the key of that node and leaves the
-- well-formed list of the others.
pub evict-Holds :
    (s : LruEvictor) (k : Bytes) (p : Ptr) (l : Cells)
    → Holds s ((k, p) ∷ l)
    → (t : LruEvictor) × (evict s ≡ ok (k, t)) × Holds t l
unfolding evict
evict-Holds s k p [] holds =
    let root : s.root ≡ p = holds.root in
    let back : s.back ≡ p = holds.back in
    let n = node k null null in
    let load_p = load-ok s.cells p n holds.apart.0 holds.seg.0 in
    (
      record s { root = null; back = null; map = erase k s.map },
      rw (root, load_p) (ground (arith, holds.apart.0, load_p)),
      record {
        seg = tt;
        apart = tt;
        alive = holds.alive;
        root = refl;
        back = refl;
        mapped = mapped_rest s.map k p [] holds.distinct.0 holds.mapped;
        distinct = tt;
      },
    )
evict-Holds s k p ((k2, p2) ∷ l) holds =
    let root : s.root ≡ p = holds.root in
    let n = node k null p2 in
    let (g, run, seg, same) =
      set_prev-Seg s.cells s.fresh p null null k2 p2 l holds.apart.3 holds.seg.1 in
    let load_p = load-ok s.cells p n holds.apart.0 holds.seg.0 in
    let load_p' =
      load-ok g p n holds.apart.0 (ground (arith, same p, holds.seg.0, holds.apart.2)) in
    let b_ne = last_ne_outside k2 p2 p l holds.apart.2 in
    let b_eq : s.back ≡ last_or p2 l = holds.back in
    (
      record s { cells = g; root = p2; map = erase k s.map },
      evict_step s k p p2 g root (ground (arith, b_ne, b_eq)) holds.apart.0 holds.apart.3.0 load_p
          run load_p',
      record {
        seg = seg;
        apart = holds.apart.3;
        alive = holds.alive;
        root = refl;
        back = b_eq;
        mapped = mapped_rest s.map k p ((k2, p2) ∷ l) holds.distinct.0 holds.mapped;
        distinct = holds.distinct.1;
      },
    )

-- Nothing to evict: the empty key, and the state as it was.
pub evict_nothing : (s : LruEvictor) → Holds s [] → evict s ≡ ok ([], s)
unfolding evict
evict_nothing s holds = ground (arith, holds.root)
