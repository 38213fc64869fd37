-- ===== src/Lru/Move.antt =====
-- `touch_key` on a key that has a node: the node moves to the back.
use hw6_csci.Base.{
  ◌≡◌, refl, ◌≢◌, true, false, some, ◌∙◌, append-nil, append_assoc, [], ◌∷◌, ◌++◌, arith, ◌==◌,
  Bytes, ok,
}
use hw6_csci.Lru.{LruEvictor, unlink, relink, move_to_back}
use hw6_csci.Lru.Nodes.{Ptr, null, Node, node, Store, load-ok, set_prev-ok, set_next-ok, write}
use hw6_csci.Lru.Segment.{
  Cells, head_or, last_or, has, Seg, Apart, Separate, Seg-same, Seg-append, append-Seg,
  Apart-append, last_or-append, head_or-append,
}
use hw6_csci.Lru.Relink.{
  SameOutside-write, write_self, last_ne_null, last_ne_outside, set_next-Seg, set_prev-Seg,
  has-last,
}

-- The store around the node of the key while it moves: the nodes before it, the node, and the
-- nodes behind it.
record Around (h : Store) (a : Cells) (z : Ptr) (p : Ptr) (n : Node) (y : Ptr) (b : Cells) (w : Ptr)
    : Type 0 where
  before : Seg h null z a
  at : h p ≡ some n
  behind : Seg h y w b

out_of_before : (m : Cells) (q : Ptr) (a : Cells) → Separate a m → has q m ≡ true → has q a ≡ false
out_of_before m q a sep i = ground (arith, sep q)

module _ (top : Ptr) (k : Bytes) (p : Ptr) (k2 : Bytes) (p2 : Ptr) (b : Cells)
    (apart_p : Apart top ((k, p) ∷ (k2, p2) ∷ b)) where
  unlink-Seg :
      (h : Store) (root : Ptr) (a : Cells)
      → Apart top a
      → Separate a ((k, p) ∷ (k2, p2) ∷ b)
      → root ≡ head_or p a
      → Around h a p p (node k (last_or null a) p2) p ((k2, p2) ∷ b) null
      → (g : Store) × (unlink root p h ≡ ok (head_or p2 a, g))
        × Around g a p2 p (node k (last_or null a) p2) p ((k2, p2) ∷ b) null
  unfolding unlink
  unlink-Seg h root [] apart_a sep e s = (
    h,
    rw (load-ok h p _ apart_p.0 s.at, e) (ground arith),
    record { before = tt; at = s.at; behind = s.behind },
  )
  unlink-Seg h root ((k0, p0) ∷ a) apart_a sep e s =
      let (g, run, seg, same) = set_next-Seg h top null p p2 k0 p0 a apart_a s.before in
      let q = last_or p0 a in
      let out : has q ((k, p) ∷ (k2, p2) ∷ b) ≡ false = sep q (has-last k0 p0 a) in
      let miss : (p0 == p) ≡ false = ground (arith, sep p0) in
      (
        g,
        rw (load-ok h p _ apart_p.0 s.at, e, miss, run) refl,
        record {
          before = seg;
          at = ground (arith, same p);
          behind = Seg-same h g q p null ((k2, p2) ∷ b) same (ground arith) s.behind;
        },
      )

  -- The four assignments that follow.
  relink-Seg :
      (h : Store) (a : Cells)
      → Separate a ((k, p) ∷ (k2, p2) ∷ b)
      → Around h a p2 p (node k (last_or null a) p2) p ((k2, p2) ∷ b) null
      → (g : Store) × (relink (last_or p2 b) p h ≡ ok g)
        × Around g a p2 p (node k (last_or p2 b) null) (last_or null a) ((k2, p2) ∷ b) p
  unfolding relink
  relink-Seg h a sep s =
      let y = last_or null a in
      let q = last_or p2 b in
      let n = node k y p2 in
      let out : has p ((k2, p2) ∷ b) ≡ false = apart_p.2 in
      let (g, run, seg, same) = set_prev-Seg h top p y null k2 p2 b apart_p.3 s.behind in
      let at : g p ≡ some n = ground (arith, same p, s.at) in
      let before =
        Seg-same h g p2 null p2 a same
          (out_of_before ((k, p) ∷ (k2, p2) ∷ b) p2 a sep (ground arith)) s.before in
      let (g', run', seg', same') = set_next-Seg g top y null p k2 p2 b apart_p.3 seg in
      let at' : g' p ≡ some n = ground (arith, same' p, last_ne_outside k2 p2 p b out) in
      let before' =
        Seg-same g g' q null p2 a same'
          (out_of_before ((k, p) ∷ (k2, p2) ∷ b) q a sep (ground (arith, has-last k2 p2 b)))
          before in
      let c = some (node k q p2) in
      let d = some (node k q null) in
      let g3 = write g' p c in
      let g4 = write g3 p d in
      let out_a = out_of_before ((k, p) ∷ (k2, p2) ∷ b) p a sep (ground arith) in
      (
        g4,
        rw (load-ok h p n apart_p.0 s.at, run, run', set_prev-ok g' p n apart_p.0 at' q)
            (set_next-ok g3 p (node k q p2) apart_p.0 (write_self g' p c) null),
        record {
          before =
              Seg-same g3 g4 p null p2 a (SameOutside-write g3 p d) out_a
                (Seg-same g' g3 p null p2 a (SameOutside-write g' p c) out_a before');
          at = write_self g3 p d;
          behind =
              Seg-same g3 g4 p y p ((k2, p2) ∷ b) (SameOutside-write g3 p d) out
                (Seg-same g' g3 p y p ((k2, p2) ∷ b) (SameOutside-write g' p c) out seg');
        },
      )

move_step :
    (s : LruEvictor) (p root : Ptr) (h g : Store)
    → s.back ≢ null
    → s.root ≢ null
    → (s.back == p) ≡ false
    → unlink s.root p s.cells ≡ ok (root, h)
    → relink s.back p h ≡ ok g
    → move_to_back p s ≡ ok (record s { cells = g; root = root; back = p })
unfolding move_to_back
move_step s p root h g b r ne run run' = ground arith

head_or-ne_null : (top p : Ptr) (a : Cells) → p ≢ null → Apart top a → head_or p a ≢ null
head_or-ne_null top p [] h s = h
head_or-ne_null top p (_ ∷ a) h s = s.0

back_of :
    (a : Cells) (k : Bytes) (p : Ptr) (b : Cells) → last_or null (a ++ (k, p) ∷ b) ≡ last_or p b
back_of a k p b = last_or-append null a ((k, p) ∷ b)

root_of :
    (a : Cells) (k : Bytes) (p : Ptr) (b : Cells) → head_or null (a ++ (k, p) ∷ b) ≡ head_or p a
root_of a k p b = head_or-append null a ((k, p) ∷ b)

-- On a list that is linked both ways, with distinct nodes, `move_to_back` of any node gives the
-- list in which that node is the last and the others keep their order, linked both ways, with
-- `root_` at its first node and `back_` at its last.
pub move_to_back-Seg :
    (s : LruEvictor) (a : Cells) (k : Bytes) (p : Ptr) (b : Cells)
    → Seg s.cells null null (a ++ (k, p) ∷ b)
    → Apart s.fresh (a ++ (k, p) ∷ b)
    → s.root ≡ head_or null (a ++ (k, p) ∷ b)
    → s.back ≡ last_or null (a ++ (k, p) ∷ b)
    → (g : Store) × (move_to_back p s
        ≡ ok (record s { cells = g; root = head_or null ((a ++ b) ++ (k, p) ∷ []); back = p }))
      × Seg g null null ((a ++ b) ++ (k, p) ∷ [])
unfolding move_to_back
move_to_back-Seg s a k p [] seg apart root back =
    let (apart_a, apart_m, sep) = Apart-append s.fresh a ((k, p) ∷ []) apart in
    let b_eq : s.back ≡ p = back ∙ back_of a k p [] in
    let r_eq = root ∙ root_of a k p [] in
    let r_ne = head_or-ne_null s.fresh p a apart_m.0 apart_a in
    (s.cells, rw append-nil (ground (arith, root_of a k p [])), rw append-nil seg)
move_to_back-Seg s a k p ((k2, p2) ∷ b) seg apart root back =
    let m = (k, p) ∷ (k2, p2) ∷ b in
    let (apart_a, apart_m, sep) = Apart-append s.fresh a m apart in
    let (seg_a, seg_m) = Seg-append s.cells null null a m seg in
    let (h, run, around) =
      unlink-Seg s.fresh k p k2 p2 b apart_m s.cells s.root a apart_a sep
        (root ∙ root_of a k p ((k2, p2) ∷ b))
        (record { before = seg_a; at = seg_m.0; behind = seg_m.1 }) in
    let (g, run', around') = relink-Seg s.fresh k p k2 p2 b apart_m h a sep around in
    let b_eq : s.back ≡ last_or p2 b = back ∙ back_of a k p ((k2, p2) ∷ b) in
    let r_eq = root ∙ root_of a k p ((k2, p2) ∷ b) in
    let r_ne = head_or-ne_null s.fresh p a apart_m.0 apart_a in
    let b_ne : (p == last_or p2 b) ≡ false = last_ne_outside k2 p2 p b (ground arith) in
    let b_nn = last_ne_null s.fresh k2 p2 b apart_m.3 in
    let new_root : head_or null ((a ++ (k2, p2) ∷ b) ++ (k, p) ∷ []) ≡ head_or p2 a =
      rw (append_assoc, root_of a k2 p2 (b ++ (k, p) ∷ [])) in
    (
      g,
      rw new_root (
          move_step s p (head_or p2 a) h g (ground arith) (ground arith) (ground arith) run
            (rw b_eq run')),
      rw append_assoc (
          append-Seg g null null a ((k2, p2) ∷ b ++ (k, p) ∷ []) around'.before (
            append-Seg g (last_or null a) null ((k2, p2) ∷ b) ((k, p) ∷ []) around'.behind
              (around'.at, tt))),
    )
