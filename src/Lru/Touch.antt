-- ===== src/Lru/Touch.antt =====
-- `touch_key` on every state that stands for a list.
use hw6_csci.Base.{
  ◌+◌, ◌≡◌, refl, sym, ◌∙◌, false, none, [], ◌∷◌, ◌++◌, arith, ◌==◌, Bytes, ok, Option-cases, inl,
  inr, bytes_eq, bytes_eq_iff, if◌then◌else◌, some,
}
use hw6_csci.Base.Dict.{
  Dict, find, put, find-put, erase, find-erase, find-snoc, Distinct-erase, Distinct-snoc,
  find_split, erase_absent,
}
use hw6_csci.Lru.{LruEvictor, append_new, move_to_back, touch_key}
use hw6_csci.Lru.Nodes.{Ptr, null, node, Store, write, load-ok, set_prev-ok}
use hw6_csci.Lru.Segment.{
  Cells, head_or, has, Seg, Apart, Separate, Seg-same, append-Seg, append-Apart, Apart-append,
  last_or-append, has-append,
}
use hw6_csci.Lru.Relink.{SameOutside-write, write_self, last_ne_null, last_ne_outside, set_next-Seg}
use hw6_csci.Lru.Holds.{Holds, has-fresh, Apart-weaken}
use hw6_csci.Lru.Move.{move_to_back-Seg}

-- The list after `touch_key`, where the node of the key is at `p`.
abbrev pub requeue_cell : Bytes → Ptr → Cells → Cells
requeue_cell k p l = erase k l ++ (k, p) ∷ []

-- The state that `append_new` leaves, at the store `g`.
abbrev appended : Bytes → LruEvictor → Store → LruEvictor
appended key s g = record {
  cells = g;
  fresh = s.fresh + 1;
  root = if s.root == null then s.fresh else s.root;
  back = s.fresh;
  map = put key s.fresh s.map;
}

append_new-Seg :
    (s : LruEvictor) (key : Bytes) (l : Cells)
    → Holds s l
    → (g : Store) × (append_new key s ≡ ok (appended key s g))
      × Seg g null null (l ++ (key, s.fresh) ∷ [])
      × ((if s.root == null then s.fresh else s.root) ≡ head_or null (l ++ (key, s.fresh) ∷ []))
unfolding append_new
append_new-Seg s key [] holds =
    let p = s.fresh in
    let h = write s.cells p (some (node key null null)) in
    let g = write h p (some (node key s.back null)) in
    let run = set_prev-ok h p (node key null null) holds.alive (write_self s.cells p _) s.back in
    let at : g p ≡ some (node key s.back null) = write_self h p _ in
    let back : s.back ≡ null = holds.back in
    (
      g,
      ground (arith, run, load-ok g p (node key s.back null) holds.alive at),
      (ground arith, tt),
      ground (arith, holds.root),
    )
append_new-Seg s key ((k0, p0) ∷ l) holds =
    let p = s.fresh in
    let cells = (k0, p0) ∷ l in
    let c = some (node key null null) in
    let d = some (node key s.back null) in
    let h = write s.cells p c in
    let h' = write h p d in
    let out = has-fresh p cells holds.apart in
    let seg =
      Seg-same h h' p null null cells (SameOutside-write h p d) out
        (Seg-same s.cells h p null null cells (SameOutside-write s.cells p c) out holds.seg) in
    let run = set_prev-ok h p (node key null null) holds.alive (write_self s.cells p c) s.back in
    let (g, run', seg', same) = set_next-Seg h' p null null p k0 p0 l holds.apart seg in
    let at : g p ≡ d = same p (last_ne_outside k0 p0 p l out) ∙ write_self h p d in
    let b_ne = last_ne_null p k0 p0 l holds.apart in
    (
      g,
      ground (arith, run, run', holds.back, load-ok g p (node key s.back null) holds.alive at),
      append-Seg g null null cells ((key, p) ∷ []) seg' (ground (arith, holds.back), tt),
      ground (arith, holds.root, holds.apart.0),
    )

Separate-one : (k : Bytes) (p : Ptr) (l : Cells) → has p l ≡ false → Separate l ((k, p) ∷ [])
Separate-one k p l out q i = ground arith

mapped_snoc :
    (q k : Bytes) (p : Ptr) (l : Cells)
    → find q (erase k l ++ (k, p) ∷ []) ≡ (if bytes_eq k q then some p else find q l)
mapped_snoc q k p l = ground (arith, find-snoc q k p (erase k l), find-erase q k l)

mapped_new :
    (m : Dict Ptr) (l : Cells) (k : Bytes) (p : Ptr)
    → find k l ≡ none
    → ((q : Bytes) → find q m ≡ find q l)
    → (q : Bytes) → find q (put k p m) ≡ find q (l ++ (k, p) ∷ [])
mapped_new m l k p new same q = ground (arith, find-put q k p m, same q, find-snoc q k p l)

-- A key that has no node yet gets one, behind all others.
pub append_new-Holds :
    (s : LruEvictor) (key : Bytes) (l : Cells)
    → Holds s l
    → find key l ≡ none
    → (t : LruEvictor) × (append_new key s ≡ ok t) × Holds t (requeue_cell key s.fresh l)
append_new-Holds s key l holds new =
    let (g, run, seg, root) = append_new-Seg s key l holds in
    let p = s.fresh in
    (
      appended key s g,
      run,
      rw (erase_absent key l new) (record {
        seg = seg;
        apart =
            append-Apart (p + 1) l ((key, p) ∷ [])
              (Apart-weaken p (p + 1) l (omega arith) holds.apart)
              (holds.alive, omega arith, refl, tt)
              (Separate-one key p l (has-fresh p l holds.apart));
        alive = omega arith;
        root = root;
        back = sym (last_or-append null l ((key, p) ∷ []));
        mapped = mapped_new s.map l key p new holds.mapped;
        distinct = Distinct-snoc key p l new holds.distinct;
      }),
    )

Apart-perm :
    (top : Ptr) (a : Cells) (k : Bytes) (p : Ptr) (b : Cells)
    → Apart top (a ++ (k, p) ∷ b)
    → Apart top ((a ++ b) ++ (k, p) ∷ [])
Apart-perm top a k p b s =
    let (apart_a, apart_m, sep) = Apart-append top a ((k, p) ∷ b) s in
    let sep' : Separate a b = λ q i. ground (arith, sep q i) in
    let out : has p (a ++ b) ≡ false = ground (arith, has-append p a b, sep p) in
    append-Apart top (a ++ b) ((k, p) ∷ []) (append-Apart top a b apart_a apart_m.3 sep')
      (apart_m.0, apart_m.1, refl, tt) (Separate-one k p (a ++ b) out)

mapped_old :
    (m : Dict Ptr) (l : Cells) (k : Bytes) (p : Ptr)
    → find k l ≡ some p
    → ((q : Bytes) → find q m ≡ find q l)
    → (q : Bytes) → find q m ≡ find q (requeue_cell k p l)
mapped_old m l k p old same q = ground (arith, same q, mapped_snoc q k p l, bytes_eq_iff k q)

-- A key that has a node: the node goes to the back.
pub move_to_back-Holds :
    (s : LruEvictor) (key : Bytes) (p : Ptr) (l : Cells)
    → Holds s l
    → find key l ≡ some p
    → (t : LruEvictor) × (move_to_back p s ≡ ok t) × Holds t (requeue_cell key p l)
move_to_back-Holds s key p l holds old =
    let (a, b, split, rest) = find_split key p l old holds.distinct in
    let apart = rw split at holds.apart in
    let (g, run, seg) =
      move_to_back-Seg s a key p b (rw split at holds.seg) apart (rw split at holds.root)
        (rw split at holds.back) in
    (
      _,
      run,
      record {
        seg = rw rest seg;
        apart = rw rest (Apart-perm s.fresh a key p b apart);
        alive = holds.alive;
        root = rw rest;
        back = rw (rest, last_or-append);
        mapped = λ q. mapped_old s.map l key p old holds.mapped q;
        distinct =
            Distinct-snoc key p (erase key l) (ground (arith, find-erase key key l))
              (Distinct-erase key l holds.distinct);
      },
    )

-- On a well-formed list, `touch_key` does not fault and leaves a well-formed list: the node of
-- the key is the last, and the other nodes are as before.
pub touch_key-Holds :
    (s : LruEvictor) (key : Bytes) (l : Cells)
    → Holds s l
    → (t : LruEvictor) × (p : Ptr) × (touch_key key s ≡ ok t) × Holds t (requeue_cell key p l)
unfolding touch_key
touch_key-Holds s key l holds = elim (Option-cases (find key s.map)) [
  | inl new ↦
      let (t, run, holds') = append_new-Holds s key l holds (sym (holds.mapped key) ∙ new) in
      (t, s.fresh, ground (arith, run), holds')
  | inr (p, old) ↦
      let (t, run, holds') = move_to_back-Holds s key p l holds (sym (holds.mapped key) ∙ old) in
      (t, p, ground (arith, run), holds')
]
