-- ===== src/Lru/Destroy.antt =====
-- The destructor: its loop, and the pointers between the nodes that are left.
use hw6_csci.Base.{
  ℕ, zero, suc, ◌≤◌, ◌<◌, ◌≡◌, refl, ◌∙◌, false, some, [], ◌∷◌, arith, Bytes, ok, length,
}
use hw6_csci.Lru.{LruEvictor, clear_prev, destroy}
use hw6_csci.Lru.Nodes.{Ptr, null, node, Store, load-ok}
use hw6_csci.Lru.Segment.{Cells, head_or, has, Seg, Apart}
use hw6_csci.Lru.Relink.{set_prev-Seg, last_ne_null}
use hw6_csci.Lru.Holds.{Holds}

-- The nodes of `l` point forward only: no two of them own one another.
abbrev pub Forward : Store → Cells → Type 0
Forward h [] = Unit
Forward h ((k, p) ∷ l) = (h p ≡ some (node k null (head_or null l))) × Forward h l

clear_prev-Forward :
    (fuel : ℕ) (h : Store) (top : Ptr) (k : Bytes) (p : Ptr) (l : Cells)
    → Apart top ((k, p) ∷ l)
    → Seg h null null ((k, p) ∷ l)
    → length l < fuel
    → (g : Store) × (clear_prev fuel p h ≡ ok g)
      × Forward g ((k, p) ∷ l)
      × ((q : Ptr) → has q l ≡ false → g q ≡ h q)
unfolding clear_prev
clear_prev-Forward zero h top k p l apart seg enough = absurd (omega arith)
clear_prev-Forward (suc fuel) h top k p [] apart seg enough =
    (h, rw (load-ok h p _ apart.0 seg.0), (seg.0, tt), λ q o. refl)
clear_prev-Forward (suc fuel) h top k p ((k2, p2) ∷ l) apart seg enough =
    let (g, run, seg', same) = set_prev-Seg h top p null null k2 p2 l apart.3 seg.1 in
    let (g', run', fwd, kept) = clear_prev-Forward fuel g top k2 p2 l apart.3 seg' (omega arith) in
    (
      g',
      rw (load-ok h p _ apart.0 seg.0) (ground (arith, apart.3.0, run, run')),
      (kept p (ground (arith, apart.2)) ∙ same p (ground (arith, apart.2)) ∙ seg.0, fwd),
      λ q o. kept q (ground arith) ∙ same q (ground arith),
    )

-- On a well-formed list, with at least as many rounds as nodes, the destructor ends without a
-- fault, and afterwards no node of the list points backwards, so that no two of them own one
-- another.
pub destroy-Forward :
    (fuel : ℕ) (s : LruEvictor) (l : Cells)
    → Holds s l
    → length l ≤ fuel
    → (g : Store) × (destroy fuel s ≡ ok g) × Forward g l
unfolding destroy
destroy-Forward fuel s [] holds enough = (s.cells, ground (arith, holds.root), tt)
destroy-Forward fuel s ((k, p) ∷ l) holds enough =
    let (g, run, fwd, _) =
      clear_prev-Forward fuel s.cells s.fresh k p l holds.apart holds.seg enough in
    (
      g,
      ground (
        arith,
        holds.root,
        holds.back,
        holds.apart.0,
        last_ne_null s.fresh k p l holds.apart,
        run,
      ),
      fwd,
    )
