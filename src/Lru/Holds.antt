-- ===== src/Lru/Holds.antt =====
-- Which list of keys and nodes a state of the evictor stands for.
use hw6_csci.Base.{◌<◌, ◌≡◌, refl, ◌≢◌, false, [], ◌∷◌, arith, Bytes}
use hw6_csci.Base.Dict.{Distinct, find}
use hw6_csci.Lru.{LruEvictor, empty}
use hw6_csci.Lru.Nodes.{Ptr, null}
use hw6_csci.Lru.Segment.{Cells, head_or, last_or, has, Seg, Apart}

-- The nodes from `root_` to `back_` are those of `l`, linked both ways; `map_` leads from each
-- key of `l`, and from no other, to its node.
pub record Holds (s : LruEvictor) (l : Cells) : Type 0 where
  pub seg : Seg s.cells null null l
  pub apart : Apart s.fresh l
  pub alive : s.fresh ≢ null
  pub root : s.root ≡ head_or null l
  pub back : s.back ≡ last_or null l
  pub mapped : (k : Bytes) → find k s.map ≡ find k l
  pub distinct : Distinct l

pub Holds-empty : Holds empty []
unfolding find
Holds-empty = record {
  seg = tt;
  apart = tt;
  alive = omega arith;
  root = refl;
  back = refl;
  mapped = λ k. refl;
  distinct = tt;
}

pub has-fresh : (top : Ptr) (l : Cells) → Apart top l → has top l ≡ false
has-fresh top [] s = refl
has-fresh top ((k, p) ∷ l) s = ground (arith, has-fresh top l s.3)

pub Apart-weaken : (top top' : Ptr) (l : Cells) → top < top' → Apart top l → Apart top' l
Apart-weaken top top' [] lt s = tt
Apart-weaken top top' ((k, p) ∷ l) lt s = (s.0, omega arith, s.2, Apart-weaken top top' l lt s.3)
