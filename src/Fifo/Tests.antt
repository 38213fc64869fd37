-- ===== src/Fifo/Tests.antt =====
-- The FIFO evictor on three keys.
use hw6_csci.Base.{◌≡◌, [], ◌∷◌, List, Bytes, codes, ok}
use hw6_csci.Fifo.{Fifo}
use hw6_csci.Fifo.Refinement.{touch_all, evict_all, evict_all-touch_all}

abbrev keys : List Bytes
keys = codes "a" ∷ codes "b" ∷ codes "a" ∷ []

evict_all-touch_all_example :
    (d : Fifo) × (touch_all keys [] ≡ ok d) × (evict_all 3 d ≡ ok (keys, []))
evict_all-touch_all_example = evict_all-touch_all keys
