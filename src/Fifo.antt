-- ===== src/Fifo.antt =====
-- `FIFO_Evictor` of fifo_evictor.cc: a deque of keys, the newest in front.
mod Tests
pub mod Refinement
use hw6_csci.Base.{List, [], ◌∷◌, Bytes, Fault, Outcome, ok, fault, ◌>>=◌}

-- The member `keys`, front first.
abbrev pub Fifo : Type 0
Fifo = List Bytes

-- `back ()` and `pop_back ()`, which are undefined on an empty deque.
pub pop_back : Fifo → Outcome (Bytes × Fifo)
pop_back [] = fault Fault.empty_container
pop_back (k ∷ []) = ok (k, [])
pop_back (k ∷ j ∷ d) = do (last, d') ← pop_back (j ∷ d); ok (last, k ∷ d')

unfoldable pub touch_key : Bytes → Fifo → Outcome Fifo
touch_key key d = ok (key ∷ d)

pub evict : Fifo → Outcome (Bytes × Fifo)
unfolding pop_back
evict d = pop_back d
