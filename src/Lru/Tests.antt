-- ===== src/Lru/Tests.antt =====
-- The theorems on the LRU evictor at concrete states.
use hw6_csci.Base.{◌≡◌, refl, some, none, List, [], ◌∷◌, Bytes, codes, arith, ok, Bytes-discrete}
use hw6_csci.Base.Dict.{find}
use hw6_csci.Lru.{LruEvictor, empty, touch_key, evict, destroy}
use hw6_csci.Lru.Nodes.{Ptr, null, node, Store, write}
use hw6_csci.Lru.Segment.{Cells}
use hw6_csci.Lru.Holds.{Holds}
use hw6_csci.Lru.Touch.{requeue_cell, touch_key-Holds}
use hw6_csci.Lru.Evict.{evict-Holds}
use hw6_csci.Lru.Destroy.{Forward, destroy-Forward}
use hw6_csci.Lru.Refinement as Queue
use hw6_csci.Lru.Refinement.{Event, touched, evicted, run, replay, run-replay}

abbrev key_a : Bytes
key_a = codes "a"

abbrev key_b : Bytes
key_b = codes "b"

abbrev two_cells : Cells
two_cells = (key_a, 1) ∷ (key_b, 2) ∷ []

abbrev two_nodes : LruEvictor
two_nodes = record {
  cells = write (write (λ _. none) 1 (some (node key_a null 2))) 2 (some (node key_b 1 null));
  fresh = 3;
  root = 1;
  back = 2;
  map = two_cells;
}

two_nodes-Holds : Holds two_nodes two_cells
unfolding find write Bytes-discrete
two_nodes-Holds = record {
  seg = (refl, (refl, tt));
  apart = (omega arith, omega arith, refl, (omega arith, omega arith, refl, tt));
  alive = omega arith;
  root = refl;
  back = refl;
  mapped = λ k. refl;
  distinct = (refl, (refl, tt));
}

touch_key-Holds_example :
    (t : LruEvictor) × (p : Ptr) × (touch_key key_a two_nodes ≡ ok t)
    × Holds t (requeue_cell key_a p two_cells)
touch_key-Holds_example = touch_key-Holds two_nodes key_a two_cells two_nodes-Holds

evict-Holds_example :
    (t : LruEvictor) × (evict two_nodes ≡ ok (key_a, t)) × Holds t ((key_b, 2) ∷ [])
evict-Holds_example = evict-Holds two_nodes key_a 1 ((key_b, 2) ∷ []) two_nodes-Holds

destroy-Forward_example : (g : Store) × (destroy 2 two_nodes ≡ ok g) × Forward g two_cells
destroy-Forward_example = destroy-Forward 2 two_nodes two_cells two_nodes-Holds (omega arith)

abbrev events : List Event
events = touched key_a ∷ touched key_b ∷ touched key_a ∷ evicted ∷ []

run-replay_example :
    (t : LruEvictor) × (run events empty ≡ ok ((replay events []).0, t))
    × Queue.Holds t (replay events []).1
run-replay_example = run-replay events
