-- ===== src/Lru/Refinement.antt =====
-- `LRU_Evictor` keeps the interface of the evictors, as a queue in which a touch moves the key to
-- the end.
use hw6_csci.Base.{
  ◌+◌, ◌≤◌, ◌≡◌, refl, ◌||◌, List, [], ◌∷◌, ◌++◌, arith, Bytes, bytes_eq, Outcome, ok, length,
  ◌>>=◌,
}
use hw6_csci.Evictor.{Evictor}
use hw6_csci.Evictor.Queue.{
  member, remove, keys, member-snoc, member-remove, length-snoc, length-remove-le, keys-erase,
  keys-append,
}
use hw6_csci.Base.Dict.{erase}
use hw6_csci.Lru.{LruEvictor, empty, touch_key, evict}
use hw6_csci.Lru.Segment.{Cells}
use hw6_csci.Lru.Holds as Rep
use hw6_csci.Lru.Holds.{Holds-empty}
use hw6_csci.Lru.Touch.{requeue_cell, touch_key-Holds}
use hw6_csci.Lru.Evict.{evict-Holds, evict_nothing}

-- The keys of the linked list are the queue.
abbrev pub Holds : LruEvictor → List Bytes → Type 0
Holds s q = (l : Cells) × Rep.Holds s l × (keys l ≡ q)

abbrev pub requeue : Bytes → List Bytes → List Bytes
requeue k q = remove k q ++ k ∷ []

pub touch_law :
    (k : Bytes) (s : LruEvictor) (q : List Bytes)
    → Holds s q
    → (t : LruEvictor) × (touch_key k s ≡ ok t) × Holds t (requeue k q)
touch_law k s q (l, holds, e) =
    let (t, p, run, holds') = touch_key-Holds s k l holds in
    (t, run, (requeue_cell k p l, holds', rw (keys-append (erase k l), keys-erase k l, e)))

evict_cells :
    (k : Bytes) (s : LruEvictor) (q : List Bytes) (l : Cells)
    → Rep.Holds s l
    → keys l ≡ k ∷ q
    → (t : LruEvictor) × (evict s ≡ ok (k, t)) × Holds t q
evict_cells k s q [] holds e = cc
evict_cells k s q ((j, p) ∷ l) holds e =
    let (t, run, holds') = evict-Holds s j p l holds in (t, cc, (l, holds', cc))

pub evict_law :
    (k : Bytes) (s : LruEvictor) (q : List Bytes)
    → Holds s (k ∷ q)
    → (t : LruEvictor) × (evict s ≡ ok (k, t)) × Holds t q
evict_law k s q (l, holds, e) = evict_cells k s q l holds e

evict_no_cells : (s : LruEvictor) (l : Cells) → Rep.Holds s l → keys l ≡ [] → evict s ≡ ok ([], s)
evict_no_cells s [] holds e = evict_nothing s holds
evict_no_cells s ((k, p) ∷ l) holds e = cc

evict_law_nothing : (s : LruEvictor) → Holds s [] → evict s ≡ ok ([], s)
evict_law_nothing s (l, holds, e) = evict_no_cells s l holds e

pub member-requeue :
    (j k : Bytes) (q : List Bytes) → member j (requeue k q) ≡ (bytes_eq k j || member j q)
member-requeue j k q = ground (arith, member-snoc j k (remove k q), member-remove j k q)

pub length-requeue : (k : Bytes) (q : List Bytes) → length (requeue k q) ≤ length q + 1
length-requeue k q = omega (arith, length-snoc k (remove k q), length-remove-le k q)

abbrev pub lru_evictor : Evictor
lru_evictor = record {
  State = LruEvictor;
  touch_key = touch_key;
  evict = evict;
  Holds = Holds;
  requeue = requeue;
  touch_law = touch_law;
  evict_law = evict_law;
  member-requeue = member-requeue;
  length-requeue = length-requeue;
}

-- A call of the evictor.
pub data Event : Type 0 where
  touched : Bytes → Event
  evicted : Event

-- The calls in turn: the keys that the evictions return, and the state at the end.
pub run : List Event → LruEvictor → Outcome (List Bytes × LruEvictor)
run [] s = ok ([], s)
run (touched k ∷ events) s = do t ← touch_key k s; run events t
run (evicted ∷ events) s = do (k, t) ← evict s; (ks, u) ← run events t; ok (k ∷ ks, u)

-- The same on a plain queue: a touch moves the key to the end, an eviction takes the front.
pub replay : List Event → List Bytes → List Bytes × List Bytes
replay [] q = ([], q)
replay (touched k ∷ events) q = replay events (requeue k q)
replay (evicted ∷ events) [] = let (ks, q') = replay events [] in ([] ∷ ks, q')
replay (evicted ∷ events) (k ∷ q) = let (ks, q') = replay events q in (k ∷ ks, q')

run_from :
    (events : List Event) (s : LruEvictor) (q : List Bytes)
    → Holds s q
    → (t : LruEvictor) × (run events s ≡ ok ((replay events q).0, t)) × Holds t (replay events q).1
unfolding run replay
run_from [] s q holds = (s, refl, holds)
run_from (touched k ∷ events) s q holds =
    let (t, e, holds') = touch_law k s q holds in
    let (u, e', holds'') = run_from events t (requeue k q) holds' in (u, rw e e', holds'')
run_from (evicted ∷ events) s [] holds =
    let (u, e', holds'') = run_from events s [] holds in
    (u, rw (evict_law_nothing s holds, e'), holds'')
run_from (evicted ∷ events) s (k ∷ q) holds =
    let (t, e, holds') = evict_law k s q holds in
    let (u, e', holds'') = run_from events t q holds' in (u, rw (e, e'), holds'')

-- Any sequence of `touch_key` and `evict`, from the constructor on, runs without a fault; the
-- evictions return what they return on a plain queue in which a touch moves the key to the end
-- and an eviction takes the front, the empty key where there is none, and the linked list at the
-- end holds the keys of that queue.
pub run-replay :
    (events : List Event)
    → (t : LruEvictor) × (run events empty ≡ ok ((replay events []).0, t))
      × Holds t (replay events []).1
run-replay events = run_from events empty [] ([], Holds-empty, refl)
