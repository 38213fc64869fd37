-- ===== src/Cache/Tests.antt =====
-- The theorems on the cache at concrete states, with the FIFO evictor.
use hw6_csci.Base.{
  ◌⊎◌, ℕ, ◌+◌, ◌^◌, ◌≤◌, ◌<◌, ◌-◌, ◌&&◌, ◌≡◌, refl, inl, true, false, Option, none, some, List, [],
  ◌∷◌, ◌++◌, Bytes, codes, arith, Fault, ok, fault, bytes_eq, Bytes-discrete, if◌then◌else◌,
}
use hw6_csci.Base.Dict.{contains, find, total, emplace, erase}
use hw6_csci.Evictor.Queue.{member}
use hw6_csci.Fifo.{Fifo, touch_key}
use hw6_csci.Fifo.Refinement.{fifo_evictor}
use hw6_csci.Lru.{LruEvictor, empty}
use hw6_csci.Lru.Holds.{Holds-empty}
use hw6_csci.Lru.Refinement.{lru_evictor}
use hw6_csci.Cache.History.{Call, set_call, Readable, run_calls}
use hw6_csci.Cache.History.Run.{Current, get-latest}
use hw6_csci.Cache.{make}
use hw6_csci.Cache.{
  Cache, c_string, read_value, set, get, del, reset, space_used, evict_until, actual_size, admit,
  put_entry, touch,
}
use hw6_csci.Cache.Valid.{IsValid}
use hw6_csci.Cache.Count.{new_total}
use hw6_csci.Cache.Evicting.{erase_all, victims, Room, evict_until-Room}
use hw6_csci.Cache.Admit.{Stored, requeued}
use hw6_csci.Cache.Set.{evictions, set-fits, set-evicts, set-dangling}
use hw6_csci.Cache.Reads.{get_hit, del_stored, reset-IsValid}
use hw6_csci.Cache.Outcomes.{SetResult, set-outcome, set_dropped, get-set}
use hw6_csci.Cache.Overflow.{set_wraps}
use hw6_csci.Cache.Fuel.{set-more}

abbrev key_a : Bytes
key_a = codes "a"

abbrev key_b : Bytes
key_b = codes "b"

abbrev key_c : Bytes
key_c = codes "c"

abbrev text : Option Bytes
text = some (codes "z" ++ 0 ∷ [])

abbrev two_items : Cache Fifo
two_items = record {
  current_mem = 9;
  vals = (key_a, codes "x") ∷ (key_b, codes "y") ∷ [];
  sizes = (key_a, 4) ∷ (key_b, 5) ∷ [];
  get_val = [];
  maxmem = 10;
  evictor = some (key_b ∷ key_a ∷ []);
}

abbrev queue : List Bytes
queue = key_a ∷ key_b ∷ []

two_items-IsValid : IsValid fifo_evictor two_items queue
unfolding total find member
two_items-IsValid = record {
  same_keys = λ k. ground arith;
  distinct = ground arith;
  counted = refl;
  bounded = omega arith;
  small = omega arith;
  queued = refl;
  known = λ k ne i. ground arith;
}

text_read : read_value text ≡ ok (codes "z")
unfolding read_value c_string
text_read = refl

evicts_first : evictions key_c 5 two_items queue ≡ key_a ∷ []
unfolding victims total find erase Bytes-discrete
evicts_first = refl

evicts_itself : evictions key_a 6 two_items queue ≡ key_a ∷ []
unfolding victims total find erase Bytes-discrete
evicts_itself = refl

c_fits : new_total key_c 1 two_items.sizes ≤ 10
unfolding total erase Bytes-discrete
c_fits = omega arith

c_over : 10 < new_total key_c 5 two_items.sizes
unfolding total erase Bytes-discrete
c_over = omega arith

a_over : 10 < new_total key_a 6 two_items.sizes
unfolding total erase Bytes-discrete
a_over = omega arith

c_new : find key_c two_items.vals ≡ none
unfolding find Bytes-discrete
c_new = refl

a_stored : find key_a two_items.vals ≡ some (codes "x")
unfolding find Bytes-discrete
a_stored = refl

set-outcome_example : SetResult fifo_evictor 3 key_c text 5 two_items queue
set-outcome_example =
    set-outcome fifo_evictor 3 key_c text 5 two_items queue (codes "z") two_items-IsValid text_read
      (omega arith)

set-fits_example :
    (c' : Cache Fifo) × (set fifo_evictor 3 key_c text 1 two_items ≡ ok c')
    × IsValid fifo_evictor c' (requeued fifo_evictor key_c two_items.evictor queue)
    × Stored key_c (codes "z") 1 two_items.vals two_items.sizes c'
set-fits_example =
    set-fits fifo_evictor 3 key_c text 1 two_items queue (codes "z") two_items-IsValid text_read
      c_fits

c_kept : (contains key_c two_items.vals && member key_c (evictions key_c 5 two_items queue)) ≡ false
unfolding find Bytes-discrete
c_kept = refl

set-evicts_example :
    (c' : Cache Fifo) × (rest : List Bytes) × (set fifo_evictor 3 key_c text 5 two_items ≡ ok c')
    × (queue ≡ evictions key_c 5 two_items queue ++ rest)
    × IsValid fifo_evictor c' (rest ++ key_c ∷ [])
    × Stored key_c
        (codes "z")
        5
        (erase_all (evictions key_c 5 two_items queue) two_items.vals)
        (erase_all (evictions key_c 5 two_items queue) two_items.sizes)
        c'
set-evicts_example =
    set-evicts fifo_evictor 3 key_c text 5 two_items queue (codes "z") two_items-IsValid text_read
      (key_b ∷ key_a ∷ []) refl c_over (omega arith) (omega arith) c_kept

a_contained : contains key_a two_items.vals ≡ true
unfolding find Bytes-discrete
a_contained = refl

a_evicted : member key_a (evictions key_a 6 two_items queue) ≡ true
unfolding member Bytes-discrete
a_evicted = rw evicts_itself refl

set-dangling_example : set fifo_evictor 3 key_a text 6 two_items ≡ fault Fault.dangling_iterator
set-dangling_example =
    set-dangling fifo_evictor 3 key_a text 6 two_items queue (codes "z") two_items-IsValid text_read
      (key_b ∷ key_a ∷ []) refl a_over (omega arith) (omega arith) a_contained a_evicted

evict_until-Room_example :
    (c' : Cache Fifo) × (q' : List Bytes) × (evict_until fifo_evictor 3 5 two_items ≡ ok c')
    × Room fifo_evictor two_items 5 queue c' q'
evict_until-Room_example =
    evict_until-Room fifo_evictor 3 5 two_items (key_b ∷ key_a ∷ []) queue two_items-IsValid refl
      (omega arith) (omega arith)

get-set_example :
    (c' c'' : Cache Fifo) × (set fifo_evictor 3 key_c text 1 two_items ≡ ok c')
    × (get fifo_evictor key_c c' ≡ ok (some 1, c''))
    × (c''.get_val ≡ codes "z")
get-set_example =
    get-set fifo_evictor 3 key_c text 1 two_items queue (codes "z") two_items-IsValid text_read
      c_fits

set_dropped_example : set fifo_evictor 3 key_c text 20 two_items ≡ ok two_items
set_dropped_example =
    set_dropped fifo_evictor 3 key_c text 20 two_items queue (codes "z") two_items-IsValid text_read
      (inl (omega arith))

get_hit_example :
    (n : ℕ) × (c' : Cache Fifo) × (get fifo_evictor key_a two_items ≡ ok (some n, c'))
    × (find key_a two_items.sizes ≡ some n)
    × (c'.get_val ≡ codes "x")
    × (c'.vals ≡ two_items.vals)
    × (c'.sizes ≡ two_items.sizes)
    × IsValid fifo_evictor c' (requeued fifo_evictor key_a two_items.evictor queue)
get_hit_example = get_hit fifo_evictor key_a two_items queue two_items-IsValid (codes "x") a_stored

del_stored_example :
    (n : ℕ) × (c' : Cache Fifo) × (del fifo_evictor key_a two_items ≡ (true, c'))
    × (find key_a two_items.sizes ≡ some n)
    × (c'.current_mem + n ≡ 9)
    × ((k : Bytes) → find k c'.vals ≡ (if bytes_eq key_a k then none else find k two_items.vals))
    × IsValid fifo_evictor c' queue
del_stored_example =
    del_stored fifo_evictor key_a two_items queue two_items-IsValid (codes "x") a_stored

reset-IsValid_example :
    IsValid fifo_evictor (reset fifo_evictor two_items) queue
    × (space_used fifo_evictor (reset fifo_evictor two_items) ≡ 0)
    × ((k : Bytes)
        → get fifo_evictor k (reset fifo_evictor two_items)
          ≡ ok (none, reset fifo_evictor two_items))
reset-IsValid_example = reset-IsValid fifo_evictor two_items queue two_items-IsValid

-- One item that takes nearly all of the greatest memory a cache can be given.
abbrev large_item : Cache Fifo
large_item = record {
  current_mem = 2 ^ 32 - 2;
  vals = (key_a, codes "x") ∷ [];
  sizes = (key_a, 2 ^ 32 - 2) ∷ [];
  get_val = [];
  maxmem = 2 ^ 32 - 1;
  evictor = some (key_a ∷ []);
}

b_new : find key_b large_item.vals ≡ none
unfolding find Bytes-discrete
b_new = refl

b_no_size : find key_b large_item.sizes ≡ none
unfolding find Bytes-discrete
b_no_size = refl

large_counted : large_item.current_mem ≡ total large_item.sizes
unfolding total
large_counted = refl

set_wraps_example :
    (c' : Cache Fifo) × (set fifo_evictor 3 key_b text 5 large_item ≡ ok c')
    × (2 ^ 32 - 1 < total c'.sizes)
    × (space_used fifo_evictor c' + 2 ^ 32 ≡ total c'.sizes)
set_wraps_example =
    set_wraps fifo_evictor 3 key_b text 5 large_item (key_a ∷ []) (codes "z") refl text_read b_new
      b_no_size large_counted (omega arith) (omega arith) (omega arith) (omega arith)

abbrev three_items : Cache Fifo
three_items = record {
  current_mem = 10;
  vals = (key_c, codes "z") ∷ two_items.vals;
  sizes = (key_c, 1) ∷ two_items.sizes;
  get_val = [];
  maxmem = 10;
  evictor = some (key_c ∷ key_b ∷ key_a ∷ []);
}

set_run : set fifo_evictor 0 key_c text 1 two_items ≡ ok three_items
unfolding set actual_size read_value c_string admit put_entry touch touch_key emplace find
    Bytes-discrete
set_run = refl

set-more_example : set fifo_evictor 5 key_c text 1 two_items ≡ ok three_items
set-more_example =
    set-more fifo_evictor 0 5 key_c text 1 two_items three_items (omega arith) set_run

-- Newest first: `a` is set, then `b`, then `c`, which evicts `a`, then `b` again.
abbrev calls : List Call
calls =
    set_call key_b (codes "w") 3
    ∷ set_call key_c (codes "z") 5
    ∷ set_call key_b (codes "y") 5
    ∷ set_call key_a (codes "x") 4
    ∷ []

calls-Readable : Readable calls
unfolding read_value c_string
calls-Readable = (refl, (refl, (refl, (refl, tt))))

get-latest_example :
    ((c c' : Cache LruEvictor) × (r : Option ℕ) × (run_calls lru_evictor 4 calls
          (make 10 (some empty))
        ≡ ok c)
      × (space_used lru_evictor c ≤ 10)
      × (get lru_evictor key_b c ≡ ok (r, c'))
      × Current 10 key_b calls r c'.get_val)
    ⊎ (run_calls lru_evictor 4 calls (make 10 (some empty)) ≡ fault Fault.dangling_iterator)
get-latest_example =
    get-latest lru_evictor 10 4 empty (omega arith) ([], Holds-empty, refl) calls key_b
      calls-Readable (omega arith)
