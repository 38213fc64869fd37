-- ===== src/Lru.antt =====
-- `LRU_Evictor` of lru_evictor.cc, with the nodes of LList.hh: a doubly linked list on an explicit
-- store, and a map from each key to its node.
mod Tests
pub mod Nodes
pub mod Segment
pub mod Relink
pub mod Holds
pub mod Move
pub mod Touch
pub mod Evict
pub mod Destroy
pub mod Refinement
use hw6_csci.Base.{
  ℕ, zero, suc, ◌+◌, ◌≡◌, refl, Bool, true, false, not, Option, none, some, [], ◌∷◌, ◌==◌,
  if◌then◌else◌, Bytes, codes, bytes_eq, Bytes-discrete, Fault, Outcome, ok, fault, ◌>>=◌, ◌>>◌,
  assert,
}
use hw6_csci.Base.Dict.{Dict, find, put, erase, assign, emplace}
use Nodes.{Ptr, null, node, Store, write, load, set_prev, set_next}

-- `LL_` with its `root_` and `back_`, and `map_`. `fresh` is the address that the next
-- `make_shared` returns.
pub record LruEvictor : Type 0 where
  pub cells : Store
  pub fresh : Ptr
  pub root : Ptr
  pub back : Ptr
  pub map : Dict Ptr

-- The constructor.
abbrev pub empty : LruEvictor
empty = record { cells = λ _. none; fresh = 1; root = null; back = null; map = [] }

-- The first branch of `touch_key`: a new node behind the last.
unfoldable pub append_new : Bytes → LruEvictor → Outcome LruEvictor
append_new key s = do
  let p = s.fresh
  let made = write s.cells p (some (node key null null))
  h ← set_prev p s.back made
  h' ← if s.back == null then ok h else set_next s.back p h
  n ← load p h'
  assert (n.next == null)
  ok (record {
    cells = h';
    fresh = p + 1;
    root = if s.root == null then p else s.root;
    back = p;
    map = put key p s.map;
  })

-- Takes the node out of its place: the new root, and the store.
unfoldable pub unlink : Ptr → Ptr → Store → Outcome (Ptr × Store)
unlink root p h = do
  n ← load p h
  if root == p then ok (n.next, h) else do h' ← set_next n.prev n.next h; ok (root, h')

-- The assignments that put it behind the node at `back`.
unfoldable pub relink : Ptr → Ptr → Store → Outcome Store
relink back p h = do
  n ← load p h
  h' ← set_prev n.next n.prev h
  h' ← set_next back p h'
  h' ← set_prev p back h'
  set_next p null h'

-- The second branch of `touch_key`: the node of the key moves to the back.
unfoldable pub move_to_back : Ptr → LruEvictor → Outcome LruEvictor
unfolding unlink relink
move_to_back p s = do
  assert (not (s.back == null))
  assert (not (s.root == null))
  if s.back == p then ok s else do
    (root, h) ← unlink s.root p s.cells
    h' ← relink s.back p h
    ok (record s { cells = h'; root = root; back = p })

unfoldable pub touch_key : Bytes → LruEvictor → Outcome LruEvictor
unfolding append_new move_to_back
touch_key key s = elim (find key s.map) [ none ↦ append_new key s | some p ↦ move_to_back p s ]

-- The key at the front, or "" if there is none.
unfoldable pub evict : LruEvictor → Outcome (Bytes × LruEvictor)
evict s = if s.root == null then ok ([], s) else do
  n ← load s.root s.cells
  h ← if n.next == null then ok s.cells else set_prev n.next null s.cells
  n' ← load s.root h
  ok (
    n'.key,
    record s {
      cells = h;
      root = n'.next;
      back = if s.back == s.root then null else s.back;
      map = erase n'.key s.map;
    },
  )

-- The loop of the destructor.
pub clear_prev : ℕ → Ptr → Store → Outcome Store
clear_prev zero p h = fault Fault.out_of_fuel
clear_prev (suc fuel) p h = do
  n ← load p h
  if n.next == null then ok h else do h' ← set_prev n.next null h; clear_prev fuel n.next h'

-- The destructor: what it leaves of the store before `LL_` and `map_` go.
pub destroy : ℕ → LruEvictor → Outcome Store
unfolding clear_prev
destroy fuel s =
    if s.root == null
    then ok s.cells
    else do assert (not (s.back == null)); clear_prev fuel s.root s.cells
