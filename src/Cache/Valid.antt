-- ===== src/Cache/Valid.antt =====
-- The invariant of the cache.
use hw6_csci.Base.{◌≡◌, ◌≢◌, ◌^◌, ◌≤◌, ◌<◌, true, Option, none, some, List, [], Bytes}
use hw6_csci.Base.Dict.{Distinct, contains, total}
use hw6_csci.Evictor.{Evictor}
use hw6_csci.Evictor.Queue.{member}
use hw6_csci.Cache.{Cache}

-- The evictor stands for the queue `q`.
abbrev pub Queued : (E : Evictor) → Option E.State → List Bytes → Type 0
Queued E none q = q ≡ []
Queued E (some s) q = E.Holds s q

-- The two maps have the same keys, the memory in use is the sum of the sizes, it is within the
-- bound, and the evictor knows every key that is stored. The bound leaves room to add a size.
pub record IsValid (E : Evictor) (c : Cache E.State) (q : List Bytes) : Type 0 where
  pub same_keys : (k : Bytes) → contains k c.vals ≡ contains k c.sizes
  pub distinct : Distinct c.sizes
  pub counted : c.current_mem ≡ total c.sizes
  pub bounded : c.current_mem ≤ c.maxmem
  pub small : c.maxmem < 2 ^ 31
  pub queued : Queued E c.evictor q
  pub known : (k : Bytes) → c.evictor ≢ none → contains k c.sizes ≡ true → member k q ≡ true
