-- ===== src/Cache/History.antt =====
-- Whole runs of a cache with an evictor, from the constructor on.
pub mod Steps
pub mod Sets
pub mod Run
pub mod Fuel
use hw6_csci.Base.{
  ℕ, zero, suc, ◌+◌, ◌^◌, ◌<◌, ◌≤◌, ◌≡◌, ◌≢◌, ◌⊎◌, inl, inr, refl, sym, ap, ◌∙◌, Bool, true, false,
  ◌&&◌, ◌||◌, Option, none, some, List, [], ◌∷◌, ◌++◌, arith, Bytes, Fault, Outcome, ok, fault,
  ◌>>=◌, length, length-append, leb, ltb, if◌then◌else◌, bytes_eq, Option-cases, Bool-cases,
}
use hw6_csci.Base.Dict.{Dict, contains, find, find-erase}
use hw6_csci.Evictor.{Evictor}
use hw6_csci.Evictor.Queue.{member}
use hw6_csci.Cache.{Cache, set, get, del, reset, make, read_value}
use hw6_csci.Cache.Valid.{IsValid}
use hw6_csci.Cache.Count.{new_total}
use hw6_csci.Cache.Evicting.{erase_all, find-erase_all}
use hw6_csci.Cache.Admit.{is_there, Stored, requeued, requeued-some}
use hw6_csci.Cache.Set.{evictions, set-fits, set-evicts, set-dangling}
use hw6_csci.Cache.Outcomes.{set_dropped}
use hw6_csci.Cache.Reads.{get_hit, get_miss, del_stored, del_miss, reset-IsValid, make-IsValid}
use hw6_csci.Cache.Bound.{Kept, set-Kept, get-Kept, del-Kept}

-- A call of the cache; the text of a `set` is what stands before the zero byte.
pub data Call : Type 0 where
  set_call : (key text : Bytes) → ℕ → Call
  get_call del_call : Bytes → Call
  reset_call : Call

-- What the calls, the last one first, have made of a key: the text and the size of the last `set`
-- that the bound admits, unless the key has been deleted since.
unfoldable pub latest : ℕ → Bytes → List Call → Option (Bytes × ℕ)
latest maxmem k [] = none
latest maxmem k (set_call key text n ∷ calls) =
    let before = latest maxmem k calls in
    if bytes_eq key k && leb n maxmem then some (text, n) else before
latest maxmem k (get_call key ∷ calls) = latest maxmem k calls
latest maxmem k (del_call key ∷ calls) =
    let before = latest maxmem k calls in if bytes_eq key k then none else before
latest maxmem k (reset_call ∷ calls) = none

module _ (E : Evictor) (fuel : ℕ) where
  unfoldable pub call : Call → Cache E.State → Outcome (Cache E.State)
  call (set_call key text n) c = set E fuel key (some (text ++ 0 ∷ [])) n c
  call (get_call key) c = do (_, c') ← get E key c; ok c'
  call (del_call key) c = ok (del E key c).1
  call reset_call c = ok (reset E c)

  -- The last call stands first.
  unfoldable pub run_calls : List Call → Cache E.State → Outcome (Cache E.State)
  run_calls [] c = ok c
  run_calls (a ∷ calls) c = do c' ← run_calls calls c; call a c'

-- Every stored text, and its size, is the latest of its key.
pub record Fresh {S : Type 0} (maxmem : ℕ) (calls : List Call) (c : Cache S) : Type 0 where
  pub texts :
      (k v : Bytes)
      → find k c.vals ≡ some v
      → (n : ℕ) × (find k c.sizes ≡ some n) × (latest maxmem k calls ≡ some (v, n))

-- No text of a `set` has a zero byte.
abbrev pub Readable : List Call → Type 0
Readable [] = Unit
Readable (set_call key text n ∷ calls) =
    (read_value (some (text ++ 0 ∷ [])) ≡ ok text) × Readable calls
Readable (get_call key ∷ calls) = Readable calls
Readable (del_call key ∷ calls) = Readable calls
Readable (reset_call ∷ calls) = Readable calls

module _ (E : Evictor) (maxmem : ℕ) where
  -- The state after a number of calls.
  pub record After (calls : List Call) (c : Cache E.State) : Type 0 where
    pub queue : List Bytes
    pub valid : IsValid E c queue
    pub short : length queue ≤ length calls
    pub bound : c.maxmem ≡ maxmem
    pub attached : is_there c.evictor ≡ true
    pub fresh : Fresh maxmem calls c
