-- ===== src/Cache/Set.antt =====
-- `set`, on every branch.
use hw6_csci.Base.{
  ℕ, ◌+◌, ◌≤◌, ◌<◌, ◌≡◌, refl, ◌∙◌, sym, ap, true, false, ◌&&◌, Option, none, some, List, ◌++◌,
  Bytes, arith, Fault, Outcome, ok, fault, if◌then◌else◌, ltb, leb, length,
}
use mathlib.Core.Path.{subst₂}
use hw6_csci.Base.Dict.{Dict, contains, find}
use hw6_csci.Evictor.{Evictor}
use hw6_csci.Evictor.Queue.{member}
use hw6_csci.Cache.{
  Cache, u32, actual_size, read_value, put_entry, evict_until, admit, admit_by_eviction, set,
}
use hw6_csci.Cache.Valid.{IsValid}
use hw6_csci.Cache.Count.{
  change, growth, new_total, actual_size-ok, u32-new_total, change-growth, growth-le, change-same,
}
use hw6_csci.Cache.Evicting.{erase_all, victims, Room, evict_until-Room, find-erase_all}
use hw6_csci.Cache.Admit.{is_there, Stored, requeued, requeued-some, admit-IsValid}

-- The keys that a `set` evicts where the value does not fit as things are.
abbrev pub evictions : {S : Type 0} → Bytes → ℕ → Cache S → List Bytes → List Bytes
evictions key size c q = victims c.maxmem (growth key size c.sizes) q c.sizes

Stored-along :
    {S : Type 0} (key v : Bytes) (size : ℕ) {vals vals' : Dict Bytes} {sizes sizes' : Dict ℕ}
    (c' : Cache S)
    → vals ≡ vals'
    → sizes ≡ sizes'
    → Stored key v size vals sizes c'
    → Stored key v size vals' sizes' c'
Stored-along key v size c' e e' stored = subst₂ (λ x y. Stored key v size x y c') e e' stored

find_kept :
    {V : Type 0} (key : Bytes) (ks : List Bytes) (vals : Dict Bytes) (m : Dict V)
    → contains key vals ≡ contains key m
    → (contains key vals && member key ks) ≡ false
    → (if member key ks then none else find key m) ≡ find key m
find_kept key ks vals m same kept = ground arith

module _ (E : Evictor) (fuel : ℕ) (key : Bytes) (val : Option Bytes) (size : ℕ)
    (c : Cache E.State) where
  pub set_fits :
      {v : Bytes} (actual : ℕ) {r : Outcome (Cache E.State)}
      → size ≤ c.maxmem
      → actual_size c key size ≡ ok actual
      → read_value val ≡ ok v
      → u32 (c.current_mem + actual) ≤ c.maxmem
      → admit E (contains key c.vals) key v size actual c ≡ r
      → set E fuel key val size c ≡ r
  unfolding set
  set_fits actual small e e' fits run =
      let test : ltb c.maxmem size ≡ false = ground arith in
      let test' : leb (u32 (c.current_mem + actual)) c.maxmem ≡ true = ground arith in
      rw (test, e, e', test') run

  pub set_full :
      {v : Bytes} (actual : ℕ) {r : Outcome (Cache E.State)}
      → size ≤ c.maxmem
      → actual_size c key size ≡ ok actual
      → read_value val ≡ ok v
      → c.maxmem < u32 (c.current_mem + actual)
      → admit_by_eviction E fuel (contains key c.vals) key v size actual c ≡ r
      → set E fuel key val size c ≡ r
  unfolding set
  set_full actual small e e' over run =
      let test : ltb c.maxmem size ≡ false = ground arith in
      let test' : leb (u32 (c.current_mem + actual)) c.maxmem ≡ false = ground arith in
      rw (test, e, e', test') run

  by_eviction :
      (actual : ℕ) (c' : Cache E.State) (s : E.State) (v : Bytes) (r : Outcome (Cache E.State))
      → c.evictor ≡ some s
      → evict_until E fuel actual c ≡ ok c'
      → admit E (contains key c.vals) key v size actual c' ≡ r
      → admit_by_eviction E fuel (contains key c.vals) key v size actual c ≡ r
  unfolding admit_by_eviction
  by_eviction actual c' s v r e run run' = ground arith

  admit_dangling :
      (d : Cache E.State) (v : Bytes)
      → find key d.vals ≡ none
      → admit E true key v size (change key size c.sizes) d ≡ fault Fault.dangling_iterator
  unfolding admit put_entry
  admit_dangling d v gone = ground arith

  module _ (q : List Bytes) (v : Bytes) (valid : IsValid E c q) (text : read_value val ≡ ok v) where
    -- In a valid state, a `set` of a zero-terminated text that fits beside the other entries
    -- returns a valid state in which both maps have the new entry and all other entries as
    -- before, and the key is touched.
    pub set-fits :
        new_total key size c.sizes ≤ c.maxmem
        → (c' : Cache E.State) × (set E fuel key val size c ≡ ok c')
          × IsValid E c' (requeued E key c.evictor q)
          × Stored key v size c.vals c.sizes c'
    set-fits fits =
        let small : size ≤ c.maxmem = omega arith in
        let actual = change key size c.sizes in
        let count = u32-new_total E c q key size valid small in
        let (c', run, valid', stored) = admit-IsValid E key v size actual c q valid count fits in
        (
          c',
          set_fits actual small (actual_size-ok E c q key size valid) text (omega arith) run,
          valid',
          stored,
        )

    module _ (s : E.State) (e : c.evictor ≡ some s) (over : c.maxmem < new_total key size c.sizes)
        (small : size ≤ c.maxmem) (enough : length q < fuel) where
      -- What the loop leaves.
      room :
          (c' : Cache E.State) × (q' : List Bytes) × (evict_until E fuel (change key size c.sizes) c
            ≡ ok c')
          × Room E c (growth key size c.sizes) q c' q'
      room = rw (change-growth E c q key size valid small over) (
          evict_until-Room E fuel (growth key size c.sizes) c s q valid e
            (omega (arith, growth-le key size c.sizes)) enough)

      -- The value does not fit, and the loop runs first.
      set_runs :
          (c' : Cache E.State) (r : Outcome (Cache E.State))
          → evict_until E fuel (change key size c.sizes) c ≡ ok c'
          → admit E (contains key c.vals) key v size (change key size c.sizes) c' ≡ r
          → set E fuel key val size c ≡ r
      unfolding admit_by_eviction
      set_runs c' r run run' =
          let actual = change key size c.sizes in
          let count = u32-new_total E c q key size valid small in
          set_full actual small (actual_size-ok E c q key size valid) text (omega arith)
            (by_eviction (change key size c.sizes) c' s v r e run run')

      -- In a valid state with an evictor and more rounds than its queue has keys, a `set` of a
      -- zero-terminated text with at most `maxmem` bytes that does not fit evicts the shortest
      -- front part of the queue that makes room, where that does not remove the stored key
      -- itself: it returns a valid state with the entry put into the rest of both maps, and the
      -- queue is the rest with the key touched.
      pub set-evicts :
          (contains key c.vals && member key (evictions key size c q)) ≡ false
          → (c' : Cache E.State) × (rest : List Bytes) × (set E fuel key val size c ≡ ok c')
            × (q ≡ evictions key size c q ++ rest)
            × IsValid E c' (E.requeue key rest)
            × Stored key v size
                (erase_all (evictions key size c q) c.vals)
                (erase_all (evictions key size c q) c.sizes)
                c'
      set-evicts kept =
          let (d, rest, run, r) = room in
          let ks = evictions key size c q in
          let vals_same : find key d.vals ≡ find key c.vals =
            ap (find key) r.vals
            ∙ find-erase_all key ks c.vals
            ∙ find_kept key ks c.vals c.vals refl kept in
          let sizes_same : find key d.sizes ≡ find key c.sizes =
            ap (find key) r.sizes
            ∙ find-erase_all key ks c.sizes
            ∙ find_kept key ks c.vals c.sizes (valid.same_keys key) kept in
          let count : u32 (d.current_mem + change key size c.sizes) ≡ new_total key size d.sizes =
            ap (λ n. u32 (d.current_mem + n))
              (sym (change-same key size d.sizes c.sizes sizes_same))
            ∙ u32-new_total E d rest key size r.valid (omega arith) in
          let fits : new_total key size d.sizes ≤ d.maxmem =
            omega (arith, change-growth E c q key size valid small over) in
          let (c', run', valid', stored) =
            admit-IsValid E key v size (change key size c.sizes) d rest r.valid count fits in
          (
            c',
            rest,
            set_runs d (ok c') run (rw (ap is_there vals_same) at run'),
            r.queue,
            rw (requeued-some E key d.evictor rest r.evictor) at valid',
            Stored-along key v size c' r.vals r.sizes stored,
          )

      -- In a valid state with an evictor and more rounds than its queue has keys, a `set` of a
      -- zero-terminated text with at most `maxmem` bytes that does not fit, for a stored key
      -- that its own evictions remove, uses the iterator of the erased entry.
      pub set-dangling :
          contains key c.vals ≡ true
          → member key (evictions key size c q) ≡ true
          → set E fuel key val size c ≡ fault Fault.dangling_iterator
      set-dangling stored hit =
          let (d, rest, run, r) = room in
          let gone : find key d.vals ≡ none =
            ap (find key) r.vals
            ∙ find-erase_all key (evictions key size c q) c.vals
            ∙ ap (λ b. if b then none else find key c.vals) hit in
          set_runs d (fault Fault.dangling_iterator) run (rw stored (admit_dangling d v gone))
