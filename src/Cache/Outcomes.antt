-- ===== src/Cache/Outcomes.antt =====
-- What a `set` can come to, over all branches, and what a `get` after it returns.
use hw6_csci.Base.{
  ℕ, ◌≤◌, ◌<◌, ◌≡◌, ◌⊎◌, inl, inr, true, ◌&&◌, Option, none, some, List, Bytes, arith, Fault, ok,
  fault, Option-cases, Bool-cases, ltb, length,
}
use hw6_csci.Base.Dict.{contains, find}
use hw6_csci.Evictor.{Evictor}
use hw6_csci.Evictor.Queue.{member}
use hw6_csci.Cache.{Cache, read_value, set, get, admit_by_eviction}
use hw6_csci.Cache.Valid.{IsValid}
use hw6_csci.Cache.Count.{new_total, change, actual_size-ok, u32-new_total}
use hw6_csci.Cache.Admit.{requeued}
use hw6_csci.Cache.Set.{evictions, set_full, set-fits, set-evicts, set-dangling}
use hw6_csci.Cache.Reads.{get_hit}

-- Either a valid state again, or the use of the iterator of an entry that the same call evicted.
abbrev pub SetResult :
    (E : Evictor) → ℕ → Bytes → Option Bytes → ℕ → Cache E.State → List Bytes → Type 0
SetResult E fuel key val size c q =
    ((c' : Cache E.State) × (q' : List Bytes) × (set E fuel key val size c ≡ ok c')
      × IsValid E c' q')
    ⊎ ((set E fuel key val size c ≡ fault Fault.dangling_iterator)
        × (contains key c.vals ≡ true)
        × (member key (evictions key size c q) ≡ true))

module _ (E : Evictor) (fuel : ℕ) (key : Bytes) (val : Option Bytes) (size : ℕ)
    (c : Cache E.State) where
  set_too_big : c.maxmem < size → set E fuel key val size c ≡ ok c
  unfolding set
  set_too_big big = ground arith

  stays_full :
      (v : Bytes) (actual : ℕ)
      → c.evictor ≡ none
      → admit_by_eviction E fuel (contains key c.vals) key v size actual c ≡ ok c
  unfolding admit_by_eviction
  stays_full v actual e = ground arith

  module _ (q : List Bytes) (v : Bytes) (valid : IsValid E c q) (text : read_value val ≡ ok v) where
    -- In a valid state, a `set` of a zero-terminated text with more than `maxmem` bytes, or one
    -- that does not fit beside the others where there is no evictor, changes nothing.
    pub set_dropped :
        (c.maxmem < size) ⊎ ((c.evictor ≡ none) × (c.maxmem < new_total key size c.sizes))
        → set E fuel key val size c ≡ ok c
    set_dropped (inl big) = set_too_big big
    set_dropped (inr (e, over)) = elim (Bool-cases (ltb c.maxmem size)) [
      | inl big ↦ set_too_big (ground arith)
      | inr small ↦
          let fits : size ≤ c.maxmem = ground arith in
          let count = u32-new_total E c q key size valid fits in
          set_full E fuel key val size c (change key size c.sizes) fits
            (actual_size-ok E c q key size valid) text (omega arith)
            (stays_full v (change key size c.sizes) e)
    ]

    over_or_fits : (new_total key size c.sizes ≤ c.maxmem) ⊎ (c.maxmem < new_total key size c.sizes)
    over_or_fits = grind arith

    big_or_small : (size ≤ c.maxmem) ⊎ (c.maxmem < size)
    big_or_small = grind arith

    unchanged : set E fuel key val size c ≡ ok c → SetResult E fuel key val size c q
    unchanged e = inl (c, q, e, valid)

    with_evictor :
        (s : E.State)
        → c.evictor ≡ some s
        → length q < fuel
        → size ≤ c.maxmem
        → c.maxmem < new_total key size c.sizes
        → SetResult E fuel key val size c q
    with_evictor s e enough small over =
        elim (Bool-cases (contains key c.vals && member key (evictions key size c q))) [
          | inl hit ↦
              let stored : contains key c.vals ≡ true = ground arith in
              let gone : member key (evictions key size c q) ≡ true = ground arith in
              inr (
                set-dangling E fuel key val size c q v valid text s e over small enough stored gone,
                stored,
                gone,
              )
          | inr kept ↦
              let (c', rest, run, _, valid', _) =
                set-evicts E fuel key val size c q v valid text s e over small enough kept in
              inl (c', E.requeue key rest, run, valid')
        ]

    -- In a valid state, with a value that is a zero-terminated text and more rounds than the
    -- evictor's queue has keys, `set` either returns a valid state, or it uses the iterator of
    -- an entry that it evicted itself; the second only for a key that is stored and that the
    -- evictions of this call remove.
    pub set-outcome : length q < fuel → SetResult E fuel key val size c q
    set-outcome enough = elim big_or_small [
      | inr big ↦ unchanged (set_dropped (inl big))
      | inl small ↦ elim over_or_fits [
        | inl fits ↦
            let (c', run, valid', _) = set-fits E fuel key val size c q v valid text fits in
            inl (c', requeued E key c.evictor q, run, valid')
        | inr over ↦ elim (Option-cases c.evictor) [
          | inl e ↦ unchanged (set_dropped (inr (e, over)))
          | inr (s, e) ↦ with_evictor s e enough small over
        ]
      ]
    ]

    -- In a valid state, after a `set` of a zero-terminated text that fits, a `get` of the key
    -- returns the size that was set, and the pointer leads to the text that was set.
    pub get-set :
        new_total key size c.sizes ≤ c.maxmem
        → (c' c'' : Cache E.State) × (set E fuel key val size c ≡ ok c')
          × (get E key c' ≡ ok (some size, c''))
          × (c''.get_val ≡ v)
    get-set fits =
        let (c', run, valid', stored) = set-fits E fuel key val size c q v valid text fits in
        let found : find key c'.vals ≡ some v = ground (arith, stored.vals_at key) in
        let (n, c'', run', e, text', _, _, _) =
          get_hit E key c' (requeued E key c.evictor q) valid' v found in
        let same : n ≡ size = ground (arith, stored.sizes_at key) in
        (c', c'', run, rw same at run', text')
