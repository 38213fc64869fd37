-- ===== src/Cache/Evicting.antt =====
-- The loop of `set` that evicts until the new value fits.
use hw6_csci.Base.{
  ℕ, zero, suc, ◌+◌, ◌^◌, ◌≤◌, ◌<◌, ◌≡◌, ◌≢◌, refl, sym, ◌∙◌, ap, true, false, none, some,
  Option-cases, List, [], ◌∷◌, ◌++◌, Bytes, arith, ok, length, leb, ltb, if◌then◌else◌, bytes_eq,
  bytes_eq_refl, Bool-cases, inl, inr,
}
use hw6_csci.Base.Dict.{
  Dict, contains, total, find, erase, find-erase, total-erase, Distinct-erase, erase_absent,
}
use hw6_csci.Evictor.{Evictor}
use hw6_csci.Evictor.Queue.{member}
use hw6_csci.Cache.{Cache, u32, sub32, evict_one, evict_until}
use hw6_csci.Cache.Valid.{IsValid}

unfoldable pub erase_all : {V : Type 0} → List Bytes → Dict V → Dict V
erase_all [] m = m
erase_all (k ∷ ks) m = erase_all ks (erase k m)

pub find-erase_all :
    {V : Type 0} (k : Bytes) (ks : List Bytes) (m : Dict V)
    → find k (erase_all ks m) ≡ (if member k ks then none else find k m)
unfolding erase_all member
find-erase_all k [] m = refl
find-erase_all k (j ∷ ks) m = ground (arith, find-erase_all k ks (erase j m), find-erase k j m)

-- The shortest start of the queue that makes room when it is evicted.
unfoldable pub victims : ℕ → ℕ → List Bytes → Dict ℕ → List Bytes
victims maxmem actual [] sizes = []
victims maxmem actual (k ∷ q) sizes =
    let rest = victims maxmem actual q (erase k sizes) in
    if leb (total sizes + actual) maxmem then [] else k ∷ rest

total_of_no_keys : (m : Dict ℕ) → ((k : Bytes) → contains k m ≡ false) → total m ≡ 0
unfolding find total
total_of_no_keys [] h = refl
total_of_no_keys ((k, n) ∷ m) h = absurd (ground (arith, h k, bytes_eq_refl k))

total-erase-le : (k : Bytes) (m : Dict ℕ) → total (erase k m) ≤ total m
unfolding erase total
total-erase-le k [] = omega arith
total-erase-le k ((j, n) ∷ m) = ground (arith, total-erase-le k m)

contains-erase :
    {V : Type 0} (j k : Bytes) (m : Dict V)
    → contains j (erase k m) ≡ (if bytes_eq k j then false else contains j m)
contains-erase j k m = ground (arith, find-erase j k m)

module _ (E : Evictor) where
  -- The state after `key` is evicted.
  abbrev pub after_evict : Bytes → E.State → Cache E.State → Cache E.State
  after_evict key s c = record c {
    vals = erase key c.vals;
    sizes = erase key c.sizes;
    current_mem = total (erase key c.sizes);
    evictor = some s;
  }

  total-le_small : (c : Cache E.State) (q : List Bytes) → IsValid E c q → total c.sizes < 2 ^ 31
  total-le_small c q v = omega arith

  known_rest :
      (c : Cache E.State) (s : E.State) (k : Bytes) (q : List Bytes)
      → IsValid E c (k ∷ q)
      → c.evictor ≡ some s
      → (j : Bytes) → contains j (erase k c.sizes) ≡ true
      → member j q ≡ true
  unfolding member
  known_rest c s k q v e j i =
      let ne : c.evictor ≢ none = cc in ground (arith, find-erase j k c.sizes, v.known j ne)

  freed_lem :
      (c : Cache E.State) (q : List Bytes) (k : Bytes)
      → IsValid E c q
      → elim (find k c.sizes) [ none ↦ c.current_mem | some n ↦ sub32 c.current_mem n ]
        ≡ total (erase k c.sizes)
  freed_lem c q k v = elim (Option-cases (find k c.sizes)) [
    | inl e ↦ rw e (v.counted ∙ ap total (sym (erase_absent k c.sizes e)))
    | inr (n, e) ↦ rw e (omega (arith, total-erase k n c.sizes v.distinct e, total-le_small c q v))
  ]

  evict_one-IsValid :
      (c : Cache E.State) (s : E.State) (k : Bytes) (q : List Bytes)
      → IsValid E c (k ∷ q)
      → c.evictor ≡ some s
      → (t : E.State) × (evict_one E s c ≡ ok (after_evict k t c)) × IsValid E (after_evict k t c) q
  unfolding evict_one member
  evict_one-IsValid c s k q v e =
      let (t, run, holds) = E.evict_law k s q (rw e at v.queued) in
      (
        t,
        rw (run, freed_lem c (k ∷ q) k v),
        record {
          same_keys =
              λ j. ground (arith, find-erase j k c.vals, find-erase j k c.sizes, v.same_keys j);
          distinct = Distinct-erase k c.sizes v.distinct;
          counted = refl;
          bounded = omega (arith, total-erase-le k c.sizes);
          small = v.small;
          queued = holds;
          known = λ j n i. known_rest c s k q v e j i;
        },
      )

  -- What the loop leaves when it ends: the victims are gone, and the new value fits.
  pub record Room (c : Cache E.State) (actual : ℕ) (q : List Bytes) (c' : Cache E.State)
      (q' : List Bytes) : Type 0 where
    pub valid : IsValid E c' q'
    pub vals : c'.vals ≡ erase_all (victims c.maxmem actual q c.sizes) c.vals
    pub sizes : c'.sizes ≡ erase_all (victims c.maxmem actual q c.sizes) c.sizes
    pub queue : q ≡ victims c.maxmem actual q c.sizes ++ q'
    pub fits : c'.current_mem + actual ≤ c'.maxmem
    pub maxmem : c'.maxmem ≡ c.maxmem
    pub evictor : c'.evictor ≢ none

  empty_queue :
      (c : Cache E.State) (s : E.State) → IsValid E c [] → c.evictor ≡ some s → c.current_mem ≡ 0
  unfolding member
  empty_queue c s v e =
      let ne : c.evictor ≢ none = cc in
      v.counted ∙ total_of_no_keys c.sizes (λ k. ground (arith, v.known k ne))

  loop_ends :
      (fuel actual : ℕ) (c : Cache E.State)
      → c.maxmem < 2 ^ 31
      → c.current_mem + actual ≤ c.maxmem
      → evict_until E (suc fuel) actual c ≡ ok c
  unfolding evict_until
  loop_ends fuel actual c small fits = ground arith

  loop_goes :
      (fuel actual : ℕ) (c d c' : Cache E.State) (s : E.State)
      → c.current_mem + actual < 2 ^ 32
      → c.maxmem < c.current_mem + actual
      → c.evictor ≡ some s
      → evict_one E s c ≡ ok d
      → evict_until E fuel actual d ≡ ok c'
      → evict_until E (suc fuel) actual c ≡ ok c'
  unfolding evict_until
  loop_goes fuel actual c d c' s small over e run run' =
      let test : ltb c.maxmem (u32 (c.current_mem + actual)) ≡ true = ground arith in
      rw (test, e, run) run'

  -- In a valid state with an evictor, for at most `maxmem` bytes and with more rounds than the
  -- queue has keys, the loop of `set` ends without a fault; the keys it evicts are the shortest
  -- front part of the queue that makes room, both maps lose exactly these, the state is valid,
  -- and the bytes fit.
  pub evict_until-Room :
      (fuel actual : ℕ) (c : Cache E.State) (s : E.State) (q : List Bytes)
      → IsValid E c q
      → c.evictor ≡ some s
      → actual ≤ c.maxmem
      → length q < fuel
      → (c' : Cache E.State) × (q' : List Bytes) × (evict_until E fuel actual c ≡ ok c')
        × Room c actual q c' q'
  unfolding evict_until victims erase_all
  evict_until-Room zero actual c s q v e small enough = absurd (omega arith)
  evict_until-Room (suc fuel) actual c s [] v e small enough =
      let none_left : c.current_mem ≡ 0 = empty_queue c s v e in
      (
        c,
        [],
        loop_ends fuel actual c v.small (omega arith),
        record {
          valid = v;
          vals = refl;
          sizes = refl;
          queue = refl;
          fits = omega arith;
          maxmem = refl;
          evictor = cc;
        },
      )
  evict_until-Room (suc fuel) actual c s (k ∷ q) v e small enough =
      elim (Bool-cases (leb (total c.sizes + actual) c.maxmem)) [
        | inl fits ↦ (
          c,
          k ∷ q,
          loop_ends fuel actual c v.small (ground arith),
          record {
            valid = v;
            vals = rw fits;
            sizes = rw fits;
            queue = rw fits;
            fits = ground arith;
            maxmem = refl;
            evictor = cc;
          },
        )
        | inr over ↦
            let (t, run, v') = evict_one-IsValid c s k q v e in
            let (c', q', run', room) =
              evict_until-Room fuel actual (after_evict k t c) t q v' refl small (omega arith) in
            (
              c',
              q',
              loop_goes fuel actual c (after_evict k t c) c' s (omega arith) (ground arith) e run
                  run',
              record {
                valid = room.valid;
                vals = rw over room.vals;
                sizes = rw over room.sizes;
                queue = rw over (ap (◌∷◌ k) room.queue);
                fits = room.fits;
                maxmem = room.maxmem;
                evictor = room.evictor;
              },
            )
      ]
