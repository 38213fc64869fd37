-- ===== src/Cache/History/Sets.antt =====
-- A `set`, after the calls before it.
use hw6_csci.Base.{
  ℕ, ◌+◌, ◌<◌, ◌≤◌, ◌≡◌, ◌⊎◌, inl, inr, refl, ap, ◌∙◌, true, false, ◌&&◌, some, List, [], ◌∷◌, ◌++◌,
  arith, Bytes, Fault, ok, fault, length, length-append, leb, ltb, bytes_eq, Bool-cases,
}
use hw6_csci.Base.Dict.{Dict, contains, find}
use hw6_csci.Evictor.{Evictor}
use hw6_csci.Evictor.Queue.{member}
use hw6_csci.Cache.{Cache, set, read_value}
use hw6_csci.Cache.Count.{new_total}
use hw6_csci.Cache.Evicting.{erase_all, find-erase_all}
use hw6_csci.Cache.Admit.{Stored, requeued-some}
use hw6_csci.Cache.Set.{evictions, set-fits, set-evicts, set-dangling}
use hw6_csci.Cache.Outcomes.{set_dropped}
use hw6_csci.Cache.Bound.{set-Kept}
use hw6_csci.Cache.History.{Call, set_call, latest, Fresh, After}
use hw6_csci.Cache.History.Steps.{After-Kept, has_evictor, not_detached}

module _ (E : Evictor) (maxmem : ℕ) where
  Fresh-Stored :
      (calls : List Call) (key text : Bytes) (n : ℕ) (vals : Dict Bytes) (sizes : Dict ℕ)
      (c' : Cache E.State)
      → n ≤ maxmem
      → Stored key text n vals sizes c'
      → ((k v : Bytes)
          → find k vals ≡ some v
          → (m : ℕ) × (find k sizes ≡ some m) × (latest maxmem k calls ≡ some (v, m)))
      → Fresh maxmem (set_call key text n ∷ calls) c'
  unfolding latest
  Fresh-Stored calls key text n vals sizes c' small stored old = record {
    texts = λ k v e. elim (Bool-cases (bytes_eq key k)) [
      | inl same ↦ (n, ground (arith, stored.sizes_at k), ground (arith, stored.vals_at k))
      | inr other ↦
          let e' : find k vals ≡ some v = ground (arith, stored.vals_at k) in
          let (m, f, g) = old k v e' in (m, ground (arith, stored.sizes_at k), ground arith)
    ];
  }

  -- What is left after evictions is as before.
  Fresh-erase_all :
      (calls : List Call) (ks : List Bytes) (c : Cache E.State)
      → Fresh maxmem calls c
      → (k v : Bytes) → find k (erase_all ks c.vals) ≡ some v
      → (m : ℕ) × (find k (erase_all ks c.sizes) ≡ some m) × (latest maxmem k calls ≡ some (v, m))
  Fresh-erase_all calls ks c fresh k v e =
      let stays : member k ks ≡ false = ground (arith, find-erase_all k ks c.vals) in
      let e' : find k c.vals ≡ some v = ground (arith, find-erase_all k ks c.vals) in
      let (m, f, g) = fresh.texts k v e' in (m, ground (arith, find-erase_all k ks c.sizes), g)

  module _ (calls : List Call) (c : Cache E.State) (after : After E maxmem calls c) where
    abbrev pub SetNext : ℕ → Bytes → Bytes → ℕ → Type 0
    SetNext fuel key text n =
        ((c' : Cache E.State) × (set E fuel key (some (text ++ 0 ∷ [])) n c ≡ ok c')
          × After E maxmem (set_call key text n ∷ calls) c')
        ⊎ (set E fuel key (some (text ++ 0 ∷ [])) n c ≡ fault Fault.dangling_iterator)

    dropped : (key text : Bytes) (n : ℕ) → maxmem < n → Fresh maxmem (set_call key text n ∷ calls) c
    unfolding latest
    dropped key text n big =
        let test : leb n maxmem ≡ false = ground arith in
        record { texts = λ k v e. let (m, f, g) = after.fresh.texts k v e in (m, f, ground arith) }

    set_stored :
        (fuel : ℕ) (key text : Bytes) (n : ℕ)
        → read_value (some (text ++ 0 ∷ [])) ≡ ok text
        → n ≤ maxmem
        → new_total key n c.sizes ≤ c.maxmem
        → SetNext fuel key text n
    set_stored fuel key text n readable small fits =
        let val = some (text ++ 0 ∷ []) in
        let (c', run, valid', stored) =
          set-fits E fuel key val n c after.queue text after.valid readable fits in
        let requeue =
          requeued-some E key c.evictor after.queue (not_detached E maxmem calls c after) in
        inl (
          c',
          run,
          After-Kept E maxmem calls c after (set_call key text n) c' (E.requeue key after.queue)
              (rw requeue at valid') (omega (arith, after.short, E.length-requeue key after.queue))
              (set-Kept E fuel key val n c c' run)
              (Fresh-Stored calls key text n c.vals c.sizes c' small stored after.fresh.texts),
        )

    set_evicting :
        (fuel : ℕ) (key text : Bytes) (n : ℕ)
        → read_value (some (text ++ 0 ∷ [])) ≡ ok text
        → n ≤ maxmem
        → length calls < fuel
        → c.maxmem < new_total key n c.sizes
        → SetNext fuel key text n
    set_evicting fuel key text n readable small enough over =
        let val = some (text ++ 0 ∷ []) in
        let q = after.queue in
        let ks = evictions key n c q in
        let (s, ev) = has_evictor E maxmem calls c after in
        let small' : n ≤ c.maxmem = omega (arith, after.bound) in
        let enough' : length q < fuel = omega (arith, after.short) in
        elim (Bool-cases (contains key c.vals && member key ks)) [
          | inl hit ↦
              let stored : contains key c.vals ≡ true = ground arith in
              let gone : member key ks ≡ true = ground arith in
              inr (
                set-dangling E fuel key val n c q text after.valid readable s ev over small' enough'
                  stored gone)
          | inr kept ↦
              let (c', rest, run, split, valid', stored) =
                set-evicts E fuel key val n c q text after.valid readable s ev over small' enough'
                  kept in
              let sum : length q ≡ length ks + length rest =
                ap length split ∙ length-append ks rest in
              inl (
                c',
                run,
                After-Kept E maxmem calls c after (set_call key text n) c' (E.requeue key rest)
                    valid' (omega (arith, after.short, E.length-requeue key rest))
                    (set-Kept E fuel key val n c c' run)
                    (Fresh-Stored calls key text n (erase_all ks c.vals) (erase_all ks c.sizes) c'
                      small stored (Fresh-erase_all calls ks c after.fresh)),
              )
        ]

    set_too_large :
        (fuel : ℕ) (key text : Bytes) (n : ℕ)
        → read_value (some (text ++ 0 ∷ [])) ≡ ok text
        → maxmem < n
        → SetNext fuel key text n
    set_too_large fuel key text n readable over =
        let over' : c.maxmem < n = omega (arith, after.bound) in
        let val = some (text ++ 0 ∷ []) in
        inl (
          c,
          set_dropped E fuel key val n c after.queue text after.valid readable (inl over'),
          After-Kept E maxmem calls c after (set_call key text n) c after.queue after.valid
              (omega (arith, after.short)) (refl, refl) (dropped key text n over),
        )

    pub After-set :
        (fuel : ℕ) (key text : Bytes) (n : ℕ)
        → read_value (some (text ++ 0 ∷ [])) ≡ ok text
        → length calls < fuel
        → SetNext fuel key text n
    After-set fuel key text n readable enough = elim (Bool-cases (ltb maxmem n)) [
      | inl big ↦ set_too_large fuel key text n readable (ground arith)
      | inr small ↦ elim (Bool-cases (leb (new_total key n c.sizes) c.maxmem)) [
        | inl fits ↦ set_stored fuel key text n readable (ground arith) (ground arith)
        | inr over ↦ set_evicting fuel key text n readable (ground arith) enough (ground arith)
      ]
    ]
