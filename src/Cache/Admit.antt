-- ===== src/Cache/Admit.antt =====
-- The end of `set`: the entry is written, and the evictor told.
use hw6_csci.Base.{
  ℕ, ◌+◌, ◌≤◌, ◌≡◌, refl, ◌∙◌, sym, ap, inl, inr, Bool, true, false, Option, none, some, List,
  Bytes, arith, ok, Option-cases, if◌then◌else◌, bytes_eq, ◌≢◌,
}
use hw6_csci.Base.Dict.{
  Dict, Distinct, contains, total, find, emplace, assign, erase_absent, total-erase, find-emplace,
  find-assign, Distinct-emplace, Distinct-assign, total-emplace, total-assign,
}
use hw6_csci.Evictor.{Evictor}
use hw6_csci.Evictor.Queue.{member}
use hw6_csci.Cache.{Cache, u32, put_entry, touch, admit}
use hw6_csci.Cache.Valid.{Queued, IsValid}
use hw6_csci.Cache.Count.{new_total}

-- The maps of `c'` are `vals` and `sizes` with the entry put in.
pub record Stored {S : Type 0} (key v : Bytes) (size : ℕ) (vals : Dict Bytes) (sizes : Dict ℕ)
    (c' : Cache S) : Type 0 where
  pub vals_at : (k : Bytes) → find k c'.vals ≡ (if bytes_eq key k then some v else find k vals)
  pub sizes_at :
      (k : Bytes) → find k c'.sizes ≡ (if bytes_eq key k then some size else find k sizes)

-- The entries themselves, before they are known to be the right ones.
abbrev written : {V : Type 0} → Bool → Bytes → V → Dict V → Dict V
written false = emplace
written true = assign

find-written :
    {V : Type 0} (existing : Bool) (k key : Bytes) (v : V) (m : Dict V)
    → contains key m ≡ existing
    → find k (written existing key v m) ≡ (if bytes_eq key k then some v else find k m)
find-written false k key v m e = find-emplace k key v m (ground arith)
find-written true k key v m e = find-assign k key v m e

Distinct-written :
    {V : Type 0} (existing : Bool) (key : Bytes) (v : V) (m : Dict V)
    → Distinct m
    → Distinct (written existing key v m)
Distinct-written false key v m d = Distinct-emplace key v m d
Distinct-written true key v m d = Distinct-assign key v m d

total-written :
    (existing : Bool) (key : Bytes) (size : ℕ) (m : Dict ℕ)
    → Distinct m
    → contains key m ≡ existing
    → total (written existing key size m) ≡ new_total key size m
total-written false key size m d e =
    total-emplace key size m (ground arith)
    ∙ ap (λ n. total n + size) (sym (erase_absent key m (ground arith)))
total-written true key size m d e = elim (Option-cases (find key m)) [
  | inl h ↦ ground arith
  | inr (old, h) ↦ omega (arith, total-assign key old size m h, total-erase key old m d h)
]

abbrev pub is_there : {V : Type 0} → Option V → Bool
is_there o = elim o [ none ↦ false | some _ ↦ true ]

same-Stored :
    {S : Type 0} (key v : Bytes) (size : ℕ) (vals : Dict Bytes) (sizes : Dict ℕ) (c' : Cache S)
    (k : Bytes)
    → Stored key v size vals sizes c'
    → contains k vals ≡ contains k sizes
    → contains k c'.vals ≡ contains k c'.sizes
same-Stored key v size vals sizes c' k stored same =
    ground (arith, stored.vals_at k, stored.sizes_at k)

put_entry-written :
    {S : Type 0} (existing : Bool) (key v : Bytes) (size actual : ℕ) (c : Cache S)
    → contains key c.vals ≡ existing
    → contains key c.sizes ≡ existing
    → put_entry existing key v size actual c
      ≡ ok (record c {
        vals = written existing key v c.vals;
        sizes = written existing key size c.sizes;
        current_mem = u32 (c.current_mem + actual);
      })
unfolding put_entry
put_entry-written false key v size actual c e e' = refl
put_entry-written true key v size actual c e e' = rw (e, e')

module _ (E : Evictor) where
  pub requeued : Bytes → Option E.State → List Bytes → List Bytes
  requeued key none q = q
  requeued key (some s) q = E.requeue key q

  pub requeued-some :
      (key : Bytes) (ev : Option E.State) (q : List Bytes)
      → ev ≢ none
      → requeued key ev q ≡ E.requeue key q
  unfolding requeued
  requeued-some key none q ne = absurd (ne refl)
  requeued-some key (some s) q ne = refl

  pub record Touched (key : Bytes) (c : Cache E.State) (q : List Bytes) (c' : Cache E.State)
      : Type 0 where
    pub vals : c'.vals ≡ c.vals
    pub sizes : c'.sizes ≡ c.sizes
    pub current_mem : c'.current_mem ≡ c.current_mem
    pub maxmem : c'.maxmem ≡ c.maxmem
    pub present : c'.evictor ≢ none → c.evictor ≢ none
    pub queued : Queued E c'.evictor (requeued key c.evictor q)

  pub touch_lem :
      (key : Bytes) (c : Cache E.State) (q : List Bytes)
      → Queued E c.evictor q
      → (c' : Cache E.State) × (touch E key c ≡ ok c') × Touched key c q c'
  unfolding touch requeued
  touch_lem key c q queued = elim (Option-cases c.evictor) [
    | inl e ↦ (
      c,
      ground arith,
      record {
        vals = refl;
        sizes = refl;
        current_mem = refl;
        maxmem = refl;
        present = λ h. h;
        queued = rw e (rw e at queued);
      },
    )
    | inr (s, e) ↦
        let (t, run, holds) = E.touch_law key s q (rw e at queued) in
        (
          record c { evictor = some t },
          ground (arith, run),
          record {
            vals = refl;
            sizes = refl;
            current_mem = refl;
            maxmem = refl;
            present = λ h. cc;
            queued = rw e holds;
          },
        )
  ]

  known_requeued :
      (key : Bytes) (ev : Option E.State) (q : List Bytes) (k : Bytes) (sizes : Dict ℕ) (size : ℕ)
      → ev ≢ none
      → (contains k sizes ≡ true → member k q ≡ true)
      → is_there (if bytes_eq key k then some size else find k sizes) ≡ true
      → member k (requeued key ev q) ≡ true
  unfolding requeued
  known_requeued key none q k sizes size ne known i = absurd (ne refl)
  known_requeued key (some s) q k sizes size ne known i = ground (arith, E.member-requeue k key q)

  -- Where the count comes out right and within the bound, the entry is written, the evictor
  -- told, and the invariant kept.
  pub admit-IsValid :
      (key v : Bytes) (size actual : ℕ) (c : Cache E.State) (q : List Bytes)
      → IsValid E c q
      → u32 (c.current_mem + actual) ≡ new_total key size c.sizes
      → new_total key size c.sizes ≤ c.maxmem
      → (c' : Cache E.State) × (admit E (contains key c.vals) key v size actual c ≡ ok c')
        × IsValid E c' (requeued key c.evictor q)
        × Stored key v size c.vals c.sizes c'
  unfolding admit
  admit-IsValid key v size actual c q valid count fits =
      let existing = contains key c.vals in
      let same : contains key c.sizes ≡ existing = sym (valid.same_keys key) in
      let d = record c {
        vals = written existing key v c.vals;
        sizes = written existing key size c.sizes;
        current_mem = u32 (c.current_mem + actual);
      } in
      let run : put_entry existing key v size actual c ≡ ok d =
        put_entry-written existing key v size actual c refl same in
      let (c', run', t) = touch_lem key d q valid.queued in
      let stored : Stored key v size c.vals c.sizes c' = record {
        vals_at = λ k. ap (find k) t.vals ∙ find-written existing k key v c.vals refl;
        sizes_at = λ k. ap (find k) t.sizes ∙ find-written existing k key size c.sizes same;
      } in
      (
        c',
        rw run run',
        record {
          same_keys = λ k. same-Stored key v size c.vals c.sizes c' k stored (valid.same_keys k);
          distinct = rw t.sizes (Distinct-written existing key size c.sizes valid.distinct);
          counted =
              t.current_mem
              ∙ count
              ∙ sym (total-written existing key size c.sizes valid.distinct same)
              ∙ ap total (sym t.sizes);
          bounded = omega arith;
          small = omega arith;
          queued = t.queued;
          known = λ k ne i.
              known_requeued key c.evictor q k c.sizes size (t.present ne)
                (λ j. valid.known k (t.present ne) j) (sym (ap is_there (stored.sizes_at k)) ∙ i);
        },
        stored,
      )
