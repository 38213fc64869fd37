-- ===== src/Cache/History/Steps.antt =====
-- Every call but `set`, after the calls before it.
use hw6_csci.Base.{
  ℕ, ◌+◌, ◌≤◌, ◌≡◌, ◌≢◌, inl, inr, refl, sym, ap, ◌∙◌, Bool, false, none, some, List, ◌∷◌, arith,
  Bytes, ok, length, if◌then◌else◌, bytes_eq, bytes_eq_iff, Option-cases,
}
use hw6_csci.Base.Dict.{find, find-erase, erase}
use hw6_csci.Evictor.{Evictor}
use hw6_csci.Cache.{Cache, del, reset}
use hw6_csci.Cache.Valid.{IsValid}
use hw6_csci.Cache.Admit.{requeued-some}
use hw6_csci.Cache.Reads.{get_hit, get_miss, del_stored, del_miss, reset-IsValid}
use hw6_csci.Cache.Bound.{Kept, get-Kept, del-Kept}
use hw6_csci.Cache.History.{Call, get_call, del_call, reset_call, latest, call, Fresh, After}

module _ (E : Evictor) (maxmem : ℕ) where
  module _ (calls : List Call) (c : Cache E.State) (after : After E maxmem calls c) where
    -- A call that changes neither map, and at most touches a key.
    pub After-Kept :
        (a : Call) (c' : Cache E.State) (q' : List Bytes)
        → IsValid E c' q'
        → length q' ≤ length calls + 1
        → Kept c c'
        → Fresh maxmem (a ∷ calls) c'
        → After E maxmem (a ∷ calls) c'
    After-Kept a c' q' valid' short kept fresh = record {
      queue = q';
      valid = valid';
      short = omega arith;
      bound = kept.0 ∙ after.bound;
      attached = kept.1 ∙ after.attached;
      fresh = fresh;
    }

    pub has_evictor : (s : E.State) × (c.evictor ≡ some s)
    has_evictor = elim (Option-cases c.evictor) [
      | inr h ↦ h
      | inl e ↦ absurd (ground (arith, after.attached))
    ]

    pub not_detached : c.evictor ≢ none
    not_detached e = ground (arith, after.attached)

    Fresh-get :
        (key : Bytes) (c' : Cache E.State)
        → c'.vals ≡ c.vals
        → c'.sizes ≡ c.sizes
        → Fresh maxmem (get_call key ∷ calls) c'
    unfolding latest
    Fresh-get key c' ev es = record {
      texts = λ k v e.
          let (m, f, g) = after.fresh.texts k v (sym (ap (find k) ev) ∙ e) in
          (m, ap (find k) es ∙ f, g);
    }

    pub After-get :
        (fuel : ℕ) (key : Bytes)
        → (c' : Cache E.State) × (call E fuel (get_call key) c ≡ ok c')
          × After E maxmem (get_call key ∷ calls) c'
    unfolding call
    After-get fuel key = elim (Option-cases (find key c.vals)) [
      | inl e ↦ (
        c,
        rw (get_miss E key c e),
        After-Kept (get_call key) c after.queue after.valid (omega (arith, after.short))
            (refl, refl) (Fresh-get key c refl refl),
      )
      | inr (v, e) ↦
          let (n, c', run, _, _, ev, es, valid') = get_hit E key c after.queue after.valid v e in
          let requeue = requeued-some E key c.evictor after.queue not_detached in
          (
            c',
            rw run,
            After-Kept (get_call key) c' (E.requeue key after.queue) (rw requeue at valid')
                (omega (arith, after.short, E.length-requeue key after.queue))
                (get-Kept E key (some n) c c' run) (Fresh-get key c' ev es),
          )
    ]

    del_maps :
        (key v : Bytes)
        → find key c.vals ≡ some v
        → ((del E key c).1.vals ≡ erase key c.vals) × ((del E key c).1.sizes ≡ erase key c.sizes)
    unfolding del
    del_maps key v e = ground arith

    Fresh-del :
        (key : Bytes) (c' : Cache E.State)
        → ((k : Bytes) → find k c'.vals ≡ (if bytes_eq key k then none else find k c.vals))
        → ((k : Bytes) → find k c'.sizes ≡ (if bytes_eq key k then none else find k c.sizes))
        → Fresh maxmem (del_call key ∷ calls) c'
    unfolding latest
    Fresh-del key c' ev es = record {
      texts = λ k v e.
          let e' : find k c.vals ≡ some v = ground (arith, ev k) in
          let other : bytes_eq key k ≡ false = ground (arith, ev k) in
          let (m, f, g) = after.fresh.texts k v e' in (m, rw (es k, other) f, rw other g);
    }

    not_there :
        (key k : Bytes)
        → find key c.vals ≡ none
        → find k c.vals ≡ (if bytes_eq key k then none else find k c.vals)
    not_there key k e = ground (arith, bytes_eq_iff key k)

    no_size :
        (key k : Bytes)
        → find key c.vals ≡ none
        → find k c.sizes ≡ (if bytes_eq key k then none else find k c.sizes)
    no_size key k e = ground (arith, bytes_eq_iff key k, after.valid.same_keys key)

    pub After-del : (key : Bytes) → After E maxmem (del_call key ∷ calls) (del E key c).1
    After-del key = elim (Option-cases (find key c.vals)) [
      | inl e ↦ rw (del_miss E key c e) (
          After-Kept (del_call key) c after.queue after.valid (omega (arith, after.short))
            (refl, refl) (Fresh-del key c (λ k. not_there key k e) (λ k. no_size key k e)))
      | inr (v, e) ↦
          let (n, c', run, _, _, _, valid') = del_stored E key c after.queue after.valid v e in
          let (vals, sizes) = del_maps key v e in
          let same : (del E key c).1 ≡ c' = ap (λ (r : Bool × Cache E.State). r.1) run in
          After-Kept (del_call key) (del E key c).1 after.queue (rw same valid')
            (omega (arith, after.short)) (del-Kept E key c)
            (Fresh-del key (del E key c).1 (λ k. ap (find k) vals ∙ find-erase k key c.vals)
              (λ k. ap (find k) sizes ∙ find-erase k key c.sizes))
    ]

    pub After-reset : After E maxmem (reset_call ∷ calls) (reset E c)
    unfolding reset find
    After-reset =
        After-Kept reset_call (reset E c) after.queue (reset-IsValid E c after.queue after.valid).0
          (omega (arith, after.short)) (refl, refl) (record { texts = λ k v e. cc })
