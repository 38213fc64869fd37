-- ===== src/Cache/Reads.antt =====
-- `get`, `del` and `reset`.
use hw6_csci.Base.{
  ℕ, ◌+◌, ◌^◌, ◌<◌, ◌≡◌, refl, ◌∙◌, sym, ap, true, false, Option, none, some, List, Bytes, arith,
  ok, if◌then◌else◌, bytes_eq, ◌≢◌,
}
use hw6_csci.Base.Dict.{find, erase, total, find-erase, Distinct-erase, total-erase}
use hw6_csci.Evictor.{Evictor}
use hw6_csci.Evictor.Queue.{member}
use hw6_csci.Cache.{Cache, size_of, touch, get, del, reset, space_used, make}
use hw6_csci.Cache.Valid.{Queued, IsValid}
use hw6_csci.Cache.Admit.{requeued, requeued-some, touch_lem}

module _ (E : Evictor) (key : Bytes) (c : Cache E.State) where
  get_run :
      (d : Cache E.State) (v : Bytes) (n : ℕ)
      → find key c.vals ≡ some v
      → touch E key c ≡ ok d
      → size_of key d.sizes ≡ ok n
      → get E key c ≡ ok (some n, record d { get_val = v })
  unfolding get
  get_run d v n e run e' = ground arith

  del_run :
      (v : Bytes) (n : ℕ)
      → find key c.vals ≡ some v
      → find key c.sizes ≡ some n
      → c.current_mem ≡ total c.sizes
      → total (erase key c.sizes) + n ≡ total c.sizes
      → c.current_mem < 2 ^ 32
      → del E key c ≡ (
        true,
        record c {
          current_mem = total (erase key c.sizes);
          vals = erase key c.vals;
          sizes = erase key c.sizes;
        },
      )
  unfolding del
  del_run v n e e' counted freed small = ground arith

  -- A miss, of either operation, changes nothing.
  pub get_miss : find key c.vals ≡ none → get E key c ≡ ok (none, c)
  unfolding get
  get_miss e = ground arith

  pub del_miss : find key c.vals ≡ none → del E key c ≡ (false, c)
  unfolding del
  del_miss e = ground arith

module _ (E : Evictor) (key : Bytes) (c : Cache E.State) (q : List Bytes)
    (valid : IsValid E c q) where
  size_found : (v : Bytes) → find key c.vals ≡ some v → (n : ℕ) × (find key c.sizes ≡ some n)
  size_found v e = ground (arith, valid.same_keys key)

  known_touched :
      (ev : Option E.State) (k : Bytes)
      → ev ≢ none
      → member k q ≡ true
      → member k (requeued E key ev q) ≡ true
  known_touched ev k ne i =
      rw (requeued-some E key ev q ne) (ground (arith, E.member-requeue k key q))

  -- In a valid state, `get` of a stored key returns its size, the pointer leads to its value,
  -- both maps are as before, and the state is valid with the key touched.
  pub get_hit :
      (v : Bytes)
      → find key c.vals ≡ some v
      → (n : ℕ) × (c' : Cache E.State) × (get E key c ≡ ok (some n, c'))
        × (find key c.sizes ≡ some n)
        × (c'.get_val ≡ v)
        × (c'.vals ≡ c.vals)
        × (c'.sizes ≡ c.sizes)
        × IsValid E c' (requeued E key c.evictor q)
  unfolding size_of
  get_hit v e =
      let (n, e') = size_found v e in
      let (d, run, t) = touch_lem E key c q valid.queued in
      let e'' : find key d.sizes ≡ some n = ap (find key) t.sizes ∙ e' in
      (
        n,
        record d { get_val = v },
        get_run E key c d v n e run (rw (e'', size_of)),
        e',
        refl,
        t.vals,
        t.sizes,
        record {
          same_keys = λ k. rw (t.vals, t.sizes) (valid.same_keys k);
          distinct = rw t.sizes valid.distinct;
          counted = t.current_mem ∙ valid.counted ∙ ap total (sym t.sizes);
          bounded = omega arith;
          small = omega arith;
          queued = t.queued;
          known = λ k ne i.
              known_touched c.evictor k (t.present ne)
                (valid.known k (t.present ne) (rw t.sizes at i));
        },
      )

  -- In a valid state, `del` of a stored key returns true, frees the size of the key, removes
  -- that key and no other, and leaves a valid state.
  pub del_stored :
      (v : Bytes)
      → find key c.vals ≡ some v
      → (n : ℕ) × (c' : Cache E.State) × (del E key c ≡ (true, c'))
        × (find key c.sizes ≡ some n)
        × (c'.current_mem + n ≡ c.current_mem)
        × ((k : Bytes) → find k c'.vals ≡ (if bytes_eq key k then none else find k c.vals))
        × IsValid E c' q
  del_stored v e =
      let (n, e') = size_found v e in
      let freed = total-erase key n c.sizes valid.distinct e' in
      (
        n,
        record c {
          current_mem = total (erase key c.sizes);
          vals = erase key c.vals;
          sizes = erase key c.sizes;
        },
        del_run E key c v n e e' valid.counted freed (omega arith),
        e',
        omega (arith, valid.counted),
        λ k. find-erase k key c.vals,
        record {
          same_keys = λ k.
              ground (arith, find-erase k key c.vals, find-erase k key c.sizes, valid.same_keys k);
          distinct = Distinct-erase key c.sizes valid.distinct;
          counted = refl;
          bounded = omega arith;
          small = valid.small;
          queued = valid.queued;
          known = λ k ne i. valid.known k ne (ground (arith, find-erase k key c.sizes));
        },
      )

-- After `reset` of a valid state the state is valid with the same queue, no memory is in use,
-- and every `get` is a miss that changes nothing.
pub reset-IsValid :
    (E : Evictor) (c : Cache E.State) (q : List Bytes)
    → IsValid E c q
    → IsValid E (reset E c) q
      × (space_used E (reset E c) ≡ 0)
      × ((k : Bytes) → get E k (reset E c) ≡ ok (none, reset E c))
unfolding reset space_used find total
reset-IsValid E c q valid = (
  record {
    same_keys = λ k. refl;
    distinct = tt;
    counted = refl;
    bounded = omega arith;
    small = valid.small;
    queued = valid.queued;
    known = λ k ne i. cc;
  },
  refl,
  λ k. get_miss E k _ refl,
)

pub make-IsValid :
    (E : Evictor) (maxmem : ℕ) (ev : Option E.State) (q : List Bytes)
    → maxmem < 2 ^ 31
    → Queued E ev q
    → IsValid E (make maxmem ev) q
unfolding find total
make-IsValid E maxmem ev q small queued = record {
  same_keys = λ k. refl;
  distinct = tt;
  counted = refl;
  bounded = omega arith;
  small = small;
  queued = queued;
  known = λ k ne i. cc;
}
