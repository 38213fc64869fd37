-- ===== src/Cache/History/Run.antt =====
-- Any number of calls, and what a `get` after them returns.
use hw6_csci.Base.{
  ℕ, ◌^◌, ◌<◌, ◌≤◌, ◌≡◌, ◌⊎◌, inl, inr, refl, Option, none, some, List, [], ◌∷◌, ◌++◌, arith, Bytes,
  Fault, ok, fault, length, Option-cases,
}
use hw6_csci.Base.Dict.{find}
use hw6_csci.Evictor.{Evictor}
use hw6_csci.Cache.{Cache, get, del, reset, make, read_value}
use hw6_csci.Cache.Reads.{get_hit, get_miss, make-IsValid}
use hw6_csci.Cache.History.{
  Call, set_call, get_call, del_call, reset_call, latest, call, run_calls, Readable, After,
}
use hw6_csci.Cache.{space_used}
use hw6_csci.Cache.History.Sets.{After-set}
use hw6_csci.Cache.History.Steps.{After-get, After-del, After-reset}

-- What a `get` may return: nothing, as the key may be evicted, or the latest text and size.
abbrev pub Current : ℕ → Bytes → List Call → Option ℕ → Bytes → Type 0
Current maxmem key calls none text = Unit
Current maxmem key calls (some n) text = latest maxmem key calls ≡ some (text, n)

module _ (E : Evictor) (maxmem : ℕ) where
  -- What the calls come to: a state as after them, or the use of a dangling iterator.
  abbrev pub Runs : ℕ → List Call → E.State → Type 0
  Runs fuel calls s =
      ((c : Cache E.State) × (run_calls E fuel calls (make maxmem (some s)) ≡ ok c)
        × After E maxmem calls c)
      ⊎ (run_calls E fuel calls (make maxmem (some s)) ≡ fault Fault.dangling_iterator)

  module _ (fuel : ℕ) (s : E.State) (small : maxmem < 2 ^ 31) (holds : E.Holds s []) where
    pub start : After E maxmem [] (make maxmem (some s))
    unfolding find
    start = record {
      queue = [];
      valid = make-IsValid E maxmem (some s) [] small holds;
      short = omega arith;
      bound = refl;
      attached = refl;
      fresh = record { texts = λ k v e. cc };
    }

    Runs-set :
        (key text : Bytes) (n : ℕ) (calls : List Call)
        → read_value (some (text ++ 0 ∷ [])) ≡ ok text
        → length calls < fuel
        → Runs fuel calls s
        → Runs fuel (set_call key text n ∷ calls) s
    unfolding run_calls call
    Runs-set key text n calls readable enough (inr e) = inr (rw e)
    Runs-set key text n calls readable enough (inl (c, run, after)) =
        elim (After-set E maxmem calls c after fuel key text n readable enough) [
          | inl (c', run', after') ↦ inl (c', rw (run, run'), after')
          | inr e ↦ inr (rw (run, e))
        ]

    pub runs : (calls : List Call) → Readable calls → length calls ≤ fuel → Runs fuel calls s
    unfolding run_calls call
    runs [] readable enough = inl (make maxmem (some s), refl, start)
    runs (set_call key text n ∷ calls) readable enough =
        Runs-set key text n calls readable.0 (omega arith) (runs calls readable.1 (omega arith))
    runs (get_call key ∷ calls) readable enough = elim (runs calls readable (omega arith)) [
      | inr e ↦ inr (rw e)
      | inl (c, run, after) ↦
          let (c', run', after') = After-get E maxmem calls c after fuel key in
          inl (c', rw run run', after')
    ]
    runs (del_call key ∷ calls) readable enough = elim (runs calls readable (omega arith)) [
      | inr e ↦ inr (rw e)
      | inl (c, run, after) ↦ inl ((del E key c).1, rw run, After-del E maxmem calls c after key)
    ]
    runs (reset_call ∷ calls) readable enough = elim (runs calls readable (omega arith)) [
      | inr e ↦ inr (rw e)
      | inl (c, run, after) ↦ inl (reset E c, rw run, After-reset E maxmem calls c after)
    ]

    get-Current :
        (calls : List Call) (key : Bytes) (c : Cache E.State)
        → After E maxmem calls c
        → (r : Option ℕ) × (c' : Cache E.State) × (get E key c ≡ ok (r, c'))
          × Current maxmem key calls r c'.get_val
    get-Current calls key c after = elim (Option-cases (find key c.vals)) [
      | inl e ↦ (none, c, get_miss E key c e, tt)
      | inr (v, e) ↦
          let (n, c', run, size, text, _, _, _) = get_hit E key c after.queue after.valid v e in
          let (m, size', newest) = after.fresh.texts key v e in
          let same : m ≡ n = ground arith in (some n, c', run, ground arith)
    ]

    -- With `maxmem` below 2^31, an evictor that holds no key, texts without a zero byte and at
    -- least as many rounds as calls, any sequence of `set`, `get`, `del` and `reset` on a new
    -- cache either runs through or uses a dangling iterator. Where it runs through, at most
    -- `maxmem` bytes are in use, and a `get` of any key then returns a null pointer, or the text
    -- and size of the last `set` of the key that was not over `maxmem`, with no `del` of the key
    -- and no `reset` since.
    pub get-latest :
        (calls : List Call) (key : Bytes)
        → Readable calls
        → length calls ≤ fuel
        → ((c c' : Cache E.State) × (r : Option ℕ) × (run_calls E fuel calls (make maxmem (some s))
              ≡ ok c)
            × (space_used E c ≤ maxmem)
            × (get E key c ≡ ok (r, c'))
            × Current maxmem key calls r c'.get_val)
          ⊎ (run_calls E fuel calls (make maxmem (some s)) ≡ fault Fault.dangling_iterator)
    unfolding space_used
    get-latest calls key readable enough = elim (runs calls readable enough) [
      | inr e ↦ inr e
      | inl (c, run, after) ↦
          let (r, c', run', current) = get-Current calls key c after in
          inl (c, c', r, run, omega (arith, after.valid.bounded, after.bound), run', current)
    ]
