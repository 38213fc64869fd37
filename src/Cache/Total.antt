-- ===== src/Cache/Total.antt =====
-- What a valid cache does not refuse: the operations but `set` return, and the calls keep it valid.
use hw6_csci.Base.{
  ℕ, ◌≡◌, refl, inl, inr, Option, none, some, List, [], ◌∷◌, ◌++◌, ◌==◌, arith, Bytes, ok, length,
  Option-cases, Bool-cases, suc, ◌+◌,
}
use hw6_csci.Base.Dict.{find}
use hw6_csci.Evictor.{Evictor}
use hw6_csci.Cache as CacheOf
use hw6_csci.Cache.{Cache, c_string, read_value}
use hw6_csci.Cache.Valid.{IsValid}
use hw6_csci.Cache.Bound.{set-Kept, get-Kept, del-Kept, reset-Kept}
use hw6_csci.Cache.History.{Call, set_call, get_call, del_call, reset_call, call}
use hw6_csci.Cache.Fuel.{set-more}
use hw6_csci.Cache.Outcomes.{set-outcome}
use hw6_csci.Cache.Reads.{get_hit, get_miss, del_stored, del_miss, reset-IsValid}

c_string-terminated : (s : Bytes) → (v : Bytes) × (c_string (s ++ 0 ∷ []) ≡ ok v)
unfolding c_string
c_string-terminated [] = ([], refl)
c_string-terminated (b ∷ s) =
    let (v, e) = c_string-terminated s in
    elim (Bool-cases (b == 0)) [ inl z ↦ ([], rw z) | inr z ↦ (b ∷ v, rw (z, e)) ]

pub terminated : (s : Bytes) → (v : Bytes) × (read_value (some (s ++ 0 ∷ [])) ≡ ok v)
unfolding read_value
terminated s = c_string-terminated s

module _ (E : Evictor) (c : Cache E.State) (q : List Bytes) (valid : IsValid E c q) where
  pub get_gives :
      (key : Bytes)
      → (result : Option ℕ) × (c' : Cache E.State) × (q' : List Bytes) × (CacheOf.get E key c
          ≡ ok (result, c'))
        × IsValid E c' q'
  get_gives key = elim (Option-cases (find key c.vals)) [
    | inl e ↦ (none, c, q, get_miss E key c e, valid)
    | inr (v, e) ↦
        let (n, c', run, _, _, _, _, valid') = get_hit E key c q valid v e in
        (some n, c', _, run, valid')
  ]

  del-IsValid : (key : Bytes) → (q' : List Bytes) × IsValid E (CacheOf.del E key c).1 q'
  del-IsValid key = elim (Option-cases (find key c.vals)) [
    | inl e ↦ rw (del_miss E key c e) (q, valid)
    | inr (v, e) ↦
        let (n, c', run, _, _, _, valid') = del_stored E key c q valid v e in rw run (q, valid')
  ]

  pub del_gives :
      (key : Bytes)
      → (q' : List Bytes) × IsValid E (CacheOf.del E key c).1 q'
        × ((CacheOf.del E key c).1.maxmem ≡ c.maxmem)
  del_gives key = let (q', valid') = del-IsValid key in (q', valid', (del-Kept E key c).0)

  abbrev Keeps : Cache E.State → Type 0
  Keeps c' = (q' : List Bytes) × IsValid E c' q' × (c'.maxmem ≡ c.maxmem)

  set-Keeps :
      (fuel : ℕ) (key text : Bytes) (n : ℕ) (c' : Cache E.State)
      → CacheOf.set E fuel key (some (text ++ 0 ∷ [])) n c ≡ ok c'
      → Keeps c'
  set-Keeps fuel key text n c' run =
      let (v, readable) = terminated text in
      let more = fuel + suc (length q) in
      let run' = set-more E fuel more key _ n c c' (omega arith) run in
      elim (set-outcome E more key (some (text ++ 0 ∷ [])) n c q v valid readable (omega arith)) [
        | inr (failed, _, _) ↦ absurd (cc (run', failed))
        | inl (d, q', run'', valid') ↦
            let same : d ≡ c' = ground arith in
            (q', rw same at valid', (set-Kept E fuel key _ n c c' run).0)
      ]

  -- Whatever the bound on the rounds of a `set`.
  pub call-IsValid : (fuel : ℕ) (a : Call) (c' : Cache E.State) → call E fuel a c ≡ ok c' → Keeps c'
  unfolding call
  call-IsValid fuel (set_call key text n) c' run = set-Keeps fuel key text n c' run
  call-IsValid fuel (get_call key) c' run =
      let (result, d, q', run', valid') = get_gives key in
      let same : d ≡ c' = ground arith in
      (q', rw same at valid', (get-Kept E key result c c' (rw same at run')).0)
  call-IsValid fuel (del_call key) c' run =
      let same : (CacheOf.del E key c).1 ≡ c' = ground arith in rw same at (del_gives key)
  call-IsValid fuel reset_call c' run =
      let same : CacheOf.reset E c ≡ c' = ground arith in
      let kept : Keeps (CacheOf.reset E c) =
        (q, (reset-IsValid E c q valid).0, (reset-Kept E c).0) in
      rw same at kept
