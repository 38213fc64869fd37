-- ===== src/Cache/Fuel.antt =====
-- `set` with different bounds on its rounds.
use hw6_csci.Base.{
  ℕ, zero, suc, ◌≤◌, ◌≡◌, Bool, Option, Bytes, arith, ok, Option-cases, Outcome-cases, inl, inr,
}
use hw6_csci.Base.Dict.{contains}
use hw6_csci.Evictor.{Evictor}
use hw6_csci.Cache.{Cache, evict_one, evict_until, admit_by_eviction, set, actual_size, read_value}

round :
    (E : Evictor) (fuel more actual : ℕ) (c c' : Cache E.State)
    → ((d : Cache E.State)
        → evict_until E fuel actual d ≡ ok c'
        → evict_until E more actual d ≡ ok c')
    → evict_until E (suc fuel) actual c ≡ ok c'
    → evict_until E (suc more) actual c ≡ ok c'
unfolding evict_until evict_one
round E fuel more actual c c' step run = elim (Option-cases c.evictor) [
  | inl e ↦ ground arith
  | inr (s, e) ↦ elim (Outcome-cases (evict_one E s c)) [
    | inl (d, f) ↦ ground (arith, step d)
    | inr (b, f) ↦ ground arith
  ]
]

no_rounds :
    (E : Evictor) (more actual : ℕ) (c c' : Cache E.State)
    → evict_until E zero actual c ≡ ok c'
    → evict_until E more actual c ≡ ok c'
unfolding evict_until
no_rounds E more actual c c' run = cc

module _ (E : Evictor) where
  evict_until-more :
      (fuel more actual : ℕ) (c c' : Cache E.State)
      → fuel ≤ more
      → evict_until E fuel actual c ≡ ok c'
      → evict_until E more actual c ≡ ok c'
  evict_until-more zero more actual c c' le run = no_rounds E more actual c c' run
  evict_until-more (suc fuel) zero actual c c' le run = absurd (omega arith)
  evict_until-more (suc fuel) (suc more) actual c c' le run =
      round E fuel more actual c c' (λ d. evict_until-more fuel more actual d c' (omega arith)) run

  admit_by_eviction-more :
      (fuel more : ℕ) (existing : Bool) (key v : Bytes) (size actual : ℕ) (c c' : Cache E.State)
      → fuel ≤ more
      → admit_by_eviction E fuel existing key v size actual c ≡ ok c'
      → admit_by_eviction E more existing key v size actual c ≡ ok c'
  unfolding admit_by_eviction
  admit_by_eviction-more fuel more existing key v size actual c c' le run =
      elim (Option-cases c.evictor) [
        | inl e ↦ ground arith
        | inr (s, e) ↦ elim (Outcome-cases (evict_until E fuel actual c)) [
          | inl (d, f) ↦ ground (arith, evict_until-more fuel more actual c d le f)
          | inr (b, f) ↦ ground arith
        ]
      ]

  -- Where `set` returns with some number of rounds, it returns the same with every greater
  -- number.
  pub set-more :
      (fuel more : ℕ) (key : Bytes) (val : Option Bytes) (size : ℕ) (c c' : Cache E.State)
      → fuel ≤ more
      → set E fuel key val size c ≡ ok c'
      → set E more key val size c ≡ ok c'
  unfolding set
  set-more fuel more key val size c c' le run = elim (Outcome-cases (actual_size c key size)) [
    | inr (b, f) ↦ ground arith
    | inl (actual, f) ↦ elim (Outcome-cases (read_value val)) [
      | inr (b, g) ↦ ground arith
      | inl (v, g) ↦
          ground (
            arith,
            admit_by_eviction-more fuel more (contains key c.vals) key v size actual c c' le,
          )
    ]
  ]
