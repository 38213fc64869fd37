-- ===== src/Cache/Bound.antt =====
-- `m_maxmem`, and whether there is an evictor, under every operation.
use hw6_csci.Base.{
  ℕ, zero, suc, ◌≡◌, refl, Bool, Option, some, Bytes, arith, ok, Option-cases, Outcome-cases, inl,
  inr,
}
use hw6_csci.Base.Dict.{contains, find}
use hw6_csci.Evictor.{Evictor}
use hw6_csci.Cache.Admit.{is_there}
use hw6_csci.Cache.{
  Cache, touch, put_entry, evict_one, evict_until, admit, admit_by_eviction, set, get, del, reset,
  size_of, actual_size, read_value,
}

-- `c'` has the bound of `c`, and an evictor if `c` has one.
abbrev pub Kept : {S : Type 0} → Cache S → Cache S → Type 0
Kept c c' = (c'.maxmem ≡ c.maxmem) × (is_there c'.evictor ≡ is_there c.evictor)

module _ (E : Evictor) (c c' : Cache E.State) where
  touch-Kept : (key : Bytes) → touch E key c ≡ ok c' → Kept c c'
  unfolding touch
  touch-Kept key run = elim (Option-cases c.evictor) [
    | inl e ↦ ground arith
    | inr (s, e) ↦ elim (Outcome-cases (E.touch_key key s)) [
      | inl (t, f) ↦ ground arith
      | inr (b, f) ↦ ground arith
    ]
  ]

  put_entry-Kept :
      (existing : Bool) (key v : Bytes) (size actual : ℕ)
      → put_entry existing key v size actual c ≡ ok c'
      → Kept c c'
  unfolding put_entry
  put_entry-Kept existing key v size actual run = ground arith

  evict_one-Kept : (s : E.State) → c.evictor ≡ some s → evict_one E s c ≡ ok c' → Kept c c'
  unfolding evict_one
  evict_one-Kept s e run = elim (Outcome-cases (E.evict s)) [
    | inl (t, f) ↦ ground arith
    | inr (b, f) ↦ ground arith
  ]

module _ (E : Evictor) where
  evict_until-Kept :
      (fuel actual : ℕ) (c c' : Cache E.State) → evict_until E fuel actual c ≡ ok c' → Kept c c'
  unfolding evict_until evict_one
  evict_until-Kept zero actual c c' run = cc
  evict_until-Kept (suc fuel) actual c c' run = elim (Option-cases c.evictor) [
    | inl e ↦ ground arith
    | inr (s, e) ↦ elim (Outcome-cases (evict_one E s c)) [
      | inl (d, f) ↦ ground (arith, evict_until-Kept fuel actual d c', evict_one-Kept E c d s e f)
      | inr (b, f) ↦ ground arith
    ]
  ]

  admit-Kept :
      (existing : Bool) (key v : Bytes) (size actual : ℕ) (c c' : Cache E.State)
      → admit E existing key v size actual c ≡ ok c'
      → Kept c c'
  unfolding admit
  admit-Kept existing key v size actual c c' run =
      elim (Outcome-cases (put_entry existing key v size actual c)) [
        | inl (d, f) ↦
            ground (arith, put_entry-Kept E c d existing key v size actual f, touch-Kept E d c' key)
        | inr (b, f) ↦ ground arith
      ]

  admit_by_eviction-Kept :
      (fuel : ℕ) (existing : Bool) (key v : Bytes) (size actual : ℕ) (c c' : Cache E.State)
      → admit_by_eviction E fuel existing key v size actual c ≡ ok c'
      → Kept c c'
  unfolding admit_by_eviction
  admit_by_eviction-Kept fuel existing key v size actual c c' run = elim (Option-cases c.evictor) [
    | inl e ↦ ground arith
    | inr (s, e) ↦ elim (Outcome-cases (evict_until E fuel actual c)) [
      | inl (d, f) ↦
          ground
            (arith, evict_until-Kept fuel actual c d f, admit-Kept existing key v size actual d c')
      | inr (b, f) ↦ ground arith
    ]
  ]

  pub set-Kept :
      (fuel : ℕ) (key : Bytes) (val : Option Bytes) (size : ℕ) (c c' : Cache E.State)
      → set E fuel key val size c ≡ ok c'
      → Kept c c'
  unfolding set
  set-Kept fuel key val size c c' run = elim (Outcome-cases (actual_size c key size)) [
    | inr (b, f) ↦ ground arith
    | inl (actual, f) ↦ elim (Outcome-cases (read_value val)) [
      | inr (b, g) ↦ ground arith
      | inl (v, g) ↦ ground (
        arith,
        admit_by_eviction-Kept fuel (contains key c.vals) key v size actual c c',
        admit-Kept (contains key c.vals) key v size actual c c',
      )
    ]
  ]

  pub get-Kept :
      (key : Bytes) (r : Option ℕ) (c c' : Cache E.State) → get E key c ≡ ok (r, c') → Kept c c'
  unfolding get
  get-Kept key r c c' run = elim (Option-cases (find key c.vals)) [
    | inl e ↦ ground arith
    | inr (v, e) ↦ elim (Outcome-cases (touch E key c)) [
      | inr (b, f) ↦ ground arith
      | inl (d, f) ↦ elim (Outcome-cases (size_of key d.sizes)) [
        | inr (b, g) ↦ ground arith
        | inl (n, g) ↦ ground (arith, touch-Kept E c d key f)
      ]
    ]
  ]

  pub del-Kept : (key : Bytes) (c : Cache E.State) → Kept c (del E key c).1
  unfolding del
  del-Kept key c = ground arith

  pub reset-Kept : (c : Cache E.State) → Kept c (reset E c)
  unfolding reset
  reset-Kept c = (refl, refl)
