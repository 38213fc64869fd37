-- ===== src/Cache/Count.antt =====
-- The count of memory in `set`, below the bound on `maxmem` of the invariant.
use hw6_csci.Base.{
  ℕ, ◌+◌, ◌-◌, ◌^◌, ◌≤◌, ◌<◌, ◌≡◌, inl, inr, none, some, List, Bytes, arith, ok, Option-cases,
}
use hw6_csci.Base.Dict.{Dict, Distinct, total, find, erase, erase_absent, total-erase}
use hw6_csci.Evictor.{Evictor}
use hw6_csci.Cache.{Cache, u32, sub32, size_of, actual_size}
use hw6_csci.Cache.Valid.{IsValid}

-- `actual_size` of the code, once the maps agree.
abbrev pub change : Bytes → ℕ → Dict ℕ → ℕ
change key size sizes = elim (find key sizes) [ none ↦ size | some old ↦ sub32 size old ]

-- The memory that `size` bytes add for the key, where they add any.
abbrev pub growth : Bytes → ℕ → Dict ℕ → ℕ
growth key size sizes = elim (find key sizes) [ none ↦ size | some old ↦ size - old ]

-- The memory in use if the key had a value of the size.
abbrev pub new_total : Bytes → ℕ → Dict ℕ → ℕ
new_total key size sizes = total (erase key sizes) + size

change-wraps :
    (key : Bytes) (size top : ℕ) (sizes : Dict ℕ)
    → Distinct sizes
    → total sizes ≤ top
    → size ≤ top
    → top < 2 ^ 31
    → u32 (total sizes + change key size sizes) ≡ new_total key size sizes
change-wraps key size top sizes d bounded fits small = elim (Option-cases (find key sizes)) [
  | inl e ↦ ground (arith, erase_absent key sizes e)
  | inr (old, e) ↦ ground (arith, total-erase key old sizes d e)
]

-- A change that does not fit at once is plain growth.
change-grows :
    (key : Bytes) (size top : ℕ) (sizes : Dict ℕ)
    → Distinct sizes
    → total sizes ≤ top
    → size ≤ top
    → top < 2 ^ 31
    → top < new_total key size sizes
    → change key size sizes ≡ growth key size sizes
change-grows key size top sizes d bounded fits small over = elim (Option-cases (find key sizes)) [
  | inl e ↦ ground arith
  | inr (old, e) ↦ ground (arith, total-erase key old sizes d e)
]

pub change-same :
    (key : Bytes) (size : ℕ) (m n : Dict ℕ)
    → find key m ≡ find key n
    → change key size m ≡ change key size n
change-same key size m n e = ground arith

pub growth-le : (key : Bytes) (size : ℕ) (sizes : Dict ℕ) → growth key size sizes ≤ size
growth-le key size sizes = ground arith

module _ (E : Evictor) (c : Cache E.State) (q : List Bytes) (key : Bytes) (size : ℕ) where
  module _ (v : IsValid E c q) where
    pub actual_size-ok : actual_size c key size ≡ ok (change key size c.sizes)
    unfolding actual_size size_of
    actual_size-ok = ground (arith, v.same_keys key)

    -- The new count is the sum of the sizes, whether the value grows or shrinks.
    pub u32-new_total :
        size ≤ c.maxmem → u32 (c.current_mem + change key size c.sizes) ≡ new_total key size c.sizes
    u32-new_total fits =
        rw v.counted (change-wraps key size c.maxmem c.sizes v.distinct (omega arith) fits v.small)

    pub change-growth :
        size ≤ c.maxmem
        → c.maxmem < new_total key size c.sizes
        → change key size c.sizes ≡ growth key size c.sizes
    change-growth fits over =
        change-grows key size c.maxmem c.sizes v.distinct (omega arith) fits v.small over
