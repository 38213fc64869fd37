-- ===== src/Base/Dict.antt =====
-- `std::unordered_map` with string keys, as a list of entries. The hash function and the load
-- factor decide where an entry lies and not what a lookup finds, so they do not show here.
use Prim.Native.Nat.{ℕ, ◌+◌}
use mathlib.Core.Path.{◌≡◌, refl, ap}
use mathlib.Core.Logic.{inl, inr}
use mathlib.Core.Bool.{Bool, true, false}
use mathlib.Core.List.{List, [], ◌∷◌, ◌++◌}
use mathlib.Core.Option.{Option, none, some}
use native.Mathlib.Omega.{arith}
use hw6_csci.Base.Tests.{Bytes, bytes_eq, if◌then◌else◌, Bool-cases}

abbrev pub Dict : Type 0 → Type 0
Dict V = List (Bytes × V)

module _ {V : Type 0} where
  -- `find`: the value, or `none` for `end ()`
  unfoldable pub find : Bytes → Dict V → Option V
  find k [] = none
  find k ((j, v) ∷ m) = if bytes_eq j k then some v else find k m

  abbrev pub contains : Bytes → Dict V → Bool
  contains k m = elim (find k m) [ none ↦ false | some _ ↦ true ]

  -- `emplace`: no effect on a key that is there
  unfoldable pub emplace : Bytes → V → Dict V → Dict V
  emplace k v m = if contains k m then m else (k, v) ∷ m

  -- `it->second = v` where `it` is what `find` returned for the key
  unfoldable pub assign : Bytes → V → Dict V → Dict V
  assign k v [] = []
  assign k v ((j, w) ∷ m) = if bytes_eq j k then (j, v) ∷ m else (j, w) ∷ assign k v m

  -- `m[k] = v`
  unfoldable pub put : Bytes → V → Dict V → Dict V
  put k v m = if contains k m then assign k v m else emplace k v m

  -- `erase`
  unfoldable pub erase : Bytes → Dict V → Dict V
  erase k [] = []
  erase k ((j, w) ∷ m) = let rest = erase k m in if bytes_eq j k then rest else (j, w) ∷ rest

  -- no key twice
  abbrev pub Distinct : Dict V → Type 0
  Distinct [] = Unit
  Distinct ((k, _) ∷ m) = (find k m ≡ none) × Distinct m

  pub find-assign :
      (q k : Bytes) (v : V) (m : Dict V)
      → contains k m ≡ true
      → find q (assign k v m) ≡ (if bytes_eq k q then some v else find q m)
  unfolding find assign
  find-assign q k v [] h = ground arith
  find-assign q k v ((j, w) ∷ m) h = ground (arith, find-assign q k v m)

  pub find-emplace :
      (q k : Bytes) (v : V) (m : Dict V)
      → find k m ≡ none
      → find q (emplace k v m) ≡ (if bytes_eq k q then some v else find q m)
  unfolding find emplace
  find-emplace q k v m h = ground arith

  pub find-put :
      (q k : Bytes) (v : V) (m : Dict V)
      → find q (put k v m) ≡ (if bytes_eq k q then some v else find q m)
  unfolding put
  find-put q k v m = ground (arith, find-assign q k v m, find-emplace q k v m)

  pub find-erase :
      (q k : Bytes) (m : Dict V) → find q (erase k m) ≡ (if bytes_eq k q then none else find q m)
  unfolding find erase
  find-erase q k [] = ground arith
  find-erase q k ((j, w) ∷ m) = ground (arith, find-erase q k m)

  pub erase_absent : (k : Bytes) (m : Dict V) → find k m ≡ none → erase k m ≡ m
  unfolding find erase
  erase_absent k [] h = refl
  erase_absent k ((j, w) ∷ m) h = ground (arith, erase_absent k m)

  pub Distinct-emplace : (k : Bytes) (v : V) (m : Dict V) → Distinct m → Distinct (emplace k v m)
  unfolding emplace
  Distinct-emplace k v m d = ground arith

  find-assign_absent :
      (j k : Bytes) (v : V) (m : Dict V) → find j m ≡ none → find j (assign k v m) ≡ none
  unfolding find assign
  find-assign_absent j k v [] h = refl
  find-assign_absent j k v ((i, w) ∷ m) h = ground (arith, find-assign_absent j k v m)

  pub Distinct-assign : (k : Bytes) (v : V) (m : Dict V) → Distinct m → Distinct (assign k v m)
  unfolding assign find
  Distinct-assign k v [] d = tt
  Distinct-assign k v ((j, w) ∷ m) d =
      ground (arith, Distinct-assign k v m, find-assign_absent j k v m)

  pub Distinct-erase : (k : Bytes) (m : Dict V) → Distinct m → Distinct (erase k m)
  unfolding erase find
  Distinct-erase k [] d = tt
  Distinct-erase k ((j, w) ∷ m) d = ground (arith, Distinct-erase k m, find-erase j k m)

module _ {V : Type 0} where
  -- An entry put behind all others.
  pub find-snoc :
      (q k : Bytes) (v : V) (m : Dict V)
      → find q (m ++ (k, v) ∷ [])
        ≡ elim (find q m) [ none ↦ if bytes_eq k q then some v else none | some w ↦ some w ]
  unfolding find
  find-snoc q k v [] = refl
  find-snoc q k v ((j, w) ∷ m) = ground (arith, find-snoc q k v m)

  pub Distinct-snoc :
      (k : Bytes) (v : V) (m : Dict V) → find k m ≡ none → Distinct m → Distinct (m ++ (k, v) ∷ [])
  unfolding find
  Distinct-snoc k v [] h d = (refl, tt)
  Distinct-snoc k v ((j, w) ∷ m) h d =
      (ground (arith, find-snoc j k v m), Distinct-snoc k v m (ground arith) d.1)

  -- Where an entry lies, and what is left when it goes.
  pub find_split :
      (k : Bytes) (v : V) (m : Dict V)
      → find k m ≡ some v
      → Distinct m
      → (a : Dict V) × (b : Dict V) × (m ≡ a ++ (k, v) ∷ b) × (erase k m ≡ a ++ b)
  unfolding find erase
  find_split k v [] h d = cc
  find_split k v ((j, w) ∷ m) h d = elim (Bool-cases (bytes_eq j k)) [
    | inl e ↦ ([], m, ground arith, ground (arith, erase_absent k m))
    | inr e ↦
        let (a, b, split, rest) = find_split k v m (ground arith) d.1 in
        ((j, w) ∷ a, b, ap (◌∷◌ (j, w)) split, rw (e, rest))
  ]

-- The sum of the values of a map into numbers.
unfoldable pub total : Dict ℕ → ℕ
total [] = 0
total ((_, n) ∷ m) = n + total m

pub total-erase :
    (k : Bytes) (n : ℕ) (m : Dict ℕ)
    → Distinct m
    → find k m ≡ some n
    → total (erase k m) + n ≡ total m
unfolding find erase total
total-erase k n [] d h = ground arith
total-erase k n ((j, w) ∷ m) d h = ground (arith, total-erase k n m, erase_absent k m)

pub total-assign :
    (k : Bytes) (n v : ℕ) (m : Dict ℕ) → find k m ≡ some n → total (assign k v m) + n ≡ total m + v
unfolding find assign total
total-assign k n v [] h = ground arith
total-assign k n v ((j, w) ∷ m) h = ground (arith, total-assign k n v m)

pub total-emplace :
    (k : Bytes) (v : ℕ) (m : Dict ℕ) → find k m ≡ none → total (emplace k v m) ≡ total m + v
unfolding emplace total
total-emplace k v m h = ground arith
