-- ===== src/Evictor/Queue.antt =====
-- Queues of keys, front first.
use hw6_csci.Base.{
  ◌+◌, ◌≤◌, ◌≡◌, refl, Bool, false, ◌||◌, List, [], ◌∷◌, ◌++◌, arith, Bytes, bytes_eq,
  if◌then◌else◌, length, length-append,
}
use hw6_csci.Base.Dict.{Dict, erase}

unfoldable pub member : Bytes → List Bytes → Bool
member j [] = false
member j (k ∷ q) = bytes_eq k j || member j q

-- The queue without the key.
unfoldable pub remove : Bytes → List Bytes → List Bytes
remove j [] = []
remove j (k ∷ q) = let rest = remove j q in if bytes_eq k j then rest else k ∷ rest

abbrev pub keys : {V : Type 0} → Dict V → List Bytes
keys [] = []
keys ((k, _) ∷ m) = k ∷ keys m

pub member-snoc :
    (j k : Bytes) (q : List Bytes) → member j (q ++ k ∷ []) ≡ (bytes_eq k j || member j q)
unfolding member
member-snoc j k [] = refl
member-snoc j k (i ∷ q) = ground (arith, member-snoc j k q)

pub member-remove :
    (j k : Bytes) (q : List Bytes)
    → member j (remove k q) ≡ (if bytes_eq k j then false else member j q)
unfolding member remove
member-remove j k [] = ground arith
member-remove j k (i ∷ q) = ground (arith, member-remove j k q)

pub length-remove-le : (k : Bytes) (q : List Bytes) → length (remove k q) ≤ length q
unfolding remove
length-remove-le k [] = omega arith
length-remove-le k (i ∷ q) = ground (arith, length-remove-le k q)

pub keys-erase : {V : Type 0} (k : Bytes) (m : Dict V) → keys (erase k m) ≡ remove k (keys m)
unfolding erase remove
keys-erase k [] = refl
keys-erase k ((j, v) ∷ m) = ground (arith, keys-erase k m)

pub keys-append : {V : Type 0} (l m : Dict V) → keys (l ++ m) ≡ keys l ++ keys m
keys-append [] m = refl
keys-append ((k, v) ∷ l) m = ground (arith, keys-append l m)

pub length-snoc : (k : Bytes) (q : List Bytes) → length (q ++ k ∷ []) ≡ length q + 1
length-snoc k q = omega (arith, length-append q (k ∷ []))
