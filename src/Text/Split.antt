-- ===== src/Text/Split.antt =====
-- `boost::split` with `boost::is_any_of`, which is not part of the repository: an interface with
-- its documented behaviour, for adjacent separators kept apart, and a function that has it.
use hw6_csci.Base.{
  ℕ, ◌≡◌, refl, Bool, true, false, ◌||◌, List, [], ◌∷◌, ◌++◌, ◌==◌, if◌then◌else◌, Bytes,
}

abbrev pub is_any_of : Bytes → ℕ → Bool
is_any_of [] c = false
is_any_of (d ∷ seps) c = (d == c) || is_any_of seps c

-- No byte of the text is a separator.
abbrev pub Lacks : Bytes → Bytes → Type 0
Lacks seps [] = Unit
Lacks seps (c ∷ s) = (is_any_of seps c ≡ false) × Lacks seps s

pub record Splitter : Type 0 where
  pub split : Bytes → Bytes → List Bytes
  -- A text with no separator is its own one part.
  pub split_whole : (seps s : Bytes) → Lacks seps s → split seps s ≡ s ∷ []
  -- A separator ends the part before it.
  pub split_first :
      (seps p : Bytes) (c : ℕ) (s : Bytes)
      → Lacks seps p
      → is_any_of seps c ≡ true
      → split seps (p ++ c ∷ s) ≡ p ∷ split seps s

pub Lacks-append : (seps s t : Bytes) → Lacks seps s → Lacks seps t → Lacks seps (s ++ t)
Lacks-append seps [] t h k = k
Lacks-append seps (c ∷ s) t h k = (h.0, Lacks-append seps s t h.1 k)

-- The byte in front of the first part.
unfoldable pub prepend : ℕ → List Bytes → List Bytes
prepend c [] = (c ∷ []) ∷ []
prepend c (p ∷ ps) = (c ∷ p) ∷ ps

unfoldable pub parts : Bytes → Bytes → List Bytes
parts seps [] = [] ∷ []
parts seps (c ∷ s) =
    let rest = parts seps s in if is_any_of seps c then [] ∷ rest else prepend c rest

pub parts_whole : (seps s : Bytes) → Lacks seps s → parts seps s ≡ s ∷ []
unfolding parts prepend
parts_whole seps [] h = refl
parts_whole seps (c ∷ s) h = rw (h.0, parts_whole seps s h.1)

pub parts_first :
    (seps p : Bytes) (c : ℕ) (s : Bytes)
    → Lacks seps p
    → is_any_of seps c ≡ true
    → parts seps (p ++ c ∷ s) ≡ p ∷ parts seps s
unfolding parts prepend
parts_first seps [] c s h e = rw e
parts_first seps (d ∷ p) c s h e = rw (h.0, parts_first seps p c s h.1 e)

abbrev pub plain_splitter : Splitter
plain_splitter = record { split = parts; split_whole = parts_whole; split_first = parts_first }
