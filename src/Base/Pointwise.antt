-- ===== src/Base/Pointwise.antt =====
-- A predicate at every element of a list.
use mathlib.Core.List.{List, [], ◌∷◌, ◌++◌}

abbrev pub Every : {A : Type 0} → (A → Type 0) → List A → Type 0
Every P [] = Unit
Every P (a ∷ xs) = P a × Every P xs

module _ {A : Type 0} (P : A → Type 0) where
  -- One element is replaced.
  pub Every-replace :
      (before after : List A) (a b : A)
      → (P a → P b)
      → Every P (before ++ a ∷ after)
      → Every P (before ++ b ∷ after)
  Every-replace [] after a b keep (h, k) = (keep h, k)
  Every-replace (t ∷ before) after a b keep (h, k) = (h, Every-replace before after a b keep k)

  pub at-Every : (before after : List A) (a : A) → Every P (before ++ a ∷ after) → P a
  at-Every [] after a (h, k) = h
  at-Every (t ∷ before) after a (h, k) = at-Every before after a k

  -- Every element has the weaker predicate too.
  pub Every-weaken :
      (Q : A → Type 0) (xs : List A) → ((a : A) → P a → Q a) → Every P xs → Every Q xs
  Every-weaken Q [] weaker h = tt
  Every-weaken Q (a ∷ xs) weaker (h, k) = (weaker a h, Every-weaken Q xs weaker k)
