-- ===== src/Lru/Segment.antt =====
-- Segments of the doubly linked list.
use hw6_csci.Base.{◌<◌, ◌≡◌, refl, ◌≢◌, Bool, true, false, ◌||◌, some, [], ◌∷◌, ◌++◌, arith, ◌==◌}
use hw6_csci.Base.Dict.{Dict}
use hw6_csci.Lru.Nodes.{Ptr, null, node, Store}

-- What a list stands for: key and address of each node, front first.
abbrev pub Cells : Type 0
Cells = Dict Ptr

abbrev pub head_or : Ptr → Cells → Ptr
head_or z [] = z
head_or z ((_, p) ∷ _) = p

abbrev pub last_or : Ptr → Cells → Ptr
last_or a [] = a
last_or a ((_, p) ∷ l) = last_or p l

abbrev pub has : Ptr → Cells → Bool
has q [] = false
has q ((_, p) ∷ l) = (q == p) || has q l

-- The nodes of `l` are linked both ways, between the addresses `a` and `z`.
abbrev pub Seg : Store → Ptr → Ptr → Cells → Type 0
Seg h a z [] = Unit
Seg h a z ((k, p) ∷ l) = (h p ≡ some (node k a (head_or z l))) × Seg h p z l

-- The addresses are distinct, not null and below `top`.
abbrev pub Apart : Ptr → Cells → Type 0
Apart top [] = Unit
Apart top ((_, p) ∷ l) = (p ≢ null) × (p < top) × (has p l ≡ false) × Apart top l

abbrev pub SameOutside : Ptr → Store → Store → Type 0
SameOutside p h g = (q : Ptr) → (q == p) ≡ false → g q ≡ h q

pub has-append : (q : Ptr) (l m : Cells) → has q (l ++ m) ≡ (has q l || has q m)
has-append q [] m = refl
has-append q ((k, p) ∷ l) m = ground (arith, has-append q l m)

pub head_or-append : (z : Ptr) (l m : Cells) → head_or z (l ++ m) ≡ head_or (head_or z m) l
head_or-append z [] m = refl
head_or-append z (_ ∷ l) m = refl

pub last_or-append : (a : Ptr) (l m : Cells) → last_or a (l ++ m) ≡ last_or (last_or a l) m
last_or-append a [] m = refl
last_or-append a ((_, p) ∷ l) m = last_or-append p l m

pub Seg-frame :
    (h g : Store) (a z : Ptr) (l : Cells)
    → ((q : Ptr) → has q l ≡ true → g q ≡ h q)
    → Seg h a z l
    → Seg g a z l
Seg-frame h g a z [] same s = tt
Seg-frame h g a z ((k, p) ∷ l) same s =
    (ground (arith, same p), Seg-frame h g p z l (λ q i. same q (ground arith)) s.1)

ne_of_has : (p q : Ptr) (l : Cells) → has p l ≡ false → has q l ≡ true → (q == p) ≡ false
ne_of_has p q l out i = ground arith

-- A segment survives a change at an address that is not its own.
pub Seg-same :
    (h g : Store) (p a z : Ptr) (l : Cells)
    → SameOutside p h g
    → has p l ≡ false
    → Seg h a z l
    → Seg g a z l
Seg-same h g p a z l same out s = Seg-frame h g a z l (λ q i. same q (ne_of_has p q l out i)) s

pub Seg-append :
    (h : Store) (a z : Ptr) (l m : Cells)
    → Seg h a z (l ++ m)
    → Seg h a (head_or z m) l × Seg h (last_or a l) z m
Seg-append h a z [] m s = (tt, s)
Seg-append h a z ((k, p) ∷ l) m s =
    let (sl, sm) = Seg-append h p z l m s.1 in ((ground (arith, head_or-append z l m), sl), sm)

pub append-Seg :
    (h : Store) (a z : Ptr) (l m : Cells)
    → Seg h a (head_or z m) l
    → Seg h (last_or a l) z m
    → Seg h a z (l ++ m)
append-Seg h a z [] m s t = t
append-Seg h a z ((k, p) ∷ l) m s t =
    (ground (arith, head_or-append z l m), append-Seg h p z l m s.1 t)

abbrev pub Separate : Cells → Cells → Type 0
Separate l m = (q : Ptr) → has q l ≡ true → has q m ≡ false

pub Apart-append :
    (top : Ptr) (l m : Cells) → Apart top (l ++ m) → Apart top l × Apart top m × Separate l m
Apart-append top [] m s = (tt, s, λ q i. cc)
Apart-append top ((k, p) ∷ l) m s =
    let (sl, sm, d) = Apart-append top l m s.3 in
    (
      (s.0, s.1, ground (arith, has-append p l m), sl),
      sm,
      λ q i. ground (arith, has-append p l m, d q),
    )

pub append-Apart :
    (top : Ptr) (l m : Cells) → Apart top l → Apart top m → Separate l m → Apart top (l ++ m)
append-Apart top [] m s t d = t
append-Apart top ((k, p) ∷ l) m s t d = (
  s.0,
  s.1,
  ground (arith, has-append p l m, d p),
  append-Apart top l m s.3 t (λ q i. d q (ground arith)),
)
