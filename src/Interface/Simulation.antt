-- ===== src/Interface/Simulation.antt =====
-- When two implementations of the interface cannot be told apart.
use hw6_csci.Base.{◌≡◌, refl, ◌⊎◌, inl, inr, List, [], ◌∷◌, Fault, Outcome, ok, fault}
use hw6_csci.Interface.{CacheInterface, Method, Reply, perform, observe}

-- Both return the same reply, and related states, or both have the same fault.
abbrev pub Agree :
    {S T : Type 0} → (S → T → Type 0) → Outcome (Reply × S) → Outcome (Reply × T) → Type 0
Agree {S = S} {T = T} R x y =
    ((r : Reply) × (s : S) × (t : T) × (x ≡ ok (r, s)) × (y ≡ ok (r, t)) × R s t)
    ⊎ ((f : Fault) × (x ≡ fault f) × (y ≡ fault f))

-- `R ms` relates states from which the methods `ms` are still to be performed.
module _ (I J : CacheInterface) (R : List Method → I.State → J.State → Type 0) where
  abbrev pub Simulates : Type 0
  Simulates =
      (m : Method) (ms : List Method) (s : I.State) (t : J.State)
      → R (m ∷ ms) s t
      → Agree (R ms) (perform I m s) (perform J m t)

  pub observe-Simulates :
      Simulates
      → (ms : List Method) (s : I.State) (t : J.State) → R ms s t
      → observe I ms s ≡ observe J ms t
  unfolding observe
  observe-Simulates step [] s t related = refl
  observe-Simulates step (m ∷ ms) s t related = elim (step m ms s t related) [
    | inr (f, e, e') ↦ rw (e, observe, e', observe)
    | inl (r, s', t', e, e', related') ↦
        let same = observe-Simulates step ms s' t' related' in rw (e, observe, e', observe, same)
  ]
