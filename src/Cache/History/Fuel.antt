-- ===== src/Cache/History/Fuel.antt =====
-- Sequences of calls with different bounds on the rounds of their `set`s.
use hw6_csci.Base.{ℕ, ◌≤◌, ◌≡◌, List, [], ◌∷◌, arith, inl, inr, ok, Outcome-cases}
use hw6_csci.Evictor.{Evictor}
use hw6_csci.Cache.{Cache}
use hw6_csci.Cache.Fuel.{set-more}
use hw6_csci.Cache.History.{Call, set_call, get_call, del_call, reset_call, call, run_calls}

module _ (E : Evictor) (fuel more : ℕ) (le : fuel ≤ more) where
  pub call-more :
      (a : Call) (c c' : Cache E.State) → call E fuel a c ≡ ok c' → call E more a c ≡ ok c'
  unfolding call
  call-more (set_call key text n) c c' run = set-more E fuel more key _ n c c' le run
  call-more (get_call key) c c' run = run
  call-more (del_call key) c c' run = run
  call-more reset_call c c' run = run

  pub run_calls-more :
      (calls : List Call) (c c' : Cache E.State)
      → run_calls E fuel calls c ≡ ok c'
      → run_calls E more calls c ≡ ok c'
  unfolding run_calls
  run_calls-more [] c c' run = run
  run_calls-more (a ∷ calls) c c' run = elim (Outcome-cases (run_calls E fuel calls c)) [
    | inl (d, e) ↦ rw (run_calls-more calls c d e) (call-more a d c' (rw e at run))
    | inr (f, e) ↦ absurd (ground arith)
  ]
