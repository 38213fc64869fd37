-- ===== src/Session/Opening.antt =====
-- The constructor of the listener, over all results of its four calls.
use hw6_csci.Base.{
  ◌≡◌, refl, Bool, true, false, inl, inr, Bool-cases, List, [], ◌∷◌, if◌then◌else◌, Bytes, codes,
}
use hw6_csci.Session.{ErrorCode, is_error, Log}
use hw6_csci.Session.Listener.{make_listener}

-- The first call of a series that fails.
abbrev pub first_failure : List (Bytes × ErrorCode) → Log
first_failure [] = []
first_failure ((what, ec) ∷ results) =
    if is_error ec then (what, ec) ∷ [] else first_failure results

abbrev pub is_nil : Log → Bool
is_nil [] = true
is_nil (_ ∷ _) = false

-- The listener's constructor reports the first of `open`, `set_option`, `bind` and `listen` that
-- fails and nothing else, its acceptor listens exactly if none fails, and it does not accept
-- yet.
pub make_listener-first_failure :
    (opened option bound listened : ErrorCode)
    → let l = make_listener opened option bound listened in
      let failure = first_failure (
        (codes "open", opened)
        ∷ (codes "set_option", option)
        ∷ (codes "bind", bound)
        ∷ (codes "listen", listened)
        ∷ []) in
      (l.log ≡ failure) × (l.listening ≡ is_nil failure) × (l.accepting ≡ false)
unfolding make_listener
make_listener-first_failure opened option bound listened = elim (Bool-cases (is_error opened)) [
  | inl e ↦ rw e (refl, refl, refl)
  | inr e ↦ elim (Bool-cases (is_error option)) [
    | inl e' ↦ rw (e, e') (refl, refl, refl)
    | inr e' ↦ elim (Bool-cases (is_error bound)) [
      | inl e'' ↦ rw (e, e', e'') (refl, refl, refl)
      | inr e'' ↦ elim (Bool-cases (is_error listened)) [
        | inl f ↦ rw (e, e', e'', f) (refl, refl, refl)
        | inr f ↦ rw (e, e', e'', f) (refl, refl, refl)
      ]
    ]
  ]
]
