-- ===== src/Workload/Safe.antt =====
-- The requests of the generator, by the bytes at which client and server cut their texts.
use hw6_csci.Base.{
  ℕ, zero, suc, ◌+◌, ◌-◌, ◌%◌, ◌<◌, ◌≤◌, ◌≡◌, ◌⊎◌, inl, inr, true, false, List, [], ◌∷◌, ◌++◌, ◌==◌,
  ltb, length, Bytes, Fault, Outcome, ok, fault, arith, refl, Bool-cases,
}
use hw6_csci.Text.{at}
use hw6_csci.Workload.Letters.{SafeText, SizeInRange, Ends, letters-Safe, random_data-Safe}
use hw6_csci.Workload.{
  Fraction, Draws, Call, get_call, set_call, delete_call, key_at, select_key_get, select_key_del,
  use_real_key, letters, generate_random_data, generate_random_key, generate_get, generate_set,
  generate_delete, generate_request, dummy_key,
}

abbrev pub SafeKeys : List Bytes → Type 0
SafeKeys [] = Unit
SafeKeys (k ∷ ks) = SafeText k × SafeKeys ks

-- A size counts the text and its zero byte, which is the first.
abbrev pub SafeCall : Call → Type 0
SafeCall (get_call key) = SafeText key
SafeCall (set_call text key n) =
    SafeText text × SafeText key × (length text + 1 ≡ n) × SizeInRange n × Ends text
SafeCall (delete_call key) = SafeText key

-- What the generator comes to, at the place `pos` of the draws: a safe request and safe keys again, at
-- least as many, or the failed `assert` of a deletion of a key in use whose fraction is 1.
abbrev pub Generated : Draws → List Bytes → ℕ → Outcome (Call × List Bytes × ℕ) → Type 0
Generated draws keys pos (ok (call, keys', pos')) =
    SafeCall call × SafeKeys keys' × (length keys ≤ length keys')
Generated draws keys pos (fault Fault.assertion) =
    (67 ≤ draws.rand pos % 100)
    × (draws.rand pos % 100 ≤ 98)
    × (use_real_key 90 (draws.rand (pos + 1)) ≡ true)
    × ((draws.fraction (pos + 1 + 1)).one ≡ true)
Generated draws keys pos (fault _) = ⊥

at-Safe :
    (keys : List Bytes) (i : ℕ)
    → SafeKeys keys
    → i < length keys
    → (key : Bytes) × (at keys i ≡ ok key) × SafeText key
unfolding at
at-Safe [] i safe less = absurd (omega arith)
at-Safe (k ∷ keys) zero safe less = (k, refl, safe.0)
at-Safe (k ∷ keys) (suc i) safe less = at-Safe keys i safe.1 (omega arith)

key_at-Safe :
    (keys : List Bytes) (i : ℕ)
    → SafeKeys keys
    → i < length keys
    → (key : Bytes) × (key_at keys i ≡ ok key) × SafeText key
unfolding key_at
key_at-Safe keys i safe less =
    let (key, e, s) = at-Safe keys i safe less in
    let test : ltb i (length keys) ≡ true = ground arith in (key, rw (test, e), s)

pred_less : (n : ℕ) → 0 < n → n - 1 < n
pred_less n h = omega arith

pub select_key_get-Safe :
    (f : Fraction) (keys : List Bytes)
    → SafeKeys keys
    → 0 < length keys
    → (key : Bytes) × (select_key_get f keys ≡ ok key) × SafeText key
unfolding select_key_get
select_key_get-Safe f keys safe some_key = elim (Bool-cases f.one) [
  | inl one ↦
      let last : f.scaled (length keys) ≡ length keys = f.scaled_one one (length keys) in
      let (key, e, s) =
        key_at-Safe keys (length keys - 1) safe (pred_less (length keys) some_key) in
      let test : (length keys == 0) ≡ false = ground arith in (key, rw (one, last, test, e), s)
  | inr less ↦
      let (key, e, s) =
        key_at-Safe keys (f.scaled (length keys)) safe
          (f.scaled_less less (length keys) some_key) in
      (key, rw (less, e), s)
]

select_key_del_cases :
    (f : Fraction) (keys : List Bytes)
    → SafeKeys keys
    → 0 < length keys
    → ((key : Bytes) × (select_key_del f keys ≡ ok key) × SafeText key)
      ⊎ ((select_key_del f keys ≡ fault Fault.assertion) × (f.one ≡ true))
unfolding select_key_del key_at
select_key_del_cases f keys safe some_key = elim (Bool-cases f.one) [
  | inl one ↦
      let last : f.scaled (length keys) ≡ length keys = f.scaled_one one (length keys) in
      let test : ltb (length keys) (length keys) ≡ false = ground arith in
      inr (rw (last, test), one)
  | inr less ↦
      inl
        (key_at-Safe keys (f.scaled (length keys)) safe (f.scaled_less less (length keys) some_key))
]

module _ (draws : Draws) where
  pub SafeKeys-snoc :
      (keys : List Bytes) (key : Bytes) → SafeKeys keys → SafeText key → SafeKeys (keys ++ key ∷ [])
  SafeKeys-snoc [] key safe h = (h, tt)
  SafeKeys-snoc (k ∷ keys) key safe h = (safe.0, SafeKeys-snoc keys key safe.1 h)

  pub length-snoc-le : (keys : List Bytes) (key : Bytes) → length keys ≤ length (keys ++ key ∷ [])
  length-snoc-le [] key = omega arith
  length-snoc-le (k ∷ keys) key = omega (arith, length-snoc-le keys key)

  dummy_key-Safe : SafeText dummy_key
  dummy_key-Safe = (ground arith, ground arith, refl, omega arith)

  module _ (keys : List Bytes) (safe : SafeKeys keys) (some_key : 0 < length keys) (pos : ℕ) where
    generate_get-Generated : Generated draws keys pos (generate_get draws keys (pos + 1))
    unfolding generate_get
    generate_get-Generated = elim (Bool-cases (use_real_key 10 (draws.rand (pos + 1)))) [
      | inl e ↦
          let (key, run, s) =
            select_key_get-Safe (draws.fraction (pos + 1 + 1)) keys safe some_key in
          rw (e, run) (s, safe, omega arith)
      | inr e ↦ rw e (dummy_key-Safe, safe, omega arith)
    ]

    generate_delete-Generated :
        67 ≤ draws.rand pos % 100
        → draws.rand pos % 100 ≤ 98
        → Generated draws keys pos (generate_delete draws keys (pos + 1))
    unfolding generate_delete
    generate_delete-Generated least most =
        elim (Bool-cases (use_real_key 90 (draws.rand (pos + 1)))) [
          | inl e ↦ elim (select_key_del_cases (draws.fraction (pos + 1 + 1)) keys safe some_key) [
            | inl (key, run, s) ↦ rw (e, run) (s, safe, omega arith)
            | inr (run, one) ↦ rw (e, run) (least, most, e, one)
          ]
          | inr e ↦ rw e (dummy_key-Safe, safe, omega arith)
        ]

    generate_set-Generated : Generated draws keys pos (generate_set draws keys (pos + 1))
    unfolding generate_set generate_random_key
    generate_set-Generated =
        let pos' = (generate_random_data draws (pos + 1)).2 in
        let (text_safe, size, range, ends) = random_data-Safe draws (pos + 1) in
        elim (Bool-cases (use_real_key 2 (draws.rand pos'))) [
          | inl e ↦
              let (key, run, s) =
                select_key_get-Safe (draws.fraction (pos' + 1)) keys safe some_key in
              rw (e, run) ((text_safe, s, size, range, ends), safe, omega arith)
          | inr e ↦
              let key = (letters draws b'A' 8 (pos' + 1)).0 in
              let s =
                letters-Safe draws b'A' 8 (pos' + 1) (omega arith) (omega arith) (omega arith)
                  (omega arith) in
              rw e (
                (text_safe, s, size, range, ends),
                SafeKeys-snoc keys key safe s,
                length-snoc-le keys key,
              )
        ]

  -- With at least one key in use, all of up to 2000 visible characters without a slash, comma or
  -- colon, `generate_request` returns a request whose key and text are such texts too, and for a
  -- `set` a text with no zero byte, and a size that counts the text and the zero byte behind it
  -- and is 2 to 7, 10 to 44 or 100 to 114; the keys in use stay such texts and do not become
  -- fewer. Otherwise it fails an assertion, and then this request was to delete a key in use:
  -- its first draw is 67 to 98 of 100, its second more than 90, and the fraction that it draws
  -- is 1.
  pub generate_request-Generated :
      (keys : List Bytes) (pos : ℕ)
      → SafeKeys keys
      → 0 < length keys
      → Generated draws keys pos (generate_request draws keys pos)
  unfolding generate_request
  generate_request-Generated keys pos safe some_key =
      elim (Bool-cases (ltb (draws.rand pos % 100) 67)) [
        | inl e ↦ rw e (generate_get-Generated keys safe some_key pos)
        | inr e ↦ elim (Bool-cases (ltb 98 (draws.rand pos % 100))) [
          | inl e' ↦ rw (e, e') (generate_set-Generated keys safe some_key pos)
          | inr e' ↦
              rw (e, e')
                (generate_delete-Generated keys safe some_key pos (ground arith) (ground arith))
        ]
      ]
