-- ===== src/Workload/Letters.antt =====
-- The texts and keys that the generator makes of letters.
use hw6_csci.Base.{
  some, ℕ, zero, suc, ◌+◌, ◌%◌, ◌<◌, ◌≤◌, ◌≡◌, ◌⊎◌, inl, inr, true, false, [], ◌∷◌, ◌++◌, ◌==◌, ltb,
  length, Bytes, ok, arith, refl, Bool-cases,
}
use hw6_csci.Text.{all_visible, is_visible}
use hw6_csci.Text.Split.{Lacks}
use hw6_csci.Client.Parts.{slash, reply_marks}
use hw6_csci.Workload.{Draws, data_length, letters, generate_random_data}
use hw6_csci.Cache.{read_value, c_string}

-- Visible characters, without those at which client or server cut their texts, and not too many.
abbrev pub SafeText : Bytes → Type 0
SafeText s = Lacks slash s × Lacks reply_marks s × (all_visible s ≡ true) × (length s ≤ 2000)

-- The first zero byte behind the text is the one that ends it.
abbrev pub Ends : Bytes → Type 0
Ends s = read_value (some (s ++ 0 ∷ [])) ≡ ok s

-- The sizes that the generator chooses.
abbrev pub SizeInRange : ℕ → Type 0
SizeInRange n = ((2 ≤ n) × (n ≤ 7)) ⊎ (((10 ≤ n) × (n ≤ 44)) ⊎ ((100 ≤ n) × (n ≤ 114)))

module _ (draws : Draws) where
  letters_uncut :
      (first n pos : ℕ)
      → b'A' ≤ first
      → Lacks slash (letters draws first n pos).0 × Lacks reply_marks (letters draws first n pos).0
  unfolding letters
  letters_uncut first zero pos h = (tt, tt)
  letters_uncut first (suc zero) pos h = (tt, tt)
  letters_uncut first (suc (suc n)) pos h =
      let rest = letters_uncut first (suc n) (pos + 1) h in
      ((ground arith, rest.0), (ground arith, rest.1))

  pub length-letters : (first n pos : ℕ) → 0 < n → length (letters draws first n pos).0 + 1 ≡ n
  unfolding letters
  length-letters first zero pos h = absurd (omega arith)
  length-letters first (suc zero) pos h = omega arith
  length-letters first (suc (suc n)) pos h =
      omega (arith, length-letters first (suc n) (pos + 1) (omega arith))

  letters_visible :
      (first n pos : ℕ)
      → b'A' ≤ first
      → first ≤ b'a'
      → all_visible (letters draws first n pos).0 ≡ true
  unfolding letters
  letters_visible first zero pos h k = refl
  letters_visible first (suc zero) pos h k = refl
  letters_visible first (suc (suc n)) pos h k =
      let rest = letters_visible first (suc n) (pos + 1) h k in
      let here : is_visible (first + draws.rand pos % 26) ≡ true = ground arith in rw (here, rest)

  pub letters-Safe :
      (first n pos : ℕ)
      → b'A' ≤ first
      → first ≤ b'a'
      → 0 < n
      → n ≤ 2000
      → SafeText (letters draws first n pos).0
  letters-Safe first n pos h k some_letter few =
      let (cuts, marks) = letters_uncut first n pos h in
      (
        cuts,
        marks,
        letters_visible first n pos h k,
        omega (arith, length-letters first n pos some_letter),
      )

  -- Texts of the generator's letters, and their sizes.
  data_length-SizeInRange : (p r : ℕ) → SizeInRange (data_length p r)
  unfolding data_length
  data_length-SizeInRange p r = elim (Bool-cases (ltb p 95)) [
    | inl e ↦ rw e (inl (omega arith, omega arith))
    | inr e ↦ elim (Bool-cases (ltb p 99)) [
      | inl e' ↦ rw (e, e') (inr (inl (omega arith, omega arith)))
      | inr e' ↦ rw (e, e') (inr (inr (omega arith, omega arith)))
    ]
  ]

  positive_size : (n : ℕ) → SizeInRange n → 0 < n
  positive_size n (inl (h, k)) = omega arith
  positive_size n (inr (inl (h, k))) = omega arith
  positive_size n (inr (inr (h, k))) = omega arith

  small_size : (n : ℕ) → SizeInRange n → n ≤ 2000
  small_size n (inl (h, k)) = omega arith
  small_size n (inr (inl (h, k))) = omega arith
  small_size n (inr (inr (h, k))) = omega arith

  -- No text of letters has a zero byte.
  c_string-letters :
      (first n pos : ℕ)
      → 0 < first
      → c_string ((letters draws first n pos).0 ++ 0 ∷ []) ≡ ok (letters draws first n pos).0
  unfolding c_string letters
  c_string-letters first zero pos h = refl
  c_string-letters first (suc zero) pos h = refl
  c_string-letters first (suc (suc n)) pos h =
      let rest = c_string-letters first (suc n) (pos + 1) h in
      let nonzero : (first + draws.rand pos % 26 == 0) ≡ false = ground arith in rw (nonzero, rest)

  read_value-letters : (first n pos : ℕ) → 0 < first → Ends (letters draws first n pos).0
  unfolding read_value
  read_value-letters first n pos h = c_string-letters first n pos h

  pub random_data-Safe :
      (pos : ℕ)
      → let (text, n, pos') = generate_random_data draws pos in
        SafeText text × (length text + 1 ≡ n) × SizeInRange n × Ends text
  unfolding generate_random_data
  random_data-Safe pos =
      let range = data_length-SizeInRange (draws.rand pos % 100) (draws.rand (pos + 1)) in
      let n = data_length (draws.rand pos % 100) (draws.rand (pos + 1)) in
      (
        letters-Safe b'a' n (pos + 2) (omega arith) (omega arith) (positive_size n range)
            (small_size n range),
        length-letters b'a' n (pos + 2) (positive_size n range),
        range,
        read_value-letters b'a' n (pos + 2) (omega arith),
      )
