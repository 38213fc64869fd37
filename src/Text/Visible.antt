-- ===== src/Text/Visible.antt =====
-- Texts of visible characters, and how long the print of a number is.
use hw6_csci.Base.{
  ℕ, zero, suc, ◌+◌, ◌/◌, ◌%◌, ◌≤◌, ◌≡◌, refl, inl, inr, true, [], ◌∷◌, ◌++◌, arith, Bytes, ltb,
  length, length-append, Bool-cases,
}
use hw6_csci.Text.{all_visible, print_digits, to_string}

pub all_visible-append :
    (s t : Bytes) → all_visible s ≡ true → all_visible t ≡ true → all_visible (s ++ t) ≡ true
all_visible-append [] t h k = k
all_visible-append (c ∷ s) t h k =
    let rest : all_visible s ≡ true = ground arith in ground (arith, all_visible-append s t rest k)

print_digits-visible : (fuel n : ℕ) → all_visible (print_digits fuel n) ≡ true
unfolding print_digits
print_digits-visible zero n = refl
print_digits-visible (suc fuel) n = elim (Bool-cases (ltb n 10)) [
  | inl e ↦ rw e (ground arith)
  | inr e ↦ rw e (
      all_visible-append (print_digits fuel (n / 10)) ((b'0' + n % 10) ∷ [])
        (print_digits-visible fuel (n / 10)) (ground arith))
]

pub to_string-visible : (n : ℕ) → all_visible (to_string n) ≡ true
unfolding to_string
to_string-visible n = print_digits-visible 20 n

length-print_digits : (fuel n : ℕ) → length (print_digits fuel n) ≤ fuel
unfolding print_digits
length-print_digits zero n = omega arith
length-print_digits (suc fuel) n = elim (Bool-cases (ltb n 10)) [
  | inl e ↦ rw e (omega arith)
  | inr e ↦ rw e (
      omega (
        arith,
        length-print_digits fuel (n / 10),
        length-append (print_digits fuel (n / 10)) ((b'0' + n % 10) ∷ []),
      ))
]

pub length-to_string : (n : ℕ) → length (to_string n) ≤ 20
unfolding to_string
length-to_string n = length-print_digits 20 n
