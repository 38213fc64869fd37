-- ===== src/Text/Decimal.antt =====
-- A number is read back from its decimal print.
use hw6_csci.Base.{
  ℕ, zero, suc, ◌+◌, ◌*◌, ◌/◌, ◌%◌, ◌^◌, ◌≤◌, ◌<◌, ◌≡◌, ◌∙◌, Bool, true, false, [], ◌∷◌, ◌++◌,
  arith, Bytes, ltb, ok, fault, Fault, append-nil, ap, Bool-cases, inl, inr, if◌then◌else◌,
  append_assoc,
}
use native.Mathlib.Nat.{pow-suc}
use hw6_csci.Text.{
  is_digit, print_digits, to_string, scan_digits, scan_sign, skip_spaces, read_u32, clamp_u32, stoi,
}
use hw6_csci.Text.Split.{Lacks, is_any_of, Lacks-append}

tenth-lt : (fuel n : ℕ) → n < 10 ^ suc fuel → n / 10 < 10 ^ fuel
tenth-lt fuel n h = let e : 10 ^ suc fuel ≡ 10 ^ fuel * 10 = pow-suc 10 fuel in omega arith

some_fuel : (fuel n : ℕ) → n < 10 ^ suc fuel → 10 ≤ n → 0 < fuel
some_fuel zero n h big = absurd (omega arith)
some_fuel (suc fuel) n h big = omega arith

-- The digits of a number, read from the left, come to the number.
scan-print_digits :
    (fuel n : ℕ) (any : Bool) (rest : Bytes)
    → n < 10 ^ fuel
    → 0 < fuel
    → scan_digits (print_digits fuel n ++ rest) 0 any ≡ scan_digits rest n true
unfolding print_digits scan_digits
scan-print_digits zero n any rest h pos = absurd (omega arith)
scan-print_digits (suc fuel) n any rest h pos = elim (Bool-cases (ltb n 10)) [
  | inl e ↦ rw e (ground arith)
  | inr e ↦
      rw
        (
          e,
          append_assoc,
          scan-print_digits fuel (n / 10) any ((b'0' + n % 10) ∷ rest) (tenth-lt fuel n h)
              (some_fuel fuel n h (ground arith)),
        )
        (ground arith)
]

print_digits-cons :
    (fuel n : ℕ)
    → n < 10 ^ fuel
    → 0 < fuel
    → (c : ℕ) × (s : Bytes) × (print_digits fuel n ≡ c ∷ s) × (is_digit c ≡ true)
unfolding print_digits
print_digits-cons zero n h pos = absurd (omega arith)
print_digits-cons (suc fuel) n h pos = elim (Bool-cases (ltb n 10)) [
  | inl e ↦ (b'0' + n, [], rw e, ground arith)
  | inr e ↦
      let (c, s, f, d) =
        print_digits-cons fuel (n / 10) (tenth-lt fuel n h) (some_fuel fuel n h (ground arith)) in
      (c, s ++ (b'0' + n % 10) ∷ [], rw (e, f), d)
]

print_digits-Lacks :
    (seps : Bytes)
    → ((c : ℕ) → is_digit c ≡ true → is_any_of seps c ≡ false)
    → (fuel n : ℕ) → Lacks seps (print_digits fuel n)
unfolding print_digits
print_digits-Lacks seps no_digit zero n = tt
print_digits-Lacks seps no_digit (suc fuel) n = elim (Bool-cases (ltb n 10)) [
  | inl e ↦ rw e (no_digit (b'0' + n) (ground arith), tt)
  | inr e ↦ rw e (
      Lacks-append seps (print_digits fuel (n / 10)) ((b'0' + n % 10) ∷ [])
        (print_digits-Lacks seps no_digit fuel (n / 10))
        (no_digit (b'0' + n % 10) (ground arith), tt))
]

pub to_string-Lacks :
    (seps : Bytes)
    → ((c : ℕ) → is_digit c ≡ true → is_any_of seps c ≡ false)
    → (n : ℕ) → Lacks seps (to_string n)
unfolding to_string
to_string-Lacks seps no_digit n = print_digits-Lacks seps no_digit 20 n

-- Neither a sign nor a space stands in front of a digit.
digit_first :
    (c : ℕ) (s : Bytes)
    → is_digit c ≡ true
    → scan_sign (skip_spaces (c ∷ s))
      ≡ (false, (scan_digits (c ∷ s) 0 false).0, (scan_digits (c ∷ s) 0 false).1)
unfolding scan_sign skip_spaces
digit_first c s d = ground arith

read_first :
    (c : ℕ) (s : Bytes)
    → is_digit c ≡ true
    → read_u32 (c ∷ s) ≡ ok (clamp_u32 (scan_sign (skip_spaces (c ∷ s))))
unfolding read_u32 skip_spaces
read_first c s d = ground arith

scanned :
    (c : ℕ) (s rest : Bytes) (n : ℕ)
    → scan_digits (c ∷ s ++ rest) 0 false ≡ scan_digits rest n true
    → ◌≡◌ {A = Bool × ℕ × Bool}
        (false, (scan_digits (c ∷ s ++ rest) 0 false).0, (scan_digits (c ∷ s ++ rest) 0 false).1)
        (false, (scan_digits rest n true).0, (scan_digits rest n true).1)
scanned c s rest n e = ap (λ (r : ℕ × Bool). (false, r.0, r.1)) e

pub scan-to_string :
    (n : ℕ) (rest : Bytes)
    → n < 2 ^ 32
    → scan_sign (skip_spaces (to_string n ++ rest))
      ≡ (false, (scan_digits rest n true).0, (scan_digits rest n true).1)
unfolding to_string
scan-to_string n rest h =
    let (c, s, e, d) = print_digits-cons 20 n (omega arith) (omega arith) in
    let run = scan-print_digits 20 n false rest (omega arith) (omega arith) in
    rw e (digit_first c (s ++ rest) d ∙ scanned c s rest n (rw e at run))

-- A `uint32_t` is read back from its decimal print by `>>`.
pub read_u32-to_string : (n : ℕ) → n < 2 ^ 32 → read_u32 (to_string n) ≡ ok n
unfolding scan_digits to_string
read_u32-to_string n h =
    let (c, s, e, d) = print_digits-cons 20 n (omega arith) (omega arith) in
    let run : scan_sign (skip_spaces (to_string n)) ≡ (false, n, true) =
      rw (append-nil (to_string n)) at (scan-to_string n [] h) in
    rw (e, read_first c s d, ← e, run) (ground arith)

-- For a number below 2^32, `stoi` reads the print of a number below 2^31 back, and throws at
-- that of any other.
pub stoi-to_string :
    (n : ℕ)
    → n < 2 ^ 32
    → stoi (to_string n) ≡ (if ltb n (2 ^ 31) then ok n else fault Fault.out_of_range)
unfolding stoi scan_digits
stoi-to_string n h = ground (arith, append-nil (to_string n), scan-to_string n [] h)
