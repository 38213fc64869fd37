-- ===== src/Text.antt =====
-- What the server and the client use of `std::string`, `std::stringstream`, `std::to_string` and
-- `std::stoi`.
pub mod Decimal
pub mod Split
pub mod Visible
use hw6_csci.Base.{
  ℕ, zero, suc, ◌+◌, ◌-◌, ◌*◌, ◌/◌, ◌%◌, ◌^◌, Bool, true, false, not, ◌&&◌, ◌||◌, List, [], ◌∷◌,
  ◌++◌, ltb, leb, ◌==◌, if◌then◌else◌, Bytes, Fault, Outcome, ok, fault, ◌>>=◌, length,
}

abbrev pub is_digit : ℕ → Bool
is_digit c = leb b'0' c && leb c b'9'

-- A printing character of ASCII, other than the space.
abbrev pub is_visible : ℕ → Bool
is_visible c = ltb 32 c && ltb c 127

abbrev pub all_visible : Bytes → Bool
all_visible [] = true
all_visible (c ∷ s) = is_visible c && all_visible s

abbrev pub is_space : ℕ → Bool
is_space c = (leb 9 c && leb c 13) || (c == 32)

-- `std::to_string`, with a bound on the digits.
unfoldable pub print_digits : ℕ → ℕ → Bytes
print_digits zero n = []
print_digits (suc fuel) n =
    let front = print_digits fuel (n / 10) in
    if ltb n 10 then (b'0' + n) ∷ [] else front ++ (b'0' + n % 10) ∷ []

-- Twenty digits hold every `size_t`.
unfoldable pub to_string : ℕ → Bytes
to_string n = print_digits 20 n

-- The number that the digits at the front spell, behind those read already, and whether there are
-- any.
unfoldable pub scan_digits : Bytes → ℕ → Bool → ℕ × Bool
scan_digits [] n any = (n, any)
scan_digits (c ∷ s) n any =
    let rest = scan_digits s (n * 10 + (c - b'0')) true in if is_digit c then rest else (n, any)

unfoldable pub skip_spaces : Bytes → Bytes
skip_spaces [] = []
skip_spaces (c ∷ s) = let rest = skip_spaces s in if is_space c then rest else c ∷ s

-- A text with its sign read: whether it is negative, its magnitude, and whether it has a digit.
unfoldable pub scan_sign : Bytes → Bool × ℕ × Bool
unfolding scan_digits
scan_sign [] = (false, 0, false)
scan_sign (c ∷ s) =
    if c == b'-'
    then (let (n, any) = scan_digits s 0 false in (true, n, any))
    else if c == b'+'
    then (let (n, any) = scan_digits s 0 false in (false, n, any))
    else (let (n, any) = scan_digits (c ∷ s) 0 false in (false, n, any))

-- What `>>` makes of a text with its sign: 0 where there is no digit, the greatest value where it
-- is too great; a sign negates modulo 2^32, as libstdc++ has it.
abbrev pub clamp_u32 : Bool × ℕ × Bool → ℕ
clamp_u32 (negative, n, any) =
    if not any
    then 0
    else if ltb (2 ^ 32 - 1) n
    then 2 ^ 32 - 1
    else if negative
    then (2 ^ 32 - n) % 2 ^ 32
    else n

-- `uint32_t size; ss >> size;`, and the value of `size` then. Where nothing but spaces is in the
-- stream, `>>` fails before it parses and assigns nothing: `size` is read uninitialised.
unfoldable pub read_u32 : Bytes → Outcome ℕ
read_u32 s = elim (skip_spaces s) as (λ _. Outcome ℕ) [
  | [] ↦ fault Fault.uninitialised
  | c ∷ t ↦ ok (clamp_u32 (scan_sign (c ∷ t)))
]

-- `std::stoi`, and the conversion of its `int` to `uint32_t`.
unfoldable pub stoi : Bytes → Outcome ℕ
stoi s =
    let (negative, n, any) = scan_sign (skip_spaces s) in
    if not any
    then fault Fault.invalid_argument
    else if negative
    then (if ltb (2 ^ 31) n then fault Fault.out_of_range else ok ((2 ^ 32 - n) % 2 ^ 32))
    else if ltb (2 ^ 31 - 1) n
    then fault Fault.out_of_range
    else ok n

abbrev pub take : ℕ → Bytes → Bytes
take zero s = []
take (suc n) [] = []
take (suc n) (c ∷ s) = c ∷ take n s

abbrev pub drop : ℕ → Bytes → Bytes
drop zero s = s
drop (suc n) [] = []
drop (suc n) (c ∷ s) = drop n s

-- `s.substr (2, s.size () - 3)`. The subtraction is of `size_t`: for a shorter text it wraps to a
-- count beyond the end.
unfoldable pub unquote : Bytes → Outcome Bytes
unquote s =
    if ltb (length s) 2
    then fault Fault.out_of_range
    else if ltb (length s) 3
    then ok (drop 2 s)
    else ok (take (length s - 3) (drop 2 s))

-- `v[i]` of a vector, undefined past the end.
unfoldable pub at {ℓ} : {A : Type ℓ} → List A → ℕ → Outcome A
at [] i = fault Fault.missing_entry
at (s ∷ v) zero = ok s
at (s ∷ v) (suc i) = at v i
