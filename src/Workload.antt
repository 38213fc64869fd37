-- ===== src/Workload.antt =====
-- The generator of requests of test_generate_workload.cc. What `rand ()` and the exponential
-- distribution draw is an argument: the draws in turn, with the place of the next.
mod Tests
pub mod Letters
pub mod Safe
pub mod Loops
pub mod Warm
pub mod Whole
pub mod Latency
use hw6_csci.Base.{
  ℕ, zero, suc, ◌+◌, ◌-◌, ◌%◌, ◌<◌, ◌≡◌, Bool, true, false, not, List, [], ◌∷◌, ◌++◌, ◌==◌, ltb,
  length, if◌then◌else◌, Bytes, codes, Fault, Outcome, ok, fault, ◌>>=◌, ◌>>◌, assert, arith, refl,
}
use hw6_csci.Text.{at}

-- A `double` from 0 to 1: whether it is 1, and its product with a size, as an `int`.
pub record Fraction : Type 0 where
  pub one : Bool
  pub scaled : ℕ → ℕ
  pub scaled_one : one ≡ true → (n : ℕ) → scaled n ≡ n
  pub scaled_less : one ≡ false → (n : ℕ) → 0 < n → scaled n < n

pub record Draws : Type 0 where
  pub rand : ℕ → ℕ
  pub fraction : ℕ → Fraction

-- `keys_in_use[i]` behind the `assert`
unfoldable pub key_at : List Bytes → ℕ → Outcome Bytes
key_at keys i = assert (ltb i (length keys)) >> at keys i

-- For a fraction of 1 the index is one less, which the `assert` refuses where it is negative.
unfoldable pub select_key_get : Fraction → List Bytes → Outcome Bytes
select_key_get f keys =
    let i = f.scaled (length keys) in
    if f.one then (if i == 0 then fault Fault.assertion else key_at keys (i - 1)) else key_at keys i

unfoldable pub select_key_del : Fraction → List Bytes → Outcome Bytes
select_key_del f keys = key_at keys (f.scaled (length keys))

abbrev pub use_real_key : ℕ → ℕ → Bool
use_real_key fail_prob r = ltb fail_prob (r % 100)

unfoldable pub data_length : ℕ → ℕ → ℕ
data_length size_prob r =
    if ltb size_prob 95 then r % 6 + 2 else if ltb size_prob 99 then r % 35 + 10 else r % 15 + 100

pub data Call : Type 0 where
  get_call : Bytes → Call
  set_call : (data_text key : Bytes) → ℕ → Call
  delete_call : Bytes → Call

abbrev pub dummy_key : Bytes
dummy_key = codes "-A"

module _ (draws : Draws) where
  -- One letter less than the length, in the alphabet from `first` on.
  unfoldable pub letters : ℕ → ℕ → ℕ → Bytes × ℕ
  letters first zero pos = ([], pos)
  letters first (suc zero) pos = ([], pos)
  letters first (suc (suc n)) pos =
      let (s, pos') = letters first (suc n) (pos + 1) in ((first + draws.rand pos % 26) ∷ s, pos')

  unfoldable pub generate_random_data : ℕ → Bytes × ℕ × ℕ
  generate_random_data pos =
      let n = data_length (draws.rand pos % 100) (draws.rand (pos + 1)) in
      let (s, pos') = letters b'a' n (pos + 2) in (s, n, pos')

  unfoldable pub generate_random_key : ℕ → ℕ → Bytes × ℕ
  generate_random_key n pos = letters b'A' n pos

  unfoldable pub generate_get : List Bytes → ℕ → Outcome (Call × List Bytes × ℕ)
  generate_get keys pos =
      if use_real_key 10 (draws.rand pos)
      then (do
        key ← select_key_get (draws.fraction (pos + 1)) keys
        ok (get_call key, keys, pos + 2))
      else ok (get_call dummy_key, keys, pos + 1)

  -- A new key is added to `keys_in_use`.
  unfoldable pub generate_set : List Bytes → ℕ → Outcome (Call × List Bytes × ℕ)
  generate_set keys pos =
      let (text, n, pos') = generate_random_data pos in
      if use_real_key 2 (draws.rand pos')
      then (do
        key ← select_key_get (draws.fraction (pos' + 1)) keys
        ok (set_call text key n, keys, pos' + 2))
      else (let (key, pos'') = generate_random_key 8 (pos' + 1) in
          ok (set_call text key n, keys ++ key ∷ [], pos''))

  unfoldable pub generate_delete : List Bytes → ℕ → Outcome (Call × List Bytes × ℕ)
  generate_delete keys pos =
      if use_real_key 90 (draws.rand pos)
      then (do
        key ← select_key_del (draws.fraction (pos + 1)) keys
        ok (delete_call key, keys, pos + 2))
      else ok (delete_call dummy_key, keys, pos + 1)

  -- `GETPROB` is 67, `SETPROB` 98.
  unfoldable pub generate_request : List Bytes → ℕ → Outcome (Call × List Bytes × ℕ)
  generate_request keys pos =
      let op_prob = draws.rand pos % 100 in
      if ltb op_prob 67
      then generate_get keys (pos + 1)
      else if ltb 98 op_prob
      then generate_set keys (pos + 1)
      else generate_delete keys (pos + 1)
