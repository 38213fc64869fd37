-- ===== src/Workload/Tests.antt =====
-- The generator on draws that choose to set a key.
use hw6_csci.Base.{
  ℕ, zero, suc, ◌/◌, ◌%◌, ◌≤◌, length, ltb, inl, inr, Bool-cases, ◌≡◌, refl, true, false, List, [],
  ◌∷◌, Bytes, codes, arith, ok,
}
use hw6_csci.Client.{Client}
use hw6_csci.Workload.{Fraction, Draws, generate_request}
use hw6_csci.Workload.Safe.{SafeKeys, Generated, generate_request-Generated}
use hw6_csci.Workload.Loops.{cache_warmup}
use hw6_csci.Workload.Warm.{Warmed, SetsWithin, warm_rounds, cache_warmup-Warmed}
use hw6_csci.Workload.Latency.{TimesMap, add_times, top_five_percentile}
use hw6_csci.Workload.Latency.Counted.{
  Ascending, count_at, occurrences, later, top_five_percentile-later,
}
use hw6_csci.Interface.{Method}

pub not_one : (false ≡ true) → (n : ℕ) → 0 ≡ n
not_one e n = cc

abbrev zero_fraction : Fraction
zero_fraction = record {
  one = false;
  scaled = λ n. 0;
  scaled_one = not_one;
  scaled_less = λ e n h. h;
}

-- Every `rand ()` is 99 at first, and 2 from the third on.
abbrev sample_rand : ℕ → ℕ
sample_rand zero = 99
sample_rand (suc zero) = 0
sample_rand (suc (suc zero)) = 1
sample_rand (suc (suc (suc _))) = 2

abbrev sample_draws : Draws
sample_draws = record { rand = sample_rand; fraction = λ n. zero_fraction }

abbrev keys : List Bytes
keys = codes "AAAAAAAAA" ∷ []

keys-Safe : SafeKeys keys
keys-Safe = ((ground arith, ground arith, refl, omega arith), tt)

generate_request-Generated_example :
    Generated sample_draws keys 0 (generate_request sample_draws keys 0)
generate_request-Generated_example =
    generate_request-Generated sample_draws keys 0 keys-Safe (omega arith)

abbrev client : Client
client = record { host = codes "localhost"; get_val = [] }

-- Six draws in a row may choose a `get`, but no seven.
abbrev mixed_draws : Draws
mixed_draws = record { rand = λ i. i % 100; fraction = λ n. zero_fraction }

sets_follow : (i : ℕ) → SetsWithin mixed_draws 6 i
sets_follow i = elim (Bool-cases (ltb 10 (i % 100))) [
  | inl e ↦ inl (ground arith)
  | inr e ↦
      let gets : i % 100 ≤ 10 = ground arith in inr (inr (inr (inr (inr (inr (omega arith))))))
]

cache_warmup-Warmed_example :
    (r : List Method × List Bytes × ℕ) × (cache_warmup mixed_draws (warm_rounds 6) [] 0 0 ≡ ok r)
    × Warmed (warm_rounds 6) 0 r
cache_warmup-Warmed_example = cache_warmup-Warmed mixed_draws 6 sets_follow

abbrev three_times : TimesMap
three_times = add_times (3 ∷ 5 ∷ 3 ∷ []) []

top_five_percentile-later_example :
    Ascending three_times
    × ((s : ℕ) → count_at s three_times ≡ occurrences s (3 ∷ 5 ∷ 3 ∷ []))
    × (p : ℕ) × (top_five_percentile three_times ≡ ok p)
    × (later p three_times ≡ length three_times / 20)
top_five_percentile-later_example = top_five_percentile-later 3 (5 ∷ 3 ∷ [])
