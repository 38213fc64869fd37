-- ===== src/Workload/Latency.antt =====
-- The times of the requests in test_generate_workload.cc: `times_map`, an ordered map from each time to
-- how many requests took it, and what `baseline_performance` reads from it. A time is a `double` of
-- hundredths of a millisecond, here the number of hundredths. The map is the list of its entries in
-- their order.
pub mod Counted
use hw6_csci.Base.{
  ℕ, ◌+◌, ◌/◌, Bool, List, [], ◌∷◌, ◌++◌, ◌==◌, ltb, length, if◌then◌else◌, Outcome,
}
use hw6_csci.Text.{at}

abbrev pub TimesMap : Type 0
TimesMap = List (ℕ × ℕ)

-- `times_map.find (time)`, and `emplace` or `+= 1`
unfoldable pub add_time : ℕ → TimesMap → TimesMap
add_time t [] = (t, 1) ∷ []
add_time t ((u, n) ∷ m) =
    let rest = add_time t m in
    if t == u then (u, n + 1) ∷ m else if ltb t u then (t, 1) ∷ (u, n) ∷ m else (u, n) ∷ rest

-- The requests one after the other.
unfoldable pub add_times : List ℕ → TimesMap → TimesMap
add_times [] m = m
add_times (t ∷ ts) m = add_times ts (add_time t m)

-- The keys from `rbegin` on.
unfoldable pub backwards : TimesMap → List ℕ
backwards [] = []
backwards ((u, n) ∷ m) = backwards m ++ u ∷ []

-- `times_map.size () * 0.05`, as an `int`, from the end.
unfoldable pub top_five_percentile : TimesMap → Outcome ℕ
top_five_percentile m = at (backwards m) (length m / 20)
