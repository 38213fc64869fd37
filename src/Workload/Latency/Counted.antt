-- ===== src/Workload/Latency/Counted.antt =====
-- What the map of the times holds after any requests.
use hw6_csci.Base.{
  ℕ, zero, suc, ◌+◌, ◌/◌, ◌<◌, ◌≤◌, ◌≡◌, refl, sym, ◌∙◌, inl, inr, true, false, List, [], ◌∷◌, ◌++◌,
  ◌==◌, ltb, length, length-append, if◌then◌else◌, arith, ok, Bool-cases,
}
use hw6_csci.Text.{at}
use hw6_csci.Workload.Latency.{TimesMap, add_time, add_times, backwards, top_five_percentile}

abbrev pub occurrences : ℕ → List ℕ → ℕ
occurrences t [] = 0
occurrences t (u ∷ ts) = let rest = occurrences t ts in if t == u then rest + 1 else rest

abbrev pub count_at : ℕ → TimesMap → ℕ
count_at t [] = 0
count_at t ((u, n) ∷ m) = let rest = count_at t m in if t == u then n else rest

-- The keys of the list are greater than `u`, and in their order.
abbrev pub Above : ℕ → TimesMap → Type 0
Above u [] = Unit
Above u ((v, n) ∷ m) = (u < v) × Above v m

abbrev pub Ascending : TimesMap → Type 0
Ascending [] = Unit
Ascending ((u, n) ∷ m) = Above u m

absent : (t u : ℕ) (m : TimesMap) → t ≤ u → Above u m → count_at t m ≡ 0
absent t u [] less above = refl
absent t u ((v, n) ∷ m) less above =
    let other : (t == v) ≡ false = ground arith in
    let rest = absent t v m (omega arith) above.1 in rw (other, rest)

add_time-Above : (t u : ℕ) (m : TimesMap) → u < t → Above u m → Above u (add_time t m)
unfolding add_time
add_time-Above t u [] less above = (less, tt)
add_time-Above t u ((v, n) ∷ m) less above = elim (Bool-cases (t == v)) [
  | inl same ↦ rw same above
  | inr other ↦ elim (Bool-cases (ltb t v)) [
    | inl before ↦ rw (other, before) (less, (ground arith, above.1))
    | inr behind ↦ rw (other, behind) (above.0, add_time-Above t v m (ground arith) above.1)
  ]
]

add_time-Ascending : (t : ℕ) (m : TimesMap) → Ascending m → Ascending (add_time t m)
unfolding add_time
add_time-Ascending t [] up = tt
add_time-Ascending t ((v, n) ∷ m) up = elim (Bool-cases (t == v)) [
  | inl same ↦ rw same up
  | inr other ↦ elim (Bool-cases (ltb t v)) [
    | inl before ↦ rw (other, before) (ground arith, up)
    | inr behind ↦ rw (other, behind) (add_time-Above t v m (ground arith) up)
  ]
]

Above-Ascending : (u : ℕ) (m : TimesMap) → Above u m → Ascending m
Above-Ascending u [] above = tt
Above-Ascending u ((v, n) ∷ m) above = above.1

count_at-add_time :
    (s t : ℕ) (m : TimesMap)
    → Ascending m
    → count_at s (add_time t m) ≡ (if s == t then count_at s m + 1 else count_at s m)
unfolding add_time
count_at-add_time s t [] up = elim (Bool-cases (s == t)) [ inl e ↦ rw e | inr e ↦ rw e ]
count_at-add_time s t ((v, n) ∷ m) up = elim (Bool-cases (t == v)) [
  | inl same ↦ ground arith
  | inr other ↦ elim (Bool-cases (ltb t v)) [
    | inl before ↦ rw (other, before) (ground (arith, absent s v m))
    | inr behind ↦
        rw (other, behind) (ground (arith, count_at-add_time s t m (Above-Ascending v m up)))
  ]
]

add_times-Ascending : (ts : List ℕ) (m : TimesMap) → Ascending m → Ascending (add_times ts m)
unfolding add_times
add_times-Ascending [] m up = up
add_times-Ascending (t ∷ ts) m up =
    add_times-Ascending ts (add_time t m) (add_time-Ascending t m up)

count_at-add_times :
    (s : ℕ) (ts : List ℕ) (m : TimesMap)
    → Ascending m
    → count_at s (add_times ts m) ≡ occurrences s ts + count_at s m
unfolding add_times
count_at-add_times s [] m up = omega arith
count_at-add_times s (t ∷ ts) m up =
    let rest = count_at-add_times s ts (add_time t m) (add_time-Ascending t m up) in
    let first = count_at-add_time s t m up in ground arith

-- How many entries have a greater key.
abbrev pub later : ℕ → TimesMap → ℕ
later t [] = 0
later t ((u, n) ∷ m) = let rest = later t m in if ltb t u then rest + 1 else rest

Above-less : (t u : ℕ) (m : TimesMap) → t < u → Above u m → Above t m
Above-less t u [] less above = tt
Above-less t u ((v, n) ∷ m) less above = (omega arith, above.1)

all_later : (t : ℕ) (m : TimesMap) → Above t m → later t m ≡ length m
all_later t [] above = refl
all_later t ((u, n) ∷ m) above =
    let rest = all_later t m (Above-less t u m above.0 above.1) in
    let less : ltb t u ≡ true = ground arith in rw less (omega arith)

length-backwards : (m : TimesMap) → length (backwards m) ≡ length m
unfolding backwards
length-backwards [] = refl
length-backwards ((u, n) ∷ m) =
    omega (arith, length-backwards m, length-append (backwards m) (u ∷ []))

at-append : (xs : List ℕ) (x k : ℕ) → k < length xs → at (xs ++ x ∷ []) k ≡ at xs k
unfolding at
at-append [] x k less = absurd (omega arith)
at-append (y ∷ xs) x zero less = refl
at-append (y ∷ xs) x (suc k) less = at-append xs x k (omega arith)

at-last : (xs : List ℕ) (x : ℕ) → at (xs ++ x ∷ []) (length xs) ≡ ok x
unfolding at
at-last [] x = refl
at-last (y ∷ xs) x = at-last xs x

-- The entry at a place from the end, which is greater than all that is below the map.
abbrev At : TimesMap → ℕ → ℕ → Type 0
At m k t = (at (backwards m) k ≡ ok t) × (later t m ≡ k) × ((u : ℕ) → Above u m → u < t)

last-At : (u n k : ℕ) (m : TimesMap) → Above u m → k ≡ length m → At ((u, n) ∷ m) k u
unfolding backwards
last-At u n k m above same =
    let size = length-backwards m in
    let place : k ≡ length (backwards m) = omega arith in
    let itself : ltb u u ≡ false = ground arith in
    (
      rw place (at-last (backwards m) u),
      rw itself (all_later u m above ∙ sym same),
      λ w above'. above'.0,
    )

later-At : (m : TimesMap) (k : ℕ) → Ascending m → k < length m → (t : ℕ) × At m k t
unfolding backwards
later-At [] k up less = absurd (omega arith)
later-At ((u, n) ∷ m) k up less = elim (Bool-cases (ltb k (length m))) [
  | inr full ↦ (u, last-At u n k m up (ground arith))
  | inl inner ↦
      let size = length-backwards m in
      let (t, (e, places, greatest)) = later-At m k (Above-Ascending u m up) (ground arith) in
      let above : u < t = greatest u up in
      let not_later : ltb t u ≡ false = ground arith in
      (
        t,
        (
          at-append (backwards m) u k (ground arith) ∙ e,
          rw not_later places,
          λ w above'. omega (arith, above'.0),
        ),
      )
]

add_time-some : (t : ℕ) (m : TimesMap) → 0 < length (add_time t m)
unfolding add_time
add_time-some t [] = omega arith
add_time-some t ((u, n) ∷ m) = ground arith

add_times-some : (ts : List ℕ) (m : TimesMap) → 0 < length m → 0 < length (add_times ts m)
unfolding add_times
add_times-some [] m some_time = some_time
add_times-some (t ∷ ts) m some_time = add_times-some ts (add_time t m) (add_time-some t m)

some_entries : (t : ℕ) (ts : List ℕ) → 0 < length (add_times (t ∷ ts) [])
unfolding add_times
some_entries t ts = add_times-some ts (add_time t []) (add_time-some t [])

twentieth : (n : ℕ) → 0 < n → n / 20 < n
twentieth n pos = omega arith

-- After one request or more, the map of the times is in order and holds of each time how many
-- requests took it; and the time that `baseline_performance` takes from it is in it, with as
-- many different times above as a twentieth of their number, rounded down.
pub top_five_percentile-later :
    (t : ℕ) (ts : List ℕ)
    → let m = add_times (t ∷ ts) [] in
      Ascending m
      × ((s : ℕ) → count_at s m ≡ occurrences s (t ∷ ts))
      × (p : ℕ) × (top_five_percentile m ≡ ok p)
      × (later p m ≡ length m / 20)
unfolding top_five_percentile
top_five_percentile-later t ts =
    let m = add_times (t ∷ ts) [] in
    let up = add_times-Ascending (t ∷ ts) [] tt in
    let some_time : 0 < length m = some_entries t ts in
    let (p, (e, places, _)) = later-At m (length m / 20) up (twentieth (length m) some_time) in
    (up, λ s. omega (arith, count_at-add_times s (t ∷ ts) [] tt), p, e, places)
