-- ===== src/Workload/Warm.antt =====
-- The loops from no keys in use on, and what their calls may be.
use hw6_csci.Base.{
  ℕ, zero, suc, ◌+◌, ◌*◌, ◌%◌, ◌<◌, ◌≤◌, ◌≡◌, refl, ◌⊎◌, inl, inr, true, false, List, [], ◌∷◌, ◌++◌,
  arith, ltb, length, Bytes, ok, Bool-cases,
}
use hw6_csci.Interface.{Method}
use hw6_csci.Interface.Linked.{Sendable}
use hw6_csci.Workload.{Draws, letters, generate_random_data, generate_random_key}
use hw6_csci.Workload.Letters.{SizeInRange, letters-Safe, random_data-Safe}
use hw6_csci.Workload.Safe.{SafeKeys, SafeKeys-snoc, select_key_get-Safe}
use hw6_csci.Workload.Loops.{cache_size, makes_set, cache_warmup}

-- The sizes of the `set`s, together.
abbrev pub bytes_set : List Method → ℕ
bytes_set [] = 0
bytes_set (Method.set key text n ∷ ms) = n + bytes_set ms
bytes_set (m ∷ ms) = bytes_set ms

-- The warmup has set its bytes, and not many more.
abbrev pub Warmed : ℕ → ℕ → List Method × List Bytes × ℕ → Type 0
Warmed fuel sent (ms, keys, pos) =
    Sendable ms
    × SafeKeys keys
    × (0 < length keys)
    × (cache_size ≤ sent + bytes_set ms)
    × (sent + bytes_set ms < cache_size + 114)
    × (length ms ≤ fuel)

pub size_bounds : (n : ℕ) → SizeInRange n → (2 ≤ n) × (n ≤ 114)
size_bounds n (inl (h, k)) = (h, omega arith)
size_bounds n (inr (inl (h, k))) = (omega arith, omega arith)
size_bounds n (inr (inr (h, k))) = (omega arith, k)

snoc_positive : (keys : List Bytes) (key : Bytes) → 0 < length (keys ++ key ∷ [])
snoc_positive [] key = omega arith
snoc_positive (k ∷ keys) key = omega arith

-- Rounds for a number of bytes that are still to be set, with up to `g` `get`s before each `set`.
rounds : ℕ → ℕ → ℕ
rounds g left = left * suc g

rounds-suc : (g left : ℕ) → rounds g (suc left) ≡ rounds g left + suc g
unfolding rounds
rounds-suc g left = omega arith

-- `g + 1` rounds for each byte of the cache's size, and for one more.
pub warm_rounds : ℕ → ℕ
warm_rounds g = rounds g cache_size + suc g

module _ (draws : Draws) where
  -- At most `g` draws, each two behind the one before, from `i` on, choose a `get`.
  abbrev pub SetsWithin : ℕ → ℕ → Type 0
  SetsWithin zero i = 10 < draws.rand i % 100
  SetsWithin (suc g) i = (10 < draws.rand i % 100) ⊎ SetsWithin g (i + 2)

  later_set :
      (j pos : ℕ)
      → SetsWithin j pos
      → draws.rand pos % 100 ≤ 10
      → (j' : ℕ) × (j ≡ suc j') × SetsWithin j' (pos + 2)
  later_set zero pos h drawn = absurd (omega arith)
  later_set (suc j) pos (inl h) drawn = absurd (omega arith)
  later_set (suc j) pos (inr h) drawn = (j, refl, h)

  module _ (g : ℕ) (sets_follow : (i : ℕ) → SetsWithin g i) where
    -- Rounds that are enough, where up to `j` `get`s come before the next `set`.
    abbrev Enough : ℕ → ℕ → ℕ → Type 0
    Enough fuel sent pos =
        (j : ℕ) × (left : ℕ) × SetsWithin j pos
        × (cache_size ≤ sent + left)
        × (j + rounds g left < fuel)

    abbrev Warms : ℕ → List Bytes → ℕ → ℕ → Type 0
    Warms fuel keys sent pos =
        (r : List Method × List Bytes × ℕ) × (cache_warmup draws fuel keys sent pos ≡ ok r)
        × Warmed fuel sent r

    -- What the rest of the loop comes to, for any keys, bytes and draws.
    abbrev Rest : ℕ → Type 0
    Rest fuel =
        (keys : List Bytes) (sent pos : ℕ)
        → SafeKeys keys
        → (0 < sent → 0 < length keys)
        → sent < cache_size + 114
        → Enough fuel sent pos
        → Warms fuel keys sent pos

    -- After a `set`, with any number of `get`s before the next.
    after_set :
        (fuel sent pos n pos' : ℕ)
        → Enough (suc fuel) sent pos
        → sent < cache_size
        → 2 ≤ n
        → Enough fuel (sent + n) pos'
    after_set fuel sent pos n pos' (j, zero, within, bytes, few) below least = absurd (omega arith)
    after_set fuel sent pos n pos' (j, suc left, within, bytes, few) below least =
        (g, left, sets_follow pos', omega arith, omega (arith, rounds-suc g left))

    sets_round :
        (fuel : ℕ) (keys : List Bytes) (sent pos : ℕ)
        → Rest fuel
        → SafeKeys keys
        → Enough (suc fuel) sent pos
        → ltb sent cache_size ≡ true
        → makes_set (draws.rand pos) keys ≡ true
        → Warms (suc fuel) keys sent pos
    unfolding cache_warmup generate_random_key
    sets_round fuel keys sent pos rest safe enough more sets =
        let (text, n, pos1) = generate_random_data draws (pos + 1) in
        let (text_safe, size, range, ends) = random_data-Safe draws (pos + 1) in
        let (least, most) = size_bounds n range in
        let (key, pos2) = letters draws b'A' 10 pos1 in
        let key_safe =
          letters-Safe draws b'A' 10 pos1 (omega arith) (omega arith) (omega arith) (omega arith) in
        let below : sent < cache_size = ground arith in
        let ((ms, keys', pos'), run, (made, keys_safe, some_key, done, bound, few)) =
          rest (keys ++ key ∷ []) (sent + n) pos2 (SafeKeys-snoc draws keys key safe key_safe)
            (λ _. snoc_positive keys key) (omega arith)
            (after_set fuel sent pos n pos2 enough below least) in
        (
          (Method.set key text n ∷ ms, keys', pos'),
          rw (more, cache_warmup, sets, run),
          (
            ((key_safe, text_safe, ends, omega arith), made),
            keys_safe,
            some_key,
            omega arith,
            omega arith,
            omega arith,
          ),
        )

    gets_round :
        (fuel : ℕ) (keys : List Bytes) (sent pos : ℕ)
        → Rest fuel
        → SafeKeys keys
        → Enough (suc fuel) sent pos
        → ltb sent cache_size ≡ true
        → makes_set (draws.rand pos) keys ≡ false
        → Warms (suc fuel) keys sent pos
    unfolding cache_warmup
    gets_round fuel keys sent pos rest safe enough more gets =
        let below : sent < cache_size = ground arith in
        let drawn : draws.rand pos % 100 ≤ 10 = ground arith in
        let some_key : 0 < length keys = ground arith in
        let (j, left, within, bytes, few_rounds) = enough in
        let (j', one_less, next) = later_set j pos within drawn in
        let (key, picked, key_safe) =
          select_key_get-Safe (draws.fraction (pos + 1)) keys safe some_key in
        let ((ms, keys', pos'), run, (made, keys_safe, some_key', done, bound, few)) =
          rest keys sent (pos + 2) safe (λ _. some_key) (omega arith)
            (j', left, next, bytes, omega arith) in
        (
          (Method.get key ∷ ms, keys', pos'),
          rw (more, cache_warmup, gets, picked, run),
          ((key_safe, made), keys_safe, some_key', done, bound, omega arith),
        )

    warms : (fuel : ℕ) → Rest fuel
    unfolding cache_warmup
    warms zero keys sent pos safe some_key small enough = absurd (omega arith)
    warms (suc fuel) keys sent pos safe some_key small enough =
        elim (Bool-cases (ltb sent cache_size)) [
          | inr full ↦ (
            ([], keys, pos),
            rw (full, cache_warmup) refl,
            (tt, safe, some_key (ground arith), ground arith, ground arith, omega arith),
          )
          | inl more ↦ elim (Bool-cases (makes_set (draws.rand pos) keys)) [
            | inl sets ↦ sets_round fuel keys sent pos (warms fuel) safe enough more sets
            | inr gets ↦ gets_round fuel keys sent pos (warms fuel) safe enough more gets
          ]
        ]

    -- Where, from any draw on, one of `g + 1` draws, each two behind the one before, is more
    -- than 10 of 100, so that no more than `g` `get`s follow one another, the warmup from no
    -- keys in use ends within 1025 times `g + 1` rounds; its calls set 1024 to 1137 bytes, at
    -- least one key is in use then, every key and text is of up to 2000 visible characters
    -- without a slash, comma or colon, no text has a zero byte, and no size is over an `int`.
    pub cache_warmup-Warmed :
        (r : List Method × List Bytes × ℕ) × (cache_warmup draws (warm_rounds g) [] 0 0 ≡ ok r)
        × Warmed (warm_rounds g) 0 r
    unfolding warm_rounds
    cache_warmup-Warmed =
        warms (warm_rounds g) [] 0 0 tt (λ h. absurd (omega arith)) (omega arith)
          (g, cache_size, sets_follow 0, omega arith, omega arith)
