-- ===== src/Server/Overtaken.antt =====
-- The `POST` branch of `handle_request` on several threads: the mutex is held for
-- `serverCache->reset` alone, and the `assert` behind it reads the cache without it.
use hw6_csci.Base.{
  ℕ, ◌<◌, ◌≤◌, ◌≡◌, refl, Option, some, List, Bytes, codes, arith, ◌==◌, Fault, Outcome, ok, fault,
  assert, ◌>>◌, bytes_eq_refl, Bytes-discrete,
}
use hw6_csci.Base.Dict.{find, total, total-erase, erase}
use hw6_csci.Evictor.{Evictor}
use hw6_csci.Http.{Http, Status}
use hw6_csci.Text.Split.{Splitter}
use hw6_csci.Cache.{Cache, set, reset, space_used, read_value}
use hw6_csci.Cache.Valid.{IsValid}
use hw6_csci.Cache.Count.{new_total}
use hw6_csci.Cache.Set.{set-fits}
use hw6_csci.Cache.Reads.{reset-IsValid}
use hw6_csci.Server.{post_reset}

module _ (E : Evictor) where
  -- Under the mutex.
  unfoldable pub reset_section : Cache E.State → Cache E.State
  reset_section c = reset E c

  -- Behind it.
  unfoldable pub reset_check : Cache E.State → Outcome (Unit {0})
  reset_check c = assert (space_used E c == 0)

  -- With nothing in between they are the branch of `handle_request`.
  post_reset-sections :
      (H : Http) (B : Splitter) (c : Cache E.State)
      → post_reset E H B (codes "reset") c
        ≡ (reset_check (reset_section c) >> ok (Status.ok, reset_section c))
  unfolding post_reset reset_check reset_section Bytes-discrete
  post_reset-sections H B c = refl

  check_fails : (c : Cache E.State) → 0 < c.current_mem → reset_check c ≡ fault Fault.assertion
  unfolding reset_check space_used
  check_fails c pos = ground arith

  empty_total : (key : Bytes) (n : ℕ) (c : Cache E.State) → new_total key n (reset E c).sizes ≡ n
  unfolding reset total erase
  empty_total key n c = omega arith

  reset_bound : (c : Cache E.State) → (reset E c).maxmem ≡ c.maxmem
  unfolding reset
  reset_bound c = refl

  -- In a valid state, where another thread's `set` of a readable text with 1 to `maxmem` bytes
  -- comes between the section of the mutex in a `POST /reset` and the assertion behind it, the
  -- `set` succeeds and the assertion fails.
  pub overtaken_reset :
      (fuel : ℕ) (key v : Bytes) (val : Option Bytes) (n : ℕ) (c : Cache E.State) (q : List Bytes)
      → IsValid E c q
      → read_value val ≡ ok v
      → 0 < n
      → n ≤ c.maxmem
      → (c' : Cache E.State) × (set E fuel key val n (reset_section c) ≡ ok c')
        × (reset_check c' ≡ fault Fault.assertion)
  unfolding reset_section
  overtaken_reset fuel key v val n c q valid text pos small =
      let empty = (reset-IsValid E c q valid).0 in
      let fits : new_total key n (reset E c).sizes ≤ (reset E c).maxmem =
        omega (arith, empty_total key n c, reset_bound c) in
      let (c', run, valid', stored) = set-fits E fuel key val n (reset E c) q v empty text fits in
      let there : find key c'.sizes ≡ some n =
        ground (arith, stored.sizes_at key, bytes_eq_refl key) in
      let freed = total-erase key n c'.sizes valid'.distinct there in
      (c', run, check_fails c' (omega (arith, valid'.counted, freed)))
