-- ===== src/Workload/Loops.antt =====
-- The loops of test_generate_workload.cc: `cache_warmup`, and `baseline_latencies` without its times.
-- What they draw does not depend on the replies: a loop gives the calls that it makes, in turn, and
-- the counters are read off the replies.
use hw6_csci.Base.{
  ℕ, zero, suc, ◌+◌, ◌%◌, Bool, true, false, ◌||◌, List, [], ◌∷◌, ◌++◌, ◌==◌, ltb, length, none,
  some, Bytes, Fault, Outcome, ok, fault, ◌>>=◌,
}
use hw6_csci.Interface.{Method, Reply}
use hw6_csci.Workload.{
  Draws, Call, get_call, set_call, delete_call, select_key_get, generate_random_data,
  generate_random_key, generate_request,
}

abbrev pub cache_size : ℕ
cache_size = 1024

-- `if (set_chance > 10 || keys_in_use.size () == 0)`
abbrev pub makes_set : ℕ → List Bytes → Bool
makes_set r keys = ltb 10 (r % 100) || length keys == 0

abbrev pub to_method : Call → Method
to_method (get_call key) = Method.get key
to_method (set_call text key n) = Method.set key text n
to_method (delete_call key) = Method.del key

-- `total_gets` and `get_hits`
pub record Hits : Type 0 where
  pub total_gets : ℕ
  pub get_hits : ℕ

unfoldable pub count : List (Outcome Reply) → Hits
count [] = record { total_gets = 0; get_hits = 0 }
count (ok (Reply.got none) ∷ rs) = let h = count rs in record h { total_gets = h.total_gets + 1 }
count (ok (Reply.got (some _)) ∷ rs) =
    let h = count rs in record { total_gets = h.total_gets + 1; get_hits = h.get_hits + 1 }
count (r ∷ rs) = count rs

module _ (draws : Draws) where
  -- `sent` is `size_of_data_generated`. The rounds have a bound.
  unfoldable pub cache_warmup : ℕ → List Bytes → ℕ → ℕ → Outcome (List Method × List Bytes × ℕ)
  cache_warmup zero keys sent pos = fault Fault.out_of_fuel
  cache_warmup (suc fuel) keys sent pos = elim (ltb sent cache_size) [
    | false ↦ ok ([], keys, pos)
    | true ↦ elim (makes_set (draws.rand pos) keys) [
      | true ↦
          let (text, n, pos1) = generate_random_data draws (pos + 1) in
          let (key, pos2) = generate_random_key draws 10 pos1 in
          do
            (ms, keys', pos') ← cache_warmup fuel (keys ++ key ∷ []) (sent + n) pos2
            ok (Method.set key text n ∷ ms, keys', pos')
      | false ↦ do
        key ← select_key_get (draws.fraction (pos + 1)) keys
        (ms, keys', pos') ← cache_warmup fuel keys sent (pos + 2)
        ok (Method.get key ∷ ms, keys', pos')
    ]
  ]

  -- `for (int i = 0; i < nreq; i++)`
  unfoldable pub requests : ℕ → List Bytes → ℕ → Outcome (List Method × List Bytes × ℕ)
  requests zero keys pos = ok ([], keys, pos)
  requests (suc nreq) keys pos = do
    (request, keys1, pos1) ← generate_request draws keys pos
    (ms, keys', pos') ← requests nreq keys1 pos1
    ok (to_method request ∷ ms, keys', pos')

  -- The warmup on one client, and then the requests of one thread on another.
  unfoldable pub calls_made : ℕ → ℕ → Outcome (List Method)
  calls_made fuel nreq = do
    (warm, keys, pos) ← cache_warmup fuel [] 0 0
    (ms, _, _) ← requests nreq keys pos
    ok (warm ++ ms)
