-- ===== src/Scenarios.antt =====
-- The helpers that the test programs test_cache_lib.cc and test_cache_client.cc share, over any
-- implementation of the interface.
mod Tests
pub mod OfLibrary
pub mod OfClient
use hw6_csci.Base.{ℕ, Bool, none, some, ◌==◌, codes, Fault, Outcome, ok, fault, ◌>>=◌, ◌>>◌, assert}
use Prim.Native.String.{String}
use hw6_csci.Interface.{CacheInterface}

module _ (I : CacheInterface) where
  pub cache_set : String → String → ℕ → I.State → Outcome I.State
  cache_set data_text name size items = I.set (codes name) (codes data_text) size items

  pub cache_get : String → ℕ → I.State → Outcome I.State
  cache_get key target_size items = do
    (got_item, items') ← I.get (codes key) items
    elim got_item [
      | none ↦ fault Fault.assertion
      | some (size, _) ↦ assert (size == target_size) >> ok items'
    ]

  pub cache_del : String → I.State → Outcome I.State
  cache_del key items = do
    (delete_success, items') ← I.del (codes key) items
    assert delete_success
    ok items'

  pub cache_space_used : ℕ → I.State → Outcome I.State
  cache_space_used target_size items = do
    (used_space, items') ← I.space_used items
    assert (used_space == target_size)
    ok items'

  pub cache_reset : I.State → Outcome I.State
  cache_reset items = do
    items' ← I.reset items
    (used_space, items'') ← I.space_used items'
    assert (used_space == 0)
    ok items''

  pub cache_get_failure : String → I.State → Outcome I.State
  cache_get_failure key items = do
    (got_item, items') ← I.get (codes key) items
    elim got_item [ none ↦ ok items' | some _ ↦ fault Fault.assertion ]
