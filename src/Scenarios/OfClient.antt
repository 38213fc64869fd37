-- ===== src/Scenarios/OfClient.antt =====
-- The tests that `main` of test_cache_client.cc runs, over the interface. Each makes a client of
-- its own; the server, which has an evictor, keeps its cache from one test to the next.
use hw6_csci.Base.{Outcome, ◌>>=◌}
use hw6_csci.Interface.{CacheInterface}
use hw6_csci.Scenarios.{
  cache_set, cache_get, cache_del, cache_space_used, cache_reset, cache_get_failure,
}

module _ (I : CacheInterface) where
  unfoldable pub test_basic_operation : I.State → Outcome I.State
  test_basic_operation items = do
    items ← cache_space_used I 0 items
    items ← cache_set I "Abcd" "ItemA" 5 items
    items ← cache_space_used I 5 items
    items ← cache_get I "ItemA" 5 items
    items ← cache_del I "ItemA" items
    items ← cache_space_used I 0 items
    items ← cache_set I "Bc" "ItemB" 3 items
    items ← cache_reset I items
    cache_space_used I 0 items

  unfoldable pub test_modify_value : I.State → Outcome I.State
  test_modify_value items = do
    items ← cache_set I "Abcd" "ItemA" 5 items
    items ← cache_set I "Ab" "ItemA" 3 items
    items ← cache_space_used I 3 items
    items ← cache_get I "ItemA" 3 items
    cache_reset I items

  unfoldable pub test_set_object_cache_size : I.State → Outcome I.State
  test_set_object_cache_size items = do
    items ← cache_set I "Abcdefghi" "ItemA" 10 items
    items ← cache_get I "ItemA" 10 items
    items ← cache_space_used I 10 items
    cache_reset I items

  unfoldable pub test_cache_bounds : I.State → Outcome I.State
  test_cache_bounds items = do
    items ← cache_set I "Abcdefghij" "ItemA" 11 items
    items ← cache_space_used I 0 items
    cache_reset I items

  unfoldable pub test_overflow_no_evictor : I.State → Outcome I.State
  test_overflow_no_evictor items = do
    items ← cache_set I "Abcd" "ItemA" 5 items
    items ← cache_set I "Bc" "ItemB" 3 items
    items ← cache_set I "Cde" "ItemC" 4 items
    items ← cache_space_used I 8 items
    cache_reset I items

  unfoldable pub test_get_non_existant_item : I.State → Outcome I.State
  test_get_non_existant_item items = do
    items ← cache_get_failure I "ItemA" items
    items ← cache_space_used I 0 items
    items ← cache_reset I items
    items ← cache_set I "Abcd" "ItemA" 5 items
    items ← cache_del I "ItemA" items
    items ← cache_get_failure I "ItemA" items
    items ← cache_space_used I 0 items
    cache_reset I items
