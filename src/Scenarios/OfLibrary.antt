-- ===== src/Scenarios/OfLibrary.antt =====
-- The tests that `main` of test_cache_lib.cc runs. The caches have no evictor and ten bytes.
use hw6_csci.Base.{none, Outcome, ◌>>=◌}
use hw6_csci.Fifo.{Fifo}
use hw6_csci.Fifo.Refinement.{fifo_evictor}
use hw6_csci.Cache.{Cache, make}
use hw6_csci.Interface.{CacheInterface}
use hw6_csci.Interface.Implementations.{library}
use hw6_csci.Scenarios.{
  cache_set, cache_get, cache_del, cache_space_used, cache_reset, cache_get_failure,
}

abbrev pub items_class : CacheInterface
items_class = library fifo_evictor 1

abbrev pub new_items : Cache Fifo
new_items = make 10 none

unfoldable pub test_basic_operation : Outcome (Cache Fifo)
test_basic_operation = do
  items ← cache_space_used items_class 0 new_items
  items ← cache_set items_class "Abcd" "ItemA" 5 items
  items ← cache_space_used items_class 5 items
  items ← cache_get items_class "ItemA" 5 items
  items ← cache_del items_class "ItemA" items
  items ← cache_space_used items_class 0 items
  items ← cache_set items_class "Bc" "ItemB" 3 items
  items ← cache_reset items_class items
  cache_space_used items_class 0 items

unfoldable pub test_modify_value : Outcome (Cache Fifo)
test_modify_value = do
  items ← cache_set items_class "Abcd" "ItemA" 5 new_items
  items ← cache_set items_class "Ab" "ItemA" 3 items
  items ← cache_space_used items_class 3 items
  cache_get items_class "ItemA" 3 items

unfoldable pub test_reduction : Outcome (Cache Fifo)
test_reduction = do
  items ← cache_set items_class "Abc" "ItemA" 4 new_items
  items ← cache_set items_class "Bc" "ItemB" 3 items
  items ← cache_set items_class "Cd" "ItemC" 3 items
  items ← cache_set items_class "A" "ItemA" 2 items
  cache_get items_class "ItemA" 2 items

unfoldable pub test_set_object_cache_size : Outcome (Cache Fifo)
test_set_object_cache_size = do
  items ← cache_set items_class "Abcdefghi" "ItemA" 10 new_items
  cache_space_used items_class 10 items

unfoldable pub test_cache_bounds : Outcome (Cache Fifo)
test_cache_bounds = do
  items ← cache_set items_class "Abcdefghij" "ItemA" 11 new_items
  cache_space_used items_class 0 items

unfoldable pub test_overflow_no_evictor : Outcome (Cache Fifo)
test_overflow_no_evictor = do
  items ← cache_set items_class "Abcd" "ItemA" 5 new_items
  items ← cache_set items_class "Bc" "ItemB" 3 items
  items ← cache_set items_class "Cde" "ItemC" 4 items
  cache_space_used items_class 8 items

unfoldable pub test_get_non_existant_item : Outcome (Cache Fifo)
test_get_non_existant_item = do
  items ← cache_get_failure items_class "ItemA" new_items
  items ← cache_space_used items_class 0 items
  items ← cache_reset items_class items
  items ← cache_set items_class "Abcd" "ItemA" 5 items
  items ← cache_del items_class "ItemA" items
  items ← cache_get_failure items_class "ItemA" items
  cache_space_used items_class 0 items
