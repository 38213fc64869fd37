-- ===== src/Scenarios/Tests.antt =====
-- The tests of test_cache_lib.cc and test_cache_client.cc, run; the second on the server's cache.
use hw6_csci.Base.{
  ℕ, ◌≡◌, refl, List, map, Bool, true, false, some, [], ◌∷◌, Outcome, ok, fault, Bytes-discrete,
}
use hw6_csci.Base.Dict.{find, put, emplace, assign, erase}
use hw6_csci.Fifo.{Fifo}
use hw6_csci.Lru.{LruEvictor, empty}
use hw6_csci.Lru as LruOf
use hw6_csci.Lru.Nodes.{write, load, set_prev, set_next}
use hw6_csci.Lru.Refinement.{lru_evictor}
use hw6_csci.Cache.{
  Cache, make, set, get, del, reset, space_used, actual_size, size_of, read_value, c_string, admit,
  put_entry, touch, admit_by_eviction, evict_until, evict_one,
}
use hw6_csci.Interface.{CacheInterface}
use hw6_csci.Interface.Implementations.{library}
use hw6_csci.Scenarios.{
  cache_set, cache_get, cache_del, cache_space_used, cache_reset, cache_get_failure,
}
use hw6_csci.Scenarios.OfLibrary
use hw6_csci.Scenarios.OfClient

abbrev passes : {A : Type 0} → Outcome A → Bool
passes (ok _) = true
passes (fault _) = false

abbrev library_tests : List (Outcome (Cache Fifo))
library_tests =
    OfLibrary.test_basic_operation ∷ OfLibrary.test_modify_value ∷ OfLibrary.test_reduction
    ∷ OfLibrary.test_set_object_cache_size ∷ OfLibrary.test_cache_bounds
    ∷ OfLibrary.test_overflow_no_evictor ∷ OfLibrary.test_get_non_existant_item ∷ []

passes-library_tests :
    map passes library_tests ≡ true ∷ true ∷ true ∷ true ∷ true ∷ true ∷ true ∷ []
unfolding cache_set cache_get cache_del cache_space_used cache_reset cache_get_failure set get del
    reset space_used actual_size size_of read_value c_string admit put_entry touch admit_by_eviction
    find emplace assign erase Bytes-discrete OfLibrary.test_basic_operation
    OfLibrary.test_modify_value OfLibrary.test_reduction OfLibrary.test_set_object_cache_size
    OfLibrary.test_cache_bounds OfLibrary.test_overflow_no_evictor
    OfLibrary.test_get_non_existant_item
passes-library_tests = refl

-- The server's cache with `maxmem` bytes, as if it were a local one.
abbrev served : CacheInterface
served = library lru_evictor 4

client_tests : ℕ → List (Outcome (Cache LruEvictor))
client_tests maxmem =
    let server_cache : Cache LruEvictor = make maxmem (some empty) in
    OfClient.test_basic_operation served server_cache
    ∷ OfClient.test_modify_value served server_cache
    ∷ OfClient.test_set_object_cache_size served server_cache
    ∷ OfClient.test_cache_bounds served server_cache
    ∷ OfClient.test_overflow_no_evictor served server_cache
    ∷ OfClient.test_get_non_existant_item served server_cache
    ∷ []

-- A server evicts where the test expects that a `set` is refused.
passes-client_tests : map passes (client_tests 10) ≡ true ∷ true ∷ true ∷ true ∷ false ∷ true ∷ []
unfolding cache_set cache_get cache_del cache_space_used cache_reset cache_get_failure set get del
    reset space_used actual_size size_of read_value c_string admit put_entry touch admit_by_eviction
    find emplace assign erase Bytes-discrete client_tests evict_until evict_one LruOf.touch_key
    LruOf.evict LruOf.append_new LruOf.move_to_back LruOf.unlink LruOf.relink write load set_prev
    set_next put OfClient.test_basic_operation OfClient.test_modify_value
    OfClient.test_set_object_cache_size OfClient.test_cache_bounds OfClient.test_overflow_no_evictor
    OfClient.test_get_non_existant_item
passes-client_tests = refl

-- With the bound that the server has by default, the largest item and the item beyond it fit.
client_tests_by_default :
    map passes (client_tests 1024) ≡ true ∷ true ∷ true ∷ false ∷ false ∷ true ∷ []
unfolding cache_set cache_get cache_del cache_space_used cache_reset cache_get_failure set get del
    reset space_used actual_size size_of read_value c_string admit put_entry touch admit_by_eviction
    find emplace assign erase Bytes-discrete client_tests evict_until evict_one LruOf.touch_key
    LruOf.evict LruOf.append_new LruOf.move_to_back LruOf.unlink LruOf.relink write load set_prev
    set_next put OfClient.test_basic_operation OfClient.test_modify_value
    OfClient.test_set_object_cache_size OfClient.test_cache_bounds OfClient.test_overflow_no_evictor
    OfClient.test_get_non_existant_item
client_tests_by_default = refl
