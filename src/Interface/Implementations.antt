-- ===== src/Interface/Implementations.antt =====
-- The two implementations: the store of cache_lib.cc, and the client of cache_client.cc, each method
-- one request that the server of cache_server.cc handles before the next is sent.
use hw6_csci.Base.{ℕ, Option, none, some, [], ◌∷◌, ◌++◌, Bytes, ok, ◌>>=◌}
use hw6_csci.Evictor.{Evictor}
use hw6_csci.Cache as CacheOf
use hw6_csci.Cache.{Cache}
use hw6_csci.Http.{Http}
use hw6_csci.Text.Split.{Splitter}
use hw6_csci.Client.{Client}
use hw6_csci.Client.Remote.{remote_set, remote_get, remote_del}
use hw6_csci.Client.Control.{remote_space_used, remote_reset}
use hw6_csci.Interface.{CacheInterface}

-- The size that is returned, and the text that the pointer leads to.
abbrev pub with_text : Option ℕ → Bytes → Option (ℕ × Bytes)
with_text none text = none
with_text (some n) text = some (n, text)

-- `Cache::set` and the others of cache_lib.cc.
abbrev pub library : Evictor → ℕ → CacheInterface
library E fuel = record {
  State = Cache E.State;
  set = λ key text n c. CacheOf.set E fuel key (some (text ++ 0 ∷ [])) n c;
  get = λ key c. (do (r, c') ← CacheOf.get E key c; ok (with_text r c'.get_val, c'));
  del = λ key c. ok (CacheOf.del E key c);
  space_used = λ c. ok (CacheOf.space_used E c, c);
  reset = λ c. ok (CacheOf.reset E c);
}

-- `Cache::set` and the others of cache_client.cc, with the server's cache.
abbrev pub network : Evictor → Http → Splitter → ℕ → Bytes → CacheInterface
network E H B fuel tail = record {
  State = Client × Cache E.State;
  set = λ key text n (client, c). (do
    c' ← remote_set E H B fuel client key text n c
    ok (client, c'));
  get = λ key (client, c). (do
    (r, client', c') ← remote_get E H B fuel client key c
    ok (with_text r client'.get_val, (client', c')));
  del = λ key (client, c). (do
    (answer, c') ← remote_del E H B fuel client key c
    ok (answer, (client, c')));
  space_used = λ (client, c). (do
    (n, c') ← remote_space_used E H B fuel client tail c
    ok (n, (client, c')));
  reset = λ (client, c). (do (_, c') ← remote_reset E H B fuel client c; ok (client, c'));
}
