-- ===== src/Interface/Same.antt =====
-- The two implementations of the interface side by side.
use hw6_csci.Base.{
  ℕ, ◌^◌, ◌<◌, ◌≤◌, ◌≡◌, refl, sym, true, some, List, [], ◌∷◌, arith, Bytes, length,
}
use hw6_csci.Evictor.{Evictor}
use hw6_csci.Cache.{Cache, make}
use hw6_csci.Cache.History.Run.{start}
use hw6_csci.Http.{Http}
use hw6_csci.Text.{scan_digits}
use hw6_csci.Text.Split.{Splitter}
use hw6_csci.Client.{Client}
use hw6_csci.Client.Delivery.{NamesHost}
use hw6_csci.Interface.{Method, perform, observe}
use hw6_csci.Interface.Simulation.{Agree, Simulates, observe-Simulates}
use hw6_csci.Interface.Implementations.{library, network}
use hw6_csci.Interface.Linked.{
  Sendable, Linked, Next-set, Next-get, Next-del, Next-reset, Next-space_used,
}

module _ (E : Evictor) (H : Http) (B : Splitter) (fuel : ℕ) (tail : Bytes) (maxmem : ℕ)
    (small : maxmem < 2 ^ 31) (stops : (n : ℕ) → scan_digits tail n true ≡ (n, true)) where
  next :
      (m : Method) (ms : List Method) (c : Cache E.State) (client : Client)
      → Linked E H B fuel tail maxmem (m ∷ ms) c (client, c)
      → Agree
          (Linked E H B fuel tail maxmem ms)
          (perform (library E fuel) m c)
          (perform (network E H B fuel tail) m (client, c))
  next (Method.set key text n) ms c client l =
      Next-set E H B fuel tail maxmem ms c client l.calls l.after l.named l.unmarked l.enough
        l.safe.1 key text n l.safe
  next (Method.get key) ms c client l =
      Next-get E H B fuel tail maxmem ms c client l.calls l.after l.named l.unmarked l.enough
        l.safe.1 key l.safe.0
  next (Method.del key) ms c client l =
      Next-del E H B fuel tail maxmem ms c client l.calls l.after l.named l.unmarked l.enough
        l.safe.1 key l.safe.0
  next Method.space_used ms c client l =
      Next-space_used E H B fuel tail maxmem ms c client l.calls l.after l.named l.unmarked l.enough
        l.safe small stops
  next Method.reset ms c client l =
      Next-reset E H B fuel tail maxmem ms c client l.calls l.after l.named l.unmarked l.enough
        l.safe

  Simulates-network :
      Simulates (library E fuel) (network E H B fuel tail) (Linked E H B fuel tail maxmem)
  Simulates-network m ms c (client, d) l = rw l.same (next m ms c client (rw l.same at l))

  -- With `maxmem` below 2^31, an evictor that holds no key, a host whose name can stand in a
  -- field of a request, keys and texts of up to 2000 visible characters without a slash, comma
  -- or colon, texts without a zero byte, sizes below 2^31, at least as many rounds as calls, and
  -- no digit in memory behind the fields of a response, a program that makes any sequence of
  -- `set`, `get`, `del`, `space_used` and `reset` on a client of a new server sees the same
  -- replies, sizes and texts, up to the first fault and with the same fault, as with the same
  -- calls on a new cache of its own.
  pub observe-network :
      (s : E.State) (client : Client) (ms : List Method)
      → E.Holds s []
      → NamesHost client.host
      → Sendable ms
      → length ms ≤ fuel
      → observe (network E H B fuel tail) ms (client, make maxmem (some s))
        ≡ observe (library E fuel) ms (make maxmem (some s))
  observe-network s client ms holds named safe enough = sym (
      observe-Simulates (library E fuel) (network E H B fuel tail) (Linked E H B fuel tail maxmem)
        Simulates-network ms (make maxmem (some s)) (client, make maxmem (some s))
        (record {
          calls = [];
          same = refl;
          named = named;
          after = start E maxmem fuel s small holds;
          unmarked = tt;
          enough = omega arith;
          safe = safe;
        }))
