-- ===== src/Interface/Tests.antt =====
-- A program's calls on the two implementations.
use hw6_csci.Base.{
  ◌≡◌, refl, true, none, some, List, [], ◌∷◌, codes, arith, Outcome, ok, Bytes-discrete,
}
use hw6_csci.Base.Dict.{find, emplace, assign, erase}
use hw6_csci.Fifo.{touch_key}
use hw6_csci.Fifo.Refinement.{fifo_evictor}
use hw6_csci.Cache.{
  make, set, get, del, reset, space_used, actual_size, size_of, read_value, c_string, admit,
  put_entry, touch,
}
use hw6_csci.Http.{plain_http}
use hw6_csci.Text.{scan_digits}
use hw6_csci.Text.Split.{plain_splitter}
use hw6_csci.Client.{Client}
use hw6_csci.Interface.{Method, Reply, perform, observe}
use hw6_csci.Interface.Implementations.{library, network}
use hw6_csci.Interface.Linked.{Sendable}
use hw6_csci.Interface.Same.{observe-network}

abbrev client : Client
client = record { host = codes "localhost"; get_val = [] }

abbrev methods : List Method
methods =
    Method.set (codes "a") (codes "x") 4
    ∷ Method.set (codes "b") (codes "y") 5
    ∷ Method.get (codes "a")
    ∷ Method.space_used
    ∷ Method.del (codes "b")
    ∷ Method.get (codes "b")
    ∷ Method.reset
    ∷ Method.space_used
    ∷ []

abbrev replies : List (Outcome Reply)
replies =
    ok Reply.done
    ∷ ok Reply.done
    ∷ ok (Reply.got (some (4, codes "x")))
    ∷ ok (Reply.used 9)
    ∷ ok (Reply.deleted true)
    ∷ ok (Reply.got none)
    ∷ ok Reply.done
    ∷ ok (Reply.used 0)
    ∷ []

observe-library : observe (library fifo_evictor 8) methods (make 10 (some [])) ≡ replies
unfolding observe perform set get del reset space_used actual_size size_of read_value c_string admit
    put_entry touch touch_key find emplace assign erase Bytes-discrete
observe-library = refl

methods-Sendable : Sendable methods
unfolding read_value c_string
methods-Sendable = ground arith

observe-network_example :
    observe
      (network fifo_evictor plain_http plain_splitter 8 (0 ∷ []))
      methods
      (client, make 10 (some []))
    ≡ observe (library fifo_evictor 8) methods (make 10 (some []))
unfolding scan_digits
observe-network_example =
    observe-network fifo_evictor plain_http plain_splitter 8 (0 ∷ []) 10 (omega arith) (λ n. refl)
      [] client methods refl (refl, omega arith) methods-Sendable (omega arith)
