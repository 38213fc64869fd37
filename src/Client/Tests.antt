-- ===== src/Client/Tests.antt =====
-- The client and the server together, on a cache with one item.
use hw6_csci.Base.{
  List, ◌^◌, ◌<◌, ◌≡◌, refl, true, some, [], ◌∷◌, ◌++◌, Bytes, codes, arith, ok, Bytes-discrete,
}
use hw6_csci.Base.Dict.{find}
use hw6_csci.Fifo.{Fifo, touch_key}
use hw6_csci.Fifo.Refinement.{fifo_evictor}
use hw6_csci.Cache.{Cache, set, get, reset, space_used, touch, size_of}
use hw6_csci.Http.{plain_http, Response, Status}
use hw6_csci.Text.{scan_digits}
use hw6_csci.Text.Split.{plain_splitter}
use hw6_csci.Client.{Client}
use hw6_csci.Client.Delivery.{NamesHost}
use hw6_csci.Cache.{make, read_value, c_string}
use hw6_csci.Cache.History.{Call, set_call, get_call, Readable, run_calls}
use hw6_csci.Client.Run.{UnmarkedCalls, remote_run, remote_run-run_calls}
use hw6_csci.Client.Remote.{remote_set, remote_get, remote_set-set, remote_get-get}
use hw6_csci.Client.Control.{
  remote_space_used, remote_reset, remote_space_used-space_used, remote_reset-reset,
}

abbrev key_a : Bytes
key_a = codes "a"

abbrev client : Client
client = record { host = codes "localhost"; get_val = [] }

named : NamesHost client.host
named = (refl, omega arith)

abbrev one_item : Cache Fifo
one_item = record {
  current_mem = 4;
  vals = (key_a, codes "x") ∷ [];
  sizes = (key_a, 4) ∷ [];
  get_val = [];
  maxmem = 10;
  evictor = some (key_a ∷ []);
}

abbrev after_get : Cache Fifo
after_get = record one_item { get_val = codes "x"; evictor = some (key_a ∷ key_a ∷ []) }

get_run : get fifo_evictor key_a one_item ≡ ok (some 4, after_get)
unfolding get touch touch_key size_of find Bytes-discrete
get_run = refl

remote_set-set_example :
    remote_set fifo_evictor plain_http plain_splitter 3 client (codes "b") (codes "y") 5 one_item
    ≡ set fifo_evictor 3 (codes "b") (some (codes "y" ++ 0 ∷ [])) 5 one_item
remote_set-set_example =
    remote_set-set fifo_evictor plain_http plain_splitter 3 client (codes "b") (codes "y") 5
      one_item named ((refl, tt), refl) ((refl, tt), refl) (omega arith) (omega arith)

remote_get-get_example :
    remote_get fifo_evictor plain_http plain_splitter 3 client key_a one_item
    ≡ ok (some 4, record client { get_val = codes "x" }, after_get)
remote_get-get_example =
    remote_get-get fifo_evictor plain_http plain_splitter 3 client key_a one_item after_get (some 4)
      named ((refl, tt), refl) (omega arith) get_run
      ((refl, tt), (refl, tt), omega arith, omega arith)

no_digit : scan_digits (0 ∷ []) 4 true ≡ (4, true)
unfolding scan_digits
no_digit = refl

small_space : space_used fifo_evictor one_item < 2 ^ 31
unfolding space_used
small_space = omega arith

no_digit_behind :
    scan_digits (0 ∷ []) (space_used fifo_evictor one_item) true
    ≡ (space_used fifo_evictor one_item, true)
unfolding scan_digits
no_digit_behind = refl

remote_space_used-space_used_example :
    remote_space_used fifo_evictor plain_http plain_splitter 3 client (0 ∷ []) one_item
    ≡ ok (space_used fifo_evictor one_item, one_item)
remote_space_used-space_used_example =
    remote_space_used-space_used fifo_evictor plain_http plain_splitter 3 client (0 ∷ []) one_item
      small_space no_digit_behind

remote_reset-reset_example :
    (res : Response) × (remote_reset fifo_evictor plain_http plain_splitter 3 client one_item
      ≡ ok (res, reset fifo_evictor one_item))
    × (res.status ≡ Status.ok)
remote_reset-reset_example =
    remote_reset-reset fifo_evictor plain_http plain_splitter 3 client one_item

-- Newest first: two items are set, and the first is read.
abbrev calls : List Call
calls = get_call key_a ∷ set_call (codes "b") (codes "y") 5 ∷ set_call key_a (codes "x") 4 ∷ []

calls-Readable : Readable calls
unfolding read_value c_string
calls-Readable = (refl, (refl, tt))

calls-Unmarked : UnmarkedCalls calls
calls-Unmarked = ground arith

remote_run-run_calls_example :
    remote_run fifo_evictor plain_http plain_splitter 3 client calls (make 10 (some []))
    ≡ run_calls fifo_evictor 3 calls (make 10 (some []))
remote_run-run_calls_example =
    remote_run-run_calls fifo_evictor plain_http plain_splitter 3 client 10 [] calls (omega arith)
      refl named calls-Readable calls-Unmarked (omega arith)
