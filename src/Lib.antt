-- ===== src/Lib.antt =====
-- The cache server of this repository: a key-value store with a bound on its memory (cache.hh,
-- cache_lib.cc), two eviction policies (evictor.hh, fifo_evictor.cc, lru_evictor.cc, LList.hh), the
-- HTTP server that shares one cache among its connections (cache_server.cc), and the client with
-- the interface of the cache (cache_client.cc).
--
-- Base: what all parts share. Outcome is the result of C++ code: a value, or the first undefined
--   behaviour, failed assertion or exception that it runs into. Dict stands for
--   `std::unordered_map`, as a list of entries: the hash function and the load factor do not change
--   what a lookup finds.
-- Evictor: the abstract class as an interface. A state of an evictor stands for a queue of keys,
--   which a touch extends and an eviction shortens at the front; the laws are what the cache relies
--   on. Fifo and Lru implement it (Fifo/Refinement, Lru/Refinement).
-- Fifo: `FIFO_Evictor`, a deque.
-- Lru: `LRU_Evictor`: nodes at addresses, each with `prev_` and `next_`, `root_`, `back_` and the
--   map from keys to nodes. append_new and move_to_back are the branches of `touch_key`; evict and
--   destroy are `evict` and the destructor. A null or unknown pointer faults.
-- Cache: `Cache::Impl` of cache_lib.cc, over any evictor. set, get, del, space_used and reset have
--   their names; put_entry, touch, evict_one, evict_until and admit are parts of `set`. Sizes are
--   `uint32_t` with their wrap-around. The iterator that the search at the start of `set` returns is
--   kept as the fact that it found the key; it is dangling once the entry is gone. Cache/Valid is the
--   invariant, with `maxmem` below 2^31, so that no sum of two sizes wraps; Cache/Overflow is about
--   greater bounds. Cache/History is about whole runs: the calls, the last one first, and what they
--   have made of a key.
-- Text: `std::to_string`, `>>` into a `uint32_t`, which assigns nothing where the stream has only spaces
--   left, `std::stoi`, `substr`; Text/Split is what is used
--   of `boost::split`, as an interface, with a function that has it.
-- Http: the fields of Beast's messages that are read or written, and `prepare_payload` as an interface
--   that keeps status, method, body and the fields it does not own. Field names are compared as they
--   are spelled. `received` is what the server's `http::async_read` makes of the text of a request on the
--   wire: the client puts key and value into the target on the first line, so one with a space or a
--   control character, or longer than the parser's limit of 8192 bytes, is not read. Of a request
--   with a target of 1 to 4096 visible characters, the client's fields, and a body of up to 2^20
--   bytes it keeps method and body.
-- Server: `handle_request`, one function for each method. Server/Race and Server/Overtaken are the
--   `GET` and the `POST` branch by the sections of the mutex. Server/Sections is the whole function by
--   these sections: enter is what a thread does before it locks `cache_mutex`, section what it does
--   under it, behind the rest. Sections/Threads lets any number of threads take these steps in any
--   order; its log has the sections in the order of the mutex. A read of the cache outside the mutex
--   (of the text behind the pointer of a `GET`, and of the memory in use for a `HEAD` and behind a reset)
--   while another thread is inside its section is a data race, with undefined behaviour; the steps are
--   the executions without one, in which such a read is before or after every section.
--   Sections/Linear compares them with handle_request as a whole, and Told has what an answer says of
--   the cache.
-- Session, Session/Listener: the handlers of `session` and `listener`, and `main`, as a relation
--   on states: Asio runs any handler that is waited for, with any error code and any request. Here
--   a handler runs as a whole, as it does on one thread; in Session/Concurrent, on any number of
--   threads, others run while one is in `handle_request`. The results of the socket calls, and
--   whether a response needs the end of the connection (`need_eof`), are arguments.
-- Client: the request of each method of `Cache::Impl` of cache_client.cc and what it reads from the
--   response. Client/Delivery is the way of a request to the server: where the server cannot read it,
--   it ends the session and the client throws; a fault of the server stands for the call that has
--   no answer then. Client/Remote puts client and server together for set,
--   get and del, Client/Control for space_used and reset, whose requests are the same every time and
--   are taken as read, and Client/Run is about whole runs. Client/Connection has the constructor, the
--   destructor and the exchange of a request for a response, over a Transport, which stands for
--   Asio's calls.
-- Interface: the public methods of class `Cache` of cache.hh. Interface/Implementations fills it by the
--   store and by the client with its server; a program sees of it the replies, up to the first fault.
-- Workload: the generator of requests of test_generate_workload.cc. The results of `rand ()` are an
--   argument; so are those of the exponential distribution, as a fraction from 0 to 1 of which only
--   the products with sizes, as an `int`, are used. Workload/Loops has the loops of `cache_warmup` and
--   `baseline_latencies`, as the calls that they make, and the counters, read off the replies;
--   Workload/Whole runs them against either implementation of the interface. Workload/Latency is
--   the map of the times that the requests took, in hundredths of a millisecond.
-- Scenarios: the helpers of the test programs, over the interface; Scenarios/OfLibrary has the tests of
--   test_cache_lib.cc and Scenarios/OfClient those of test_cache_client.cc, run in Scenarios/Tests.
--
-- Rounds: evict_until has a bound on the rounds of the loop of `set`, and clear_prev on those of
-- the destructor's. One round more than the evictor's queue has keys is enough for the one, and the
-- number of nodes for the other: each round takes one key, or one node, away. print_digits has the
-- twenty rounds that a 64-bit number needs. The warmup has `g + 1` rounds for each of its
-- 1024 bytes, and as many once more: each `set` is of two bytes or more, and where no more than `g`
-- `get`s follow one another there are not more of these before a `set`.
--
-- Not modelled: the output on the console; the command line's options; the connection between client
-- and server, which carries a request, as far as the server can read it, and then its response; the reference counts of
-- `std::shared_ptr`, of which Lru/Destroy has the links that could form a cycle; the clock, the
-- means and the threads of test_generate_workload.cc; test_evictors.cc, whose only test is
-- commented out.
mod Base
pub mod Evictor
pub mod Fifo
pub mod Lru
pub mod Cache
pub mod Text
pub mod Http
pub mod Server
pub mod Client
pub mod Interface
pub mod Session
pub mod Workload
pub mod Scenarios
