-- ===== src/Server/Tests.antt =====
-- Requests to a cache with two items.
use hw6_csci.Base.{
  ok, Option, ◌++◌, Fault, fault, ℕ, ◌≡◌, ◌∙◌, refl, ◌⊎◌, List, true, some, [], ◌∷◌, Bytes, codes,
  arith, Bytes-discrete,
}
use hw6_csci.Base.Dict.{find, total, emplace}
use hw6_csci.Evictor.Queue.{member}
use hw6_csci.Fifo.{Fifo, touch_key}
use hw6_csci.Fifo.Refinement.{fifo_evictor}
use hw6_csci.Cache.{set, read_value, c_string, Cache, make, actual_size, admit, put_entry, touch}
use hw6_csci.Cache.Valid.{IsValid}
use hw6_csci.Http.{plain_http, Request, Response, Status, Verb}
use hw6_csci.Text.Split.{plain_splitter, parts, prepend}
use hw6_csci.Server.{get_body, handle_request, handle_put, finish, set_field, respond}
use hw6_csci.Server.Sections.{Entered, Held, enter, section, behind, undisturbed}
use hw6_csci.Server.Sections.Undisturbed.{handle_request-undisturbed}
use hw6_csci.Server.Sections.Threads.{Thread, Threads, ThreadStep, Turn, Turns, no_threads}
use hw6_csci.Server.Sections.Replay.{calls_of, Turns-run_calls}
use hw6_csci.Server.Told.{Told, handle_request-Told}
use hw6_csci.Server.Sections.Alone.{Answers, Aborts, arrived-Answers}
use hw6_csci.Cache.History.{Call, set_call, run_calls}
use hw6_csci.Text.{at, read_u32, skip_spaces, scan_sign, scan_digits}
use hw6_csci.Server.Outcomes.{Handled, handle_request-Handled}
use hw6_csci.Server.Overtaken.{reset_section, reset_check, overtaken_reset}
use hw6_csci.Server.Race.{ReaderSteps, reader, Phase, overlapping_gets}

abbrev key_a : Bytes
key_a = codes "a"

abbrev key_b : Bytes
key_b = codes "b"

abbrev two_items : Cache Fifo
two_items = record {
  current_mem = 9;
  vals = (key_a, codes "x") ∷ (key_b, codes "y") ∷ [];
  sizes = (key_a, 4) ∷ (key_b, 5) ∷ [];
  get_val = [];
  maxmem = 10;
  evictor = some (key_b ∷ key_a ∷ []);
}

two_items-IsValid : IsValid fifo_evictor two_items (key_a ∷ key_b ∷ [])
unfolding total find member
two_items-IsValid = record {
  same_keys = λ k. ground arith;
  distinct = ground arith;
  counted = refl;
  bounded = omega arith;
  small = omega arith;
  queued = refl;
  known = λ k ne i. ground arith;
}

abbrev put_request : Request
put_request = record {
  method = Verb.put;
  target = codes "/a/zz/6";
  version = 11;
  fields = [];
  keep_alive = true;
  body = codes "/a/zz/6";
}

abbrev head_request : Request
head_request = record {
  method = Verb.head;
  target = codes "/";
  version = 11;
  fields = [];
  keep_alive = true;
  body = [];
}

handle_request-Handled_example :
    Handled fifo_evictor plain_splitter put_request two_items
      (key_a ∷ key_b ∷ [])
      (handle_request fifo_evictor plain_http plain_splitter 3 put_request two_items)
handle_request-Handled_example =
    handle_request-Handled fifo_evictor plain_http plain_splitter 3 put_request two_items
      (key_a ∷ key_b ∷ []) two_items-IsValid (omega arith)

a_stored : find key_a two_items.vals ≡ some (codes "x")
unfolding find Bytes-discrete
a_stored = refl

b_stored : find key_b two_items.vals ≡ some (codes "y")
unfolding find Bytes-discrete
b_stored = refl

-- The thread that asked for `a` answers with the value of `b`.
overlapping_gets_example :
    (na nb : ℕ) × (c' : Cache Fifo) × (find key_a two_items.sizes ≡ some na)
    × ReaderSteps fifo_evictor
        (reader key_a Phase.waiting ∷ reader key_b Phase.waiting ∷ [])
        two_items
        (reader key_a (Phase.answered (get_body key_a (codes "y") na))
          ∷ reader key_b (Phase.unlocked (some nb))
          ∷ [])
        c'
overlapping_gets_example =
    overlapping_gets fifo_evictor key_a key_b (codes "x") (codes "y") two_items (key_a ∷ key_b ∷ [])
      two_items-IsValid a_stored b_stored

abbrev text : Option Bytes
text = some (codes "z" ++ 0 ∷ [])

text_read : read_value text ≡ ok (codes "z")
unfolding read_value c_string
text_read = refl

overtaken_reset_example :
    (c' : Cache Fifo) × (set fifo_evictor 1 key_a text 6 (reset_section fifo_evictor two_items)
      ≡ ok c')
    × (reset_check fifo_evictor c' ≡ fault Fault.assertion)
overtaken_reset_example =
    overtaken_reset fifo_evictor 1 key_a (codes "z") text 6 two_items (key_a ∷ key_b ∷ [])
      two_items-IsValid text_read (omega arith) (omega arith)

-- Two requests on an empty cache, of which the second arrives before the first has the mutex.
abbrev empty_cache : Cache Fifo
empty_cache = make 10 (some [])

abbrev item_put : Cache Fifo
item_put = record empty_cache {
  current_mem = 6;
  vals = (key_a, codes "zz") ∷ [];
  sizes = (key_a, 6) ∷ [];
  evictor = some (key_a ∷ []);
}

abbrev put_call : Call
put_call = set_call key_a (codes "zz") 6

abbrev put_response : Response
put_response =
    finish plain_http put_request
      (set_field "Server" plain_http.version_string (respond put_request Status.ok))

put_enters :
    enter fifo_evictor plain_http plain_splitter put_request empty_cache
    ≡ ok (Entered.locks put_call)
unfolding enter at read_u32 skip_spaces scan_sign scan_digits parts prepend
put_enters = refl

put_section :
    section fifo_evictor plain_http plain_splitter 1 put_call empty_cache
    ≡ ok (Held.stored, item_put)
unfolding section set actual_size read_value c_string admit put_entry touch find emplace touch_key
put_section = refl

put_behind :
    behind fifo_evictor plain_http plain_splitter put_request Held.stored item_put ≡ ok put_response
unfolding behind
put_behind = refl

abbrev answered_put : Threads Fifo
answered_put = record {
  threads = Thread.arrived head_request ∷ Thread.answered put_request put_response ∷ [];
  cache = item_put;
  log = (put_call, Held.stored) ∷ [];
}

run_put : Turns fifo_evictor plain_http plain_splitter (no_threads empty_cache) answered_put
run_put =
    Turns.turn
      (Turns.turn
        (Turns.turn
          (Turns.turn (Turns.turn (Turns.stop _) (Turn.arrives _ put_request)) (
            Turn.moves _ [] [] _ _ _ [] refl
              (ThreadStep.enters put_request put_call empty_cache put_enters)))
          (Turn.arrives _ head_request))
        (Turn.moves _ (Thread.arrived head_request ∷ []) [] _ _ _ ((put_call, Held.stored) ∷ [])
          refl
          (ThreadStep.holds put_request put_call Held.stored 1 empty_cache item_put put_section)))
      (Turn.moves _ (Thread.arrived head_request ∷ []) [] _ _ _ [] refl
        (ThreadStep.builds put_request Held.stored put_response item_put put_behind))

Turns-run_calls_example :
    (fuel : ℕ) × (q : List Bytes) × (run_calls fifo_evictor fuel
        (calls_of answered_put.log)
        (make 10 (some []))
      ≡ ok item_put)
    × IsValid fifo_evictor item_put q
    × (item_put.maxmem ≡ 10)
Turns-run_calls_example =
    Turns-run_calls fifo_evictor plain_http plain_splitter 10 [] answered_put (omega arith) refl
      run_put

put_run :
    handle_request fifo_evictor plain_http plain_splitter 1 put_request empty_cache
    ≡ ok (put_response, item_put)
unfolding undisturbed
put_run =
    handle_request-undisturbed fifo_evictor plain_http plain_splitter 1 put_request empty_cache
    ∙ rw (put_enters, put_section, put_behind) refl

handle_request-Told_example :
    Told fifo_evictor plain_splitter 1 put_request Verb.put put_response empty_cache item_put
handle_request-Told_example =
    handle_request-Told fifo_evictor plain_http plain_splitter 1 put_request empty_cache item_put
      put_response put_run

-- A `PUT` with an empty field for its size.
abbrev unsized_put : Request
unsized_put = record put_request { body = codes "/a/zz/" }

unsized_put_fault :
    handle_request fifo_evictor plain_http plain_splitter 1 unsized_put empty_cache
    ≡ fault Fault.uninitialised
unfolding handle_request handle_put at read_u32 skip_spaces parts prepend
unsized_put_fault = refl

arrived-Answers_example :
    ((res : Response) × (c : Cache Fifo) × Answers fifo_evictor plain_http plain_splitter []
        (Thread.answered put_request put_response ∷ [])
        head_request
        answered_put
        res
        c)
    ⊎ Aborts fifo_evictor plain_splitter head_request item_put
arrived-Answers_example =
    arrived-Answers fifo_evictor plain_http plain_splitter 10 [] answered_put []
      (Thread.answered put_request put_response ∷ []) head_request (omega arith) refl run_put refl
