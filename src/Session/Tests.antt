-- ===== src/Session/Tests.antt =====
-- A connection is accepted, sends a `PUT`, and is answered.
use hw6_csci.Base.{
  ℕ, List, Every, Bytes, ◌≡◌, refl, Bool, true, false, not, some, [], ◌∷◌, codes, arith, ok,
  Bytes-discrete,
}
use hw6_csci.Base.Dict.{find, put, emplace, assign}
use hw6_csci.Fifo.{Fifo, touch_key}
use hw6_csci.Fifo.Refinement.{fifo_evictor}
use hw6_csci.Cache.{Cache, make, set, touch, admit, put_entry, actual_size, read_value, c_string}
use hw6_csci.Http.{plain_http, Response, Request, Status, Verb}
use hw6_csci.Text.{to_string, print_digits, read_u32, scan_sign, scan_digits, skip_spaces, at}
use hw6_csci.Text.Split.{plain_splitter, parts, prepend}
use hw6_csci.Server.{handle_request, handle_put, finish}
use hw6_csci.Cache.Valid.{IsValid}
use hw6_csci.Cache.History.{Call, set_call, run_calls}
use hw6_csci.Server.Sections.{Entered, Held, enter, section, behind}
use hw6_csci.Server.Sections.Threads.{ThreadStep}
use hw6_csci.Server.Sections.Replay.{calls_of}
use hw6_csci.Session.Concurrent.{waiting, Concurrent, concurrent_main, WorkerStep, Event, Events}
use hw6_csci.Session.Concurrent.Order.{Placed, Events-run_calls}
use hw6_csci.Session.Listener.{do_accept}
use hw6_csci.Session.{
  Session, starts, has_read, Pending, ErrorCode, on_read, send, run_session, do_read,
}
use hw6_csci.Session.Listener.{
  Listener, Server, Step, Steps, accepts, serves, done, more, on_accept, main,
}
use hw6_csci.Session.Listener.{make_listener}
use hw6_csci.Session.Opening.{first_failure, is_nil, make_listener-first_failure}
use hw6_csci.Session.Reachable.{Good, reachable-Good}

abbrev need_eof : Response → Bool
need_eof res = not res.keep_alive

abbrev put_request : Request
put_request = record {
  method = Verb.put;
  target = codes "/a/x/4";
  version = 11;
  fields = [];
  keep_alive = true;
  body = codes "/a/x/4";
}

abbrev listener : Listener
listener = record { listening = true; accepting = false; log = [] }

abbrev started : Server Fifo
started = main 10 [] listener

abbrev accepted : Server Fifo
accepted = record started { sessions = run_session ∷ [] }

abbrev waits_to_read : Session
waits_to_read = do_read (record run_session { pending = Pending.idle })

abbrev reading : Server Fifo
reading = record started { sessions = waits_to_read ∷ [] }

abbrev response : Response
response = record {
  status = Status.ok;
  version = 11;
  fields = (codes "Content-Length", codes "0") ∷ (codes "Server", codes "Beast") ∷ [];
  keep_alive = true;
  body = [];
}

abbrev waits_to_write : Session
waits_to_write = record waits_to_read {
  pending = Pending.writing false;
  req = put_request;
  res = some response;
}

abbrev filled : Cache Fifo
filled = record {
  current_mem = 4;
  vals = (codes "a", codes "x") ∷ [];
  sizes = (codes "a", 4) ∷ [];
  get_val = [];
  maxmem = 10;
  evictor = some (codes "a" ∷ []);
}

abbrev answered : Server Fifo
answered = record started { sessions = waits_to_write ∷ []; cache = filled }

put_run :
    on_read fifo_evictor plain_http plain_splitter need_eof 1 ErrorCode.success
      (record waits_to_read { pending = Pending.idle; req = put_request })
      started.cache
    ≡ ok (waits_to_write, filled)
unfolding on_read handle_request handle_put finish send set actual_size read_value c_string admit
    put_entry touch touch_key emplace find put assign Bytes-discrete parts prepend at read_u32
    scan_sign scan_digits skip_spaces to_string print_digits
put_run = refl

abbrev OneStep : Server Fifo → Server Fifo → Type 0
OneStep = Step fifo_evictor plain_http plain_splitter need_eof

first : OneStep started accepted
unfolding on_accept
first = accepts started ErrorCode.success refl

second : OneStep accepted reading
second =
    serves accepted [] [] run_session waits_to_read accepted.cache refl
      (starts run_session accepted.cache refl)

third : OneStep reading answered
third = serves reading [] [] waits_to_read waits_to_write filled refl (
    has_read waits_to_read waits_to_write reading.cache filled 1 ErrorCode.success put_request refl
      put_run)

answered_reached : Steps fifo_evictor plain_http plain_splitter need_eof started answered
answered_reached = more (more (more (done started) first) second) third

reachable-Good_example : Good fifo_evictor need_eof 10 answered
reachable-Good_example =
    reachable-Good fifo_evictor plain_http plain_splitter need_eof 10 [] listener answered
      (omega arith) refl answered_reached

-- The port is taken.
abbrev bind_error : ErrorCode
bind_error = ErrorCode.failed (codes "Address already in use")

make_listener-first_failure_example :
    let l = make_listener ErrorCode.success ErrorCode.success bind_error ErrorCode.success in
    let failure = first_failure (
      (codes "open", ErrorCode.success)
      ∷ (codes "set_option", ErrorCode.success)
      ∷ (codes "bind", bind_error)
      ∷ (codes "listen", ErrorCode.success)
      ∷ []) in
    (l.log ≡ failure) × (l.listening ≡ is_nil failure) × (l.accepting ≡ false)
make_listener-first_failure_example =
    make_listener-first_failure ErrorCode.success ErrorCode.success bind_error ErrorCode.success

-- The same on several threads: the handler of the session goes through the section of the mutex.
abbrev put_call : Call
put_call = set_call (codes "a") (codes "x") 4

put_enters :
    enter fifo_evictor plain_http plain_splitter put_request started.cache
    ≡ ok (Entered.locks put_call)
unfolding enter at read_u32 skip_spaces scan_sign scan_digits parts prepend
put_enters = refl

put_section :
    section fifo_evictor plain_http plain_splitter 1 put_call started.cache
    ≡ ok (Held.stored, filled)
unfolding section set actual_size read_value c_string admit put_entry touch find emplace touch_key
put_section = refl

put_behind :
    behind fifo_evictor plain_http plain_splitter put_request Held.stored filled ≡ ok response
unfolding behind finish find put assign emplace Bytes-discrete to_string print_digits
put_behind = refl

abbrev handling_put : Session
handling_put = record waits_to_read { pending = Pending.idle; req = put_request }

abbrev put_server : Concurrent Fifo
put_server = record {
  listener = do_accept listener;
  workers = waiting waits_to_write ∷ [];
  cache = filled;
  log = (put_call, Held.stored) ∷ [];
}

run_put :
    Events fifo_evictor plain_http plain_splitter need_eof
      (concurrent_main 10 [] listener)
      put_server
unfolding on_accept send
run_put =
    Events.next
      (Events.next
        (Events.next
          (Events.next
            (Events.next
              (Events.next
                (Events.next (Events.none_yet _) (Event.accepts _ ErrorCode.success refl))
                (Event.works _ [] [] _ _ _ [] refl
                  (WorkerStep.begins run_session started.cache refl)))
              (Event.works _ [] [] _ _ _ [] refl
                (WorkerStep.reads waits_to_read started.cache put_request refl)))
            (Event.works _ [] [] _ _ _ [] refl (
              WorkerStep.handles handling_put _ _ _ _ []
                (ThreadStep.enters put_request put_call started.cache put_enters))))
          (Event.works _ [] [] _ _ _ ((put_call, Held.stored) ∷ []) refl (
            WorkerStep.handles handling_put _ _ _ _ _ (
              ThreadStep.holds put_request put_call Held.stored 1 started.cache filled
                put_section))))
        (Event.works _ [] [] _ _ _ [] refl (
          WorkerStep.handles handling_put _ _ _ _ []
            (ThreadStep.builds put_request Held.stored response filled put_behind))))
      (Event.works _ [] [] _ _ _ [] refl
        (WorkerStep.sends handling_put filled put_request response))

Events-run_calls_example :
    (fuel : ℕ) × (q : List Bytes) × (run_calls fifo_evictor fuel
        (calls_of put_server.log)
        (make 10 (some []))
      ≡ ok filled)
    × IsValid fifo_evictor filled q
    × (filled.maxmem ≡ 10)
    × Every (Placed need_eof) put_server.workers
    × (put_server.listener.accepting ≡ true)
Events-run_calls_example =
    Events-run_calls fifo_evictor plain_http plain_splitter need_eof 10 [] listener put_server
      (omega arith) refl run_put
