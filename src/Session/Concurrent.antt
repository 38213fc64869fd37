-- ===== src/Session/Concurrent.antt =====
-- The server on several threads: while the handler of one session is in `handle_request`, others run.
-- Asio runs the handlers of one session one after the other, on any thread; those of different
-- sessions meet at `cache_mutex` only.
pub mod Order
use hw6_csci.Base.{
  ℕ, ◌≡◌, Bool, true, false, Option, none, some, List, [], ◌∷◌, ◌++◌, map, Outcome, ok,
}
use hw6_csci.Evictor.{Evictor}
use hw6_csci.Cache.{Cache, make}
use hw6_csci.Http.{Request, Response, Http}
use hw6_csci.Text.Split.{Splitter}
use hw6_csci.Server.Sections.Threads.{Thread, Entry, ThreadStep}
use hw6_csci.Session.{Session, Pending, ErrorCode, is_error, do_read, send, on_write, on_read}
use hw6_csci.Session.Listener.{Listener, Server, on_accept, do_accept}

-- A session, and how far its handler is in `handle_request`, if it is there.
pub record Worker : Type 0 where
  pub session : Session
  pub handling : Option Thread

abbrev pub waiting : Session → Worker
waiting s = record { session = s; handling = none }

abbrev pub busy : Session → Thread → Worker
busy s t = record { session = s; handling = some t }

pub record Concurrent (S : Type 0) : Type 0 where
  pub listener : Listener
  pub workers : List Worker
  pub cache : Cache S
  pub log : List Entry

-- `main`
abbrev pub concurrent_main : {S : Type 0} → ℕ → S → Listener → Concurrent S
concurrent_main maxmem evictor l = record {
  listener = do_accept l;
  workers = [];
  cache = make maxmem (some evictor);
  log = [];
}

-- The listener's handler touches no session but the new one.
abbrev pub accepted : {S : Type 0} → ErrorCode → Concurrent S → Server S
accepted ec srv =
    on_accept ec (record { listener = srv.listener; sessions = []; cache = srv.cache })

module _ (E : Evictor) (H : Http) (B : Splitter) (need_eof : Response → Bool) where
  pub data WorkerStep : Worker → Cache E.State → Worker → Cache E.State → List Entry → Type 0 where
    begins :
        (s : Session) (c : Cache E.State)
        → s.pending ≡ Pending.starting
        → WorkerStep (waiting s) c (waiting (do_read (record s { pending = Pending.idle }))) c []
    fails :
        (s s' : Session) (c c' : Cache E.State) (fuel : ℕ) (ec : ErrorCode) (req : Request)
        → s.pending ≡ Pending.reading
        → is_error ec ≡ true
        → on_read E H B need_eof fuel ec (record s { pending = Pending.idle; req = req }) c
          ≡ ok (s', c')
        → WorkerStep (waiting s) c (waiting s') c' []
    reads :
        (s : Session) (c : Cache E.State) (req : Request)
        → s.pending ≡ Pending.reading
        → WorkerStep
            (waiting s)
            c
            (busy (record s { pending = Pending.idle; req = req }) (Thread.arrived req))
            c
            []
    handles :
        (s : Session) (t t' : Thread) (c c' : Cache E.State) (entries : List Entry)
        → ThreadStep E H B t c t' c' entries
        → WorkerStep (busy s t) c (busy s t') c' entries
    sends :
        (s : Session) (c : Cache E.State) (req : Request) (res : Response)
        → WorkerStep (busy s (Thread.answered req res)) c (waiting (send need_eof res s)) c []
    writes :
        (s : Session) (c : Cache E.State) (close : Bool) (ec : ErrorCode)
        → s.pending ≡ Pending.writing close
        → WorkerStep
            (waiting s)
            c
            (waiting (on_write close ec (record s { pending = Pending.idle })))
            c
            []

  pub data Event : Concurrent E.State → Concurrent E.State → Type 0 where
    accepts :
        (srv : Concurrent E.State) (ec : ErrorCode)
        → srv.listener.accepting ≡ true
        → Event srv (record srv {
          listener = (accepted ec srv).listener;
          workers = map waiting (accepted ec srv).sessions ++ srv.workers;
        })
    works :
        (srv : Concurrent E.State) (before after : List Worker) (w w' : Worker) (c' : Cache E.State)
        (entries : List Entry)
        → srv.workers ≡ before ++ w ∷ after
        → WorkerStep w srv.cache w' c' entries
        → Event srv
            (record srv { workers = before ++ w' ∷ after; cache = c'; log = entries ++ srv.log })

  pub data Events : Concurrent E.State → Concurrent E.State → Type 0 where
    none_yet : (srv : Concurrent E.State) → Events srv srv
    next : {a b d : Concurrent E.State} → Events a b → Event b d → Events a d
