-- ===== src/Session/Concurrent/Order.antt =====
-- Every state that the server on several threads can reach.
use hw6_csci.Base.{
  ℕ, ◌^◌, ◌<◌, ◌≡◌, refl, Bool, true, false, Option, none, some, List, [], ◌++◌, map, arith, Bytes,
  ok, Every, Every-replace,
}
use mathlib.Core.Path.{subst}
use hw6_csci.Evictor.{Evictor}
use hw6_csci.Cache.{Cache, make}
use hw6_csci.Cache.Valid.{IsValid}
use hw6_csci.Cache.Reads.{make-IsValid}
use hw6_csci.Cache.History.{run_calls}
use hw6_csci.Http.{Response, Http}
use hw6_csci.Text.Split.{Splitter}
use hw6_csci.Server.Sections.Threads.{Thread, Entry}
use hw6_csci.Server.Sections.Replay.{
  Replays, calls_of, ThreadStep-Replays, Replays-run_calls, Replays-IsValid,
}
use hw6_csci.Session.{Session, Pending, ErrorCode, is_error, send, on_read}
use hw6_csci.Session.Listener.{Listener, on_accept}
use hw6_csci.Session.Reachable.{InOrder, on_write-InOrder, on_read-InOrder}
use hw6_csci.Session.Concurrent.{
  Worker, waiting, Concurrent, concurrent_main, accepted, WorkerStep, Event, Events,
}

-- A handler that is in `handle_request` has no message to write and an open socket, and its session
-- waits for nothing.
abbrev pub InPlace : (Response → Bool) → Session → Option Thread → Type 0
InPlace need_eof s none = InOrder need_eof s
InPlace need_eof s (some t) = (s.pending ≡ Pending.idle) × (s.res ≡ none) × (s.shutdown ≡ false)

abbrev pub Placed : (Response → Bool) → Worker → Type 0
Placed need_eof w = InPlace need_eof w.session w.handling

module _ (E : Evictor) (H : Http) (B : Splitter) (need_eof : Response → Bool) where
  read_error :
      (fuel : ℕ) (ec : ErrorCode) (s s' : Session) (c c' : Cache E.State)
      → is_error ec ≡ true
      → on_read E H B need_eof fuel ec s c ≡ ok (s', c')
      → c ≡ c'
  unfolding on_read
  read_error fuel ErrorCode.success s s' c c' err run = absurd (ground arith)
  read_error fuel ErrorCode.end_of_stream s s' c c' err run = ground arith
  read_error fuel (ErrorCode.failed m) s s' c c' err run = ground arith

  WorkerStep-Placed :
      {w w' : Worker} {c c' : Cache E.State} {entries : List Entry}
      → WorkerStep E H B need_eof w c w' c' entries
      → Placed need_eof w
      → Placed need_eof w'
  unfolding send
  WorkerStep-Placed (WorkerStep.begins s c p) h = rw p at h
  WorkerStep-Placed (WorkerStep.fails s s' c c' fuel ec req p err run) h =
      on_read-InOrder E H B need_eof fuel ec req s s' c c' p run h
  WorkerStep-Placed (WorkerStep.reads s c req p) h =
      let open_socket : (s.res ≡ none) × (s.shutdown ≡ false) = (rw p at h) in
      (refl, open_socket.0, open_socket.1)
  WorkerStep-Placed (WorkerStep.handles s t t' c c' entries step) h = h
  WorkerStep-Placed (WorkerStep.sends s c req res) h = (refl, h.2)
  WorkerStep-Placed (WorkerStep.writes s c close ec p) h = on_write-InOrder need_eof close ec s p h

  module _ (c0 : Cache E.State) where
    WorkerStep-Replays :
        {w w' : Worker} {c c' : Cache E.State} {entries : List Entry}
        → WorkerStep E H B need_eof w c w' c' entries
        → (log : List Entry) → Replays E H B c0 log c
        → Replays E H B c0 (entries ++ log) c'
    WorkerStep-Replays (WorkerStep.begins s c p) log h = h
    WorkerStep-Replays (WorkerStep.fails s s' c c' fuel ec req p err run) log h =
        subst (Replays E H B c0 log) (read_error fuel ec _ s' c c' err run) h
    WorkerStep-Replays (WorkerStep.reads s c req p) log h = h
    WorkerStep-Replays (WorkerStep.handles s t t' c c' entries step) log h =
        ThreadStep-Replays E H B c0 t t' c c' entries log step h
    WorkerStep-Replays (WorkerStep.sends s c req res) log h = h
    WorkerStep-Replays (WorkerStep.writes s c close ec p) log h = h

    record Sound (srv : Concurrent E.State) : Type 0 where
      replays : Replays E H B c0 srv.log srv.cache
      placed : Every (Placed need_eof) srv.workers
      accepting : srv.listener.accepting ≡ true

    accepts-Sound :
        (srv : Concurrent E.State) (ec : ErrorCode)
        → Every (Placed need_eof) srv.workers
        → ((accepted ec srv).listener.accepting ≡ true)
          × Every (Placed need_eof) (map waiting (accepted ec srv).sessions ++ srv.workers)
    unfolding on_accept
    accepts-Sound srv ErrorCode.success h = (refl, ((refl, refl), h))
    accepts-Sound srv ErrorCode.end_of_stream h = (refl, h)
    accepts-Sound srv (ErrorCode.failed m) h = (refl, h)

    Event-Sound :
        {srv srv' : Concurrent E.State} → Event E H B need_eof srv srv' → Sound srv → Sound srv'
    Event-Sound (Event.accepts srv ec a) g =
        let (accepting, placed) = accepts-Sound srv ec g.placed in
        record { replays = g.replays; placed = placed; accepting = accepting }
    Event-Sound (Event.works srv before after w w' c' entries e step) g = record {
      replays = WorkerStep-Replays step srv.log g.replays;
      placed =
          Every-replace (Placed need_eof) before after w w' (WorkerStep-Placed step)
            (rw e at g.placed);
      accepting = g.accepting;
    }

    Events-Sound : {a b : Concurrent E.State} → Events E H B need_eof a b → Sound a → Sound b
    Events-Sound (Events.none_yet a) g = g
    Events-Sound (Events.next events event) g = Event-Sound event (Events-Sound events g)

  -- On any number of threads, in every state that the server can reach from `main`, with
  -- `maxmem` below 2^31 and an evictor that holds no key, in any order of accepted connections,
  -- requests, errors, steps of handlers before, in and behind the sections of the mutex, and
  -- responses, the cache is what the calls of the sections give, run one after the other in the
  -- order of the mutex on a new cache with some number of rounds; it is valid with this
  -- `maxmem`; a session whose handler is at a request, or that waits for a request, keeps no
  -- message, while one that writes keeps its message and closes afterwards exactly if the
  -- message needs that, all on a socket that is not shut down; and the listener waits for the
  -- next connection.
  pub Events-run_calls :
      (maxmem : ℕ) (evictor : E.State) (l : Listener) (srv : Concurrent E.State)
      → maxmem < 2 ^ 31
      → E.Holds evictor []
      → Events E H B need_eof (concurrent_main maxmem evictor l) srv
      → (fuel : ℕ) × (q : List Bytes) × (run_calls E fuel
            (calls_of srv.log)
            (make maxmem (some evictor))
          ≡ ok srv.cache)
        × IsValid E srv.cache q
        × (srv.cache.maxmem ≡ maxmem)
        × Every (Placed need_eof) srv.workers
        × (srv.listener.accepting ≡ true)
  Events-run_calls maxmem evictor l srv small none_held events =
      let c0 = make maxmem (some evictor) in
      let sound =
        Events-Sound c0 events (record { replays = refl; placed = tt; accepting = refl }) in
      let (fuel, run) = Replays-run_calls E H B c0 srv.log srv.cache sound.replays in
      let (q, valid, bound) =
        Replays-IsValid E H B c0 srv.log srv.cache []
          (make-IsValid E maxmem (some evictor) [] small none_held) sound.replays in
      (fuel, q, run, valid, bound, sound.placed, sound.accepting)
