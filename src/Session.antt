-- ===== src/Session.antt =====
-- `fail`, `session`, `listener` and `main` of cache_server.cc: what each completion handler does,
-- and the server as a relation on its states, in which Asio runs the handlers in any order. A
-- handler runs as a whole but in Concurrent. A session that waits for nothing stays in the list.
mod Tests
pub mod Listener
pub mod Reachable
pub mod Opening
pub mod Concurrent
use hw6_csci.Base.{
  ℕ, ◌≡◌, Bool, true, false, Option, none, some, List, [], ◌∷◌, ◌++◌, if◌then◌else◌, Bytes, codes,
  Outcome, ok, ◌>>=◌,
}
use hw6_csci.Evictor.{Evictor}
use hw6_csci.Cache.{Cache}
use hw6_csci.Http.{Verb, Request, Response, Http}
use hw6_csci.Text.Split.{Splitter}
use hw6_csci.Server.{handle_request}

-- `beast::error_code`, as far as the handlers tell the codes apart.
pub data ErrorCode : Type 0 where
  success end_of_stream : ErrorCode
  failed : Bytes → ErrorCode

abbrev pub is_error : ErrorCode → Bool
is_error ErrorCode.success = false
is_error ErrorCode.end_of_stream = true
is_error (ErrorCode.failed _) = true

-- The lines on `std::cerr`: what failed, and the code.
abbrev pub Log : Type 0
Log = List (Bytes × ErrorCode)

abbrev pub fail : ErrorCode → Bytes → Log → Log
fail ec what log = log ++ (what, ec) ∷ []

-- What a session waits for: that `do_read`, `on_read` or `on_write` is run, the last with `close`.
pub data Pending : Type 0 where
  idle starting reading : Pending
  writing : Bool → Pending

-- The members of a session, and whether its socket is shut down for sending.
pub record Session : Type 0 where
  pub pending : Pending
  pub req : Request
  pub res : Option Response
  pub shutdown : Bool
  pub log : Log

-- `req_ = {}`
abbrev pub no_request : Request
no_request = record {
  method = Verb.other;
  target = [];
  version = 11;
  fields = [];
  keep_alive = true;
  body = [];
}

-- The constructor, and `run`, which dispatches `do_read`.
abbrev pub run_session : Session
run_session = record {
  pending = Pending.starting;
  req = no_request;
  res = none;
  shutdown = false;
  log = [];
}

abbrev pub do_read : Session → Session
do_read s = record s { req = no_request; pending = Pending.reading }

abbrev pub do_close : Session → Session
do_close s = record s { shutdown = true }

abbrev pub fail_session : ErrorCode → Bytes → Session → Session
fail_session ec what s = record s { log = fail ec what s.log }

-- `send_lambda`; `need_eof` is Beast's.
unfoldable pub send : (Response → Bool) → Response → Session → Session
send need_eof res s = record s { res = some res; pending = Pending.writing (need_eof res) }

unfoldable pub on_write : Bool → ErrorCode → Session → Session
on_write close ec s =
    if is_error ec
    then fail_session ec (codes "write") s
    else if close
    then do_close s
    else do_read (record s { res = none })

module _ (E : Evictor) (H : Http) (B : Splitter) (need_eof : Response → Bool) where
  unfoldable pub on_read :
      ℕ → ErrorCode → Session → Cache E.State → Outcome (Session × Cache E.State)
  on_read fuel ErrorCode.end_of_stream s c = ok (do_close s, c)
  on_read fuel (ErrorCode.failed m) s c = ok (fail_session (ErrorCode.failed m) (codes "read") s, c)
  on_read fuel ErrorCode.success s c = do
    (res, c') ← handle_request E H B fuel s.req c
    ok (send need_eof res s, c')

  -- Asio runs the handler that a session waits for.
  pub data SessionStep : Session → Cache E.State → Session → Cache E.State → Type 0 where
    starts :
        (s : Session) (c : Cache E.State)
        → s.pending ≡ Pending.starting
        → SessionStep s c (do_read (record s { pending = Pending.idle })) c
    has_read :
        (s s' : Session) (c c' : Cache E.State) (fuel : ℕ) (ec : ErrorCode) (req : Request)
        → s.pending ≡ Pending.reading
        → on_read fuel ec (record s { pending = Pending.idle; req = req }) c ≡ ok (s', c')
        → SessionStep s c s' c'
    has_written :
        (s : Session) (c : Cache E.State) (close : Bool) (ec : ErrorCode)
        → s.pending ≡ Pending.writing close
        → SessionStep s c (on_write close ec (record s { pending = Pending.idle })) c
