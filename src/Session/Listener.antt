-- ===== src/Session/Listener.antt =====
-- The listener, its sessions and the cache they share.
use hw6_csci.Base.{ℕ, ◌≡◌, Bool, true, false, some, List, [], ◌∷◌, ◌++◌, if◌then◌else◌, codes}
use hw6_csci.Evictor.{Evictor}
use hw6_csci.Cache.{Cache, make}
use hw6_csci.Http.{Response, Http}
use hw6_csci.Text.Split.{Splitter}
use hw6_csci.Session.{Session, SessionStep, ErrorCode, is_error, Log, fail, run_session}

-- `listening` tells whether all of the constructor's calls have succeeded; `accepting`, whether an
-- `async_accept` is outstanding.
pub record Listener : Type 0 where
  pub listening : Bool
  pub accepting : Bool
  pub log : Log

-- The constructor, by the results of `open`, `set_option`, `bind` and `listen`.
unfoldable pub make_listener : ErrorCode → ErrorCode → ErrorCode → ErrorCode → Listener
make_listener opened option bound listened =
    let no : Listener = record { listening = false; accepting = false; log = [] } in
    if is_error opened
    then record no { log = fail opened (codes "open") no.log }
    else if is_error option
    then record no { log = fail option (codes "set_option") no.log }
    else if is_error bound
    then record no { log = fail bound (codes "bind") no.log }
    else if is_error listened
    then record no { log = fail listened (codes "listen") no.log }
    else record no { listening = true }

-- `run` and `do_accept`
abbrev pub do_accept : Listener → Listener
do_accept l = record l { accepting = true }

pub record Server (S : Type 0) : Type 0 where
  pub listener : Listener
  pub sessions : List Session
  pub cache : Cache S

-- `on_accept`: a session for the connection, if there is one, and the next `async_accept`.
unfoldable pub on_accept : {S : Type 0} → ErrorCode → Server S → Server S
on_accept ec srv =
    let next = do_accept srv.listener in
    if is_error ec
    then record srv { listener = record next { log = fail ec (codes "accept") next.log } }
    else record srv { listener = next; sessions = run_session ∷ srv.sessions }

-- `main`: the cache with its evictor, and the listener, which starts to accept whether or not its
-- constructor has succeeded.
abbrev pub main : {S : Type 0} → ℕ → S → Listener → Server S
main maxmem evictor l = record {
  listener = do_accept l;
  sessions = [];
  cache = make maxmem (some evictor);
}

module _ (E : Evictor) (H : Http) (B : Splitter) (need_eof : Response → Bool) where
  pub data Step : Server E.State → Server E.State → Type 0 where
    accepts :
        (srv : Server E.State) (ec : ErrorCode)
        → srv.listener.accepting ≡ true
        → Step srv (on_accept ec srv)
    serves :
        (srv : Server E.State) (before after : List Session) (s s' : Session) (c' : Cache E.State)
        → srv.sessions ≡ before ++ s ∷ after
        → SessionStep E H B need_eof s srv.cache s' c'
        → Step srv (record srv { sessions = before ++ s' ∷ after; cache = c' })

  pub data Steps : Server E.State → Server E.State → Type 0 where
    done : (srv : Server E.State) → Steps srv srv
    more : {a b d : Server E.State} → Steps a b → Step b d → Steps a d
