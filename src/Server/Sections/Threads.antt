-- ===== src/Server/Sections/Threads.antt =====
-- The server's threads with their requests, as long as no data race has made the behaviour undefined:
-- a section, which writes the cache, is then one step. Under `cache_mutex` one thread at a time goes
-- through its section; all else of different threads happens in any order. A fault ends the process,
-- so no step has one.
use hw6_csci.Base.{ℕ, ◌≡◌, List, [], ◌∷◌, ◌++◌, ok}
use hw6_csci.Evictor.{Evictor}
use hw6_csci.Cache.{Cache}
use hw6_csci.Cache.History.{Call}
use hw6_csci.Http.{Request, Response, Http}
use hw6_csci.Text.Split.{Splitter}
use hw6_csci.Server.Sections.{Entered, Held, enter, section, behind}

-- How far a thread is in `handle_request`.
pub data Thread : Type 0 where
  arrived : Request → Thread
  locking : Request → Call → Thread
  unlocked : Request → Held → Thread
  answered : Request → Response → Thread

-- A section: the call that was made in it, and what the thread held after it.
abbrev pub Entry : Type 0
Entry = Call × Held

-- `log` has the sections in the order of the mutex, the last one first.
pub record Threads (S : Type 0) : Type 0 where
  pub threads : List Thread
  pub cache : Cache S
  pub log : List Entry

-- `main` with an empty cache, before any request.
abbrev pub no_threads : {S : Type 0} → Cache S → Threads S
no_threads c = record { threads = []; cache = c; log = [] }

module _ (E : Evictor) (H : Http) (B : Splitter) where
  -- A thread goes on; the entries are those of its section, if it is one.
  pub data ThreadStep : Thread → Cache E.State → Thread → Cache E.State → List Entry → Type 0 where
    answers_at_once :
        (req : Request) (res : Response) (c : Cache E.State)
        → enter E H B req c ≡ ok (Entered.answers res)
        → ThreadStep (Thread.arrived req) c (Thread.answered req res) c []
    enters :
        (req : Request) (a : Call) (c : Cache E.State)
        → enter E H B req c ≡ ok (Entered.locks a)
        → ThreadStep (Thread.arrived req) c (Thread.locking req a) c []
    holds :
        (req : Request) (a : Call) (held : Held) (fuel : ℕ) (c c' : Cache E.State)
        → section E H B fuel a c ≡ ok (held, c')
        → ThreadStep (Thread.locking req a) c (Thread.unlocked req held) c' ((a, held) ∷ [])
    builds :
        (req : Request) (held : Held) (res : Response) (c : Cache E.State)
        → behind E H B req held c ≡ ok res
        → ThreadStep (Thread.unlocked req held) c (Thread.answered req res) c []

  pub data Turn : Threads E.State → Threads E.State → Type 0 where
    arrives :
        (st : Threads E.State) (req : Request)
        → Turn st (record st { threads = Thread.arrived req ∷ st.threads })
    moves :
        (st : Threads E.State) (before after : List Thread) (t t' : Thread) (c' : Cache E.State)
        (entries : List Entry)
        → st.threads ≡ before ++ t ∷ after
        → ThreadStep t st.cache t' c' entries
        → Turn st (record { threads = before ++ t' ∷ after; cache = c'; log = entries ++ st.log })

  pub data Turns : Threads E.State → Threads E.State → Type 0 where
    stop : (st : Threads E.State) → Turns st st
    turn : {a b d : Threads E.State} → Turns a b → Turn b d → Turns a d
