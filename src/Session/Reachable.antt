-- ===== src/Session/Reachable.antt =====
-- What holds of every state that the server can reach.
use hw6_csci.Base.{
  ap, ◌∙◌, ℕ, ◌<◌, ◌^◌, ◌≡◌, refl, Bool, true, false, Option, none, some, List, [], arith, Bytes,
  ok, Outcome-cases, inl, inr, ◌⊎◌, Every, Every-replace,
}
use hw6_csci.Evictor.{Evictor}
use hw6_csci.Cache.{Cache}
use hw6_csci.Cache.Valid.{IsValid}
use hw6_csci.Cache.Reads.{make-IsValid}
use hw6_csci.Http.{Request, Response, Http}
use hw6_csci.Text.Split.{Splitter}
use hw6_csci.Server.{handle_request}
use hw6_csci.Server.Keeps.{handle_request-IsValid}
use hw6_csci.Session.{
  Session, SessionStep, starts, has_read, has_written, Pending, ErrorCode, on_read, on_write, send,
}
use hw6_csci.Session.Listener.{
  Listener, Server, Step, Steps, accepts, serves, done, more, on_accept, main,
}

-- A session that waits for a request keeps no message; one that writes keeps the message, and
-- closes afterwards if the message needs that. Both have a socket that is not shut down.
abbrev pub InPhase : (Response → Bool) → Pending → Option Response → Bool → Type 0
InPhase need_eof Pending.idle res shutdown = Unit
InPhase need_eof Pending.starting res shutdown = (res ≡ none) × (shutdown ≡ false)
InPhase need_eof Pending.reading res shutdown = (res ≡ none) × (shutdown ≡ false)
InPhase need_eof (Pending.writing close) none shutdown = ⊥
InPhase need_eof (Pending.writing close) (some res) shutdown =
    (close ≡ need_eof res) × (shutdown ≡ false)

abbrev pub InOrder : (Response → Bool) → Session → Type 0
InOrder need_eof s = InPhase need_eof s.pending s.res s.shutdown

pub record Good (E : Evictor) (need_eof : Response → Bool) (maxmem : ℕ) (srv : Server E.State)
    : Type 0 where
  pub queue : List Bytes
  pub valid : IsValid E srv.cache queue
  pub bound : srv.cache.maxmem ≡ maxmem
  pub accepting : srv.listener.accepting ≡ true
  pub in_order : Every (InOrder need_eof) srv.sessions

module _ (need_eof : Response → Bool) where
  open_socket :
      (close : Bool) (s : Session)
      → s.pending ≡ Pending.writing close
      → InOrder need_eof s
      → s.shutdown ≡ false
  open_socket close s p h = open_phase close s.res s.shutdown (rw p at h)
    where
      open_phase :
          (close : Bool) (res : Option Response) (shutdown : Bool)
          → InPhase need_eof (Pending.writing close) res shutdown
          → shutdown ≡ false
      open_phase close none shutdown h = absurd h
      open_phase close (some res) shutdown h = h.1

  pub on_write-InOrder :
      (close : Bool) (ec : ErrorCode) (s : Session)
      → s.pending ≡ Pending.writing close
      → InOrder need_eof s
      → InOrder need_eof (on_write close ec (record s { pending = Pending.idle }))
  unfolding on_write
  on_write-InOrder true ErrorCode.success s p h = tt
  on_write-InOrder false ErrorCode.success s p h = (refl, open_socket false s p h)
  on_write-InOrder close ErrorCode.end_of_stream s p h = tt
  on_write-InOrder close (ErrorCode.failed m) s p h = tt

module _ (E : Evictor) (H : Http) (B : Splitter) (need_eof : Response → Bool) where
  -- What `on_read` returns: the session is done, or it writes the response to its request.
  on_read_cases :
      (fuel : ℕ) (ec : ErrorCode) (s s' : Session) (c c' : Cache E.State)
      → on_read E H B need_eof fuel ec s c ≡ ok (s', c')
      → ((s'.pending ≡ s.pending) × (c' ≡ c))
        ⊎ ((res : Response) × (handle_request E H B fuel s.req c ≡ ok (res, c'))
            × (s' ≡ send need_eof res s))
  unfolding on_read send
  on_read_cases fuel ErrorCode.end_of_stream s s' c c' run = inl (ground arith)
  on_read_cases fuel (ErrorCode.failed m) s s' c c' run = inl (ground arith)
  on_read_cases fuel ErrorCode.success s s' c c' run =
      elim (Outcome-cases (handle_request E H B fuel s.req c)) [
        | inl ((res, d), f) ↦ inr (res, cc, cc)
        | inr (b, f) ↦ cc
      ]

  pub on_read-InOrder :
      (fuel : ℕ) (ec : ErrorCode) (req : Request) (s s' : Session) (c c' : Cache E.State)
      → s.pending ≡ Pending.reading
      → on_read E H B need_eof fuel ec (record s { pending = Pending.idle; req = req }) c
        ≡ ok (s', c')
      → InOrder need_eof s
      → InOrder need_eof s'
  unfolding send
  on_read-InOrder fuel ec req s s' c c' p run h = elim (on_read_cases fuel ec _ s' c c' run) [
    | inl (e, _) ↦ rw e tt
    | inr (res, _, e) ↦
        let kept : (s.res ≡ none) × (s.shutdown ≡ false) = (rw p at h) in rw e (refl, kept.1)
  ]

  on_read-IsValid :
      (fuel : ℕ) (ec : ErrorCode) (s s' : Session) (c c' : Cache E.State) (q : List Bytes)
      → on_read E H B need_eof fuel ec s c ≡ ok (s', c')
      → IsValid E c q
      → (q' : List Bytes) × IsValid E c' q' × (c'.maxmem ≡ c.maxmem)
  on_read-IsValid fuel ec s s' c c' q run valid = elim (on_read_cases fuel ec s s' c c' run) [
    | inl (_, e) ↦ (q, rw e valid, ap (λ (d : Cache E.State). d.maxmem) e)
    | inr (res, f, _) ↦ handle_request-IsValid E H B fuel s.req c c' res q valid f
  ]

  SessionStep-InOrder :
      {s s' : Session} {c c' : Cache E.State}
      → SessionStep E H B need_eof s c s' c'
      → InOrder need_eof s
      → InOrder need_eof s'
  SessionStep-InOrder (starts s c p) h = (rw p at h)
  SessionStep-InOrder (has_read s s' c c' fuel ec req p run) h =
      on_read-InOrder fuel ec req s s' c c' p run h
  SessionStep-InOrder (has_written s c close ec p) h = on_write-InOrder need_eof close ec s p h

  SessionStep-IsValid :
      {s s' : Session} {c c' : Cache E.State}
      → SessionStep E H B need_eof s c s' c'
      → (q : List Bytes) → IsValid E c q
      → (q' : List Bytes) × IsValid E c' q' × (c'.maxmem ≡ c.maxmem)
  SessionStep-IsValid (starts s c p) q valid = (q, valid, refl)
  SessionStep-IsValid (has_read s s' c c' fuel ec req p run) q valid =
      on_read-IsValid fuel ec _ s' c c' q run valid
  SessionStep-IsValid (has_written s c close ec p) q valid = (q, valid, refl)

  on_accept-Good :
      (maxmem : ℕ) (srv : Server E.State) (ec : ErrorCode)
      → Good E need_eof maxmem srv
      → Good E need_eof maxmem (on_accept ec srv)
  unfolding on_accept
  on_accept-Good maxmem srv ErrorCode.success g = record {
    queue = g.queue;
    valid = g.valid;
    bound = g.bound;
    accepting = refl;
    in_order = ((refl, refl), g.in_order);
  }
  on_accept-Good maxmem srv ErrorCode.end_of_stream g = record {
    queue = g.queue;
    valid = g.valid;
    bound = g.bound;
    accepting = refl;
    in_order = g.in_order;
  }
  on_accept-Good maxmem srv (ErrorCode.failed m) g = record {
    queue = g.queue;
    valid = g.valid;
    bound = g.bound;
    accepting = refl;
    in_order = g.in_order;
  }

  Step-Good :
      {maxmem : ℕ} {srv srv' : Server E.State}
      → Step E H B need_eof srv srv'
      → Good E need_eof maxmem srv
      → Good E need_eof maxmem srv'
  Step-Good {maxmem} (accepts srv ec a) g = on_accept-Good maxmem srv ec g
  Step-Good (serves srv before after s s' c' e step) g =
      let (q', valid', same) = SessionStep-IsValid step g.queue g.valid in
      record {
        queue = q';
        valid = valid';
        bound = same ∙ g.bound;
        accepting = g.accepting;
        in_order =
            Every-replace (InOrder need_eof) before after s s' (SessionStep-InOrder step)
              (rw e at g.in_order);
      }

  from_main :
      (maxmem : ℕ) (evictor : E.State) (l : Listener)
      → maxmem < 2 ^ 31
      → E.Holds evictor []
      → Good E need_eof maxmem (main maxmem evictor l)
  from_main maxmem evictor l small holds = record {
    queue = [];
    valid = make-IsValid E maxmem (some evictor) [] small holds;
    bound = refl;
    accepting = refl;
    in_order = tt;
  }

  -- In every state that the server can reach from `main`, with `maxmem` below 2^31 and an
  -- evictor that holds no key, in any order of accepted connections, requests, responses and
  -- errors, the cache is valid with this `maxmem`, so its memory in use is within it; and a
  -- session that waits for a request keeps no message, while one that writes keeps its message
  -- and closes afterwards exactly if the message needs that, both on a socket that is not shut
  -- down; and the listener waits for the next connection.
  pub reachable-Good :
      (maxmem : ℕ) (evictor : E.State) (l : Listener) (srv : Server E.State)
      → maxmem < 2 ^ 31
      → E.Holds evictor []
      → Steps E H B need_eof (main maxmem evictor l) srv
      → Good E need_eof maxmem srv
  reachable-Good maxmem evictor l srv small holds steps =
      go steps (from_main maxmem evictor l small holds)
    where
      go :
          {a b : Server E.State}
          → Steps E H B need_eof a b
          → Good E need_eof maxmem a
          → Good E need_eof maxmem b
      go (done a) g = g
      go (more steps step) g = Step-Good step (go steps g)
