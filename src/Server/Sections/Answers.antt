-- ===== src/Server/Sections/Answers.antt =====
-- Where the answers of the threads come from.
use hw6_csci.Base.{
  ◌≡◌, ◌∙◌, refl, sym, ap, ◌⊎◌, inl, inr, List, [], ◌∷◌, ◌++◌, append_assoc, ok, Every,
  Every-replace, at-Every, Every-weaken,
}
use hw6_csci.Evictor.{Evictor}
use hw6_csci.Cache.{Cache}
use hw6_csci.Cache.History.{Call}
use hw6_csci.Http.{Request, Response, Http}
use hw6_csci.Text.Split.{Splitter}
use hw6_csci.Server.Sections.{Entered, Held, enter, behind}
use hw6_csci.Server.Sections.Threads.{Thread, Threads, Entry, ThreadStep, Turn, Turns, no_threads}
use hw6_csci.Server.Sections.Replay.{Replays, Turns-Replays}

module _ (E : Evictor) (H : Http) (B : Splitter) (c0 : Cache E.State) where
  -- The code before the lock ends so, on some cache.
  abbrev pub Enters : Request → Call → Type 0
  Enters req a = (d : Cache E.State) × (enter E H B req d ≡ ok (Entered.locks a))

  -- The response is that of the code before the lock, on the cache after some of the sections.
  pub record AtOnce (log : List Entry) (req : Request) (res : Response) : Type 0 where
    pub newer : List Entry
    pub older : List Entry
    pub cache : Cache E.State
    pub split : log ≡ newer ++ older
    pub replays : Replays E H B c0 older cache
    pub entered : enter E H B req cache ≡ ok (Entered.answers res)

  -- The request's section is in the log.
  pub record Logged (log : List Entry) (req : Request) (held : Held) : Type 0 where
    pub newer : List Entry
    pub older : List Entry
    pub made : Call
    pub split : log ≡ newer ++ (made, held) ∷ older
    pub entered : Enters req made

  -- The response is that of the code behind the lock, on the cache after the request's own section
  -- and those of `between`.
  pub record Behind (log : List Entry) (req : Request) (res : Response) : Type 0 where
    pub newer : List Entry
    pub between : List Entry
    pub older : List Entry
    pub made : Call
    pub held : Held
    pub cache : Cache E.State
    pub split : log ≡ newer ++ (between ++ (made, held) ∷ older)
    pub entered : Enters req made
    pub replays : Replays E H B c0 (between ++ (made, held) ∷ older) cache
    pub built : behind E H B req held cache ≡ ok res

  abbrev pub Answered : List Entry → Request → Response → Type 0
  Answered log req res = AtOnce log req res ⊎ Behind log req res

  abbrev Traced : List Entry → Thread → Type 0
  Traced log (Thread.arrived req) = Unit
  Traced log (Thread.locking req a) = Enters req a
  Traced log (Thread.unlocked req held) = Logged log req held
  Traced log (Thread.answered req res) = Answered log req res

  later : (entries xs ys log : List Entry) → log ≡ xs ++ ys → entries ++ log ≡ (entries ++ xs) ++ ys
  later entries xs ys log e = ap (λ l. entries ++ l) e ∙ sym (append_assoc entries xs ys)

  Traced-later : (entries log : List Entry) (t : Thread) → Traced log t → Traced (entries ++ log) t
  Traced-later entries log (Thread.arrived req) h = tt
  Traced-later entries log (Thread.locking req a) h = h
  Traced-later entries log (Thread.unlocked req held) h = record {
    newer = entries ++ h.newer;
    older = h.older;
    made = h.made;
    entered = h.entered;
    split = later entries h.newer _ log h.split;
  }
  Traced-later entries log (Thread.answered req res) (inl h) = inl (record {
    newer = entries ++ h.newer;
    older = h.older;
    cache = h.cache;
    replays = h.replays;
    entered = h.entered;
    split = later entries h.newer _ log h.split;
  })
  Traced-later entries log (Thread.answered req res) (inr h) = inr (record {
    newer = entries ++ h.newer;
    between = h.between;
    older = h.older;
    made = h.made;
    held = h.held;
    cache = h.cache;
    entered = h.entered;
    replays = h.replays;
    built = h.built;
    split = later entries h.newer _ log h.split;
  })

  ThreadStep-Traced :
      (t t' : Thread) (c c' : Cache E.State) (entries log : List Entry)
      → ThreadStep E H B t c t' c' entries
      → Replays E H B c0 log c
      → Traced log t
      → Traced (entries ++ log) t'
  ThreadStep-Traced _ _ _ _ _ log (ThreadStep.answers_at_once req res c e) replays h =
      inl (record {
        newer = [];
        older = log;
        cache = c;
        split = refl;
        replays = replays;
        entered = e;
      })
  ThreadStep-Traced _ _ _ _ _ log (ThreadStep.enters req a c e) replays h = (c, e)
  ThreadStep-Traced _ _ _ _ _ log (ThreadStep.holds req a held fuel c c' e) replays h = record {
    newer = [];
    older = log;
    made = a;
    split = refl;
    entered = h;
  }
  ThreadStep-Traced _ _ _ _ _ log (ThreadStep.builds req held res c e) replays h = inr (record {
    newer = [];
    between = h.newer;
    older = h.older;
    made = h.made;
    held = held;
    cache = c;
    split = h.split;
    entered = h.entered;
    replays = rw h.split at replays;
    built = e;
  })

  Turn-Traced :
      (st st' : Threads E.State)
      → Turn E H B st st'
      → Replays E H B c0 st.log st.cache
      → Every (Traced st.log) st.threads
      → Every (Traced st'.log) st'.threads
  Turn-Traced _ _ (Turn.arrives st req) replays every = (tt, every)
  Turn-Traced _ _ (Turn.moves st before after t t' c' entries e step) replays every =
      let threads = rw e at every in
      let own = at-Every (Traced st.log) before after t threads in
      let later =
        Every-weaken (Traced st.log) (Traced (entries ++ st.log)) (before ++ t ∷ after)
          (Traced-later entries st.log) threads in
      Every-replace (Traced (entries ++ st.log)) before after t t'
        (λ _. ThreadStep-Traced t t' st.cache c' entries st.log step replays own) later

  Turns-Traced :
      (st : Threads E.State) → Turns E H B (no_threads c0) st → Every (Traced st.log) st.threads
  Turns-Traced _ (Turns.stop st) = tt
  Turns-Traced _ (Turns.turn {b = b} {d = d} turns step) =
      Turn-Traced b d step (Turns-Replays E H B c0 b turns) (Turns-Traced b turns)

  -- In every state that threads with any requests can reach from a cache, every answer is either
  -- that of the code before the lock, on the cache as it was after some of the sections, or that
  -- of the code behind the lock, from what the request's own section has left it with, on the
  -- cache as it was after that section and those of other threads that may have come in between.
  pub Turns-Answered :
      (st : Threads E.State) (before after : List Thread) (req : Request) (res : Response)
      → Turns E H B (no_threads c0) st
      → st.threads ≡ before ++ Thread.answered req res ∷ after
      → Answered st.log req res
  Turns-Answered st before after req res turns e =
      at-Every (Traced st.log) before after (Thread.answered req res)
        (rw e at (Turns-Traced st turns))
