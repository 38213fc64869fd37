-- ===== src/Server/Sections/Replay.antt =====
-- The sections of all threads as one sequence of calls.
use hw6_csci.Base.{
  ℕ, ◌+◌, ◌^◌, ◌<◌, ◌≡◌, ◌∙◌, refl, some, List, [], ◌∷◌, ◌++◌, arith, Bytes, ok, Outcome-cases, inl,
  inr,
}
use hw6_csci.Evictor.{Evictor}
use hw6_csci.Cache as CacheOf
use hw6_csci.Cache.{Cache, make}
use hw6_csci.Cache.Valid.{IsValid}
use hw6_csci.Cache.Reads.{make-IsValid}
use hw6_csci.Cache.Total.{call-IsValid}
use hw6_csci.Cache.History.{Call, set_call, get_call, del_call, reset_call, call, run_calls}
use hw6_csci.Cache.History.Fuel.{call-more, run_calls-more}
use hw6_csci.Http.{Http}
use hw6_csci.Text.Split.{Splitter}
use hw6_csci.Server.Sections.{Held, section}
use hw6_csci.Server.Sections.Threads.{Thread, Threads, Entry, ThreadStep, Turn, Turns, no_threads}

-- The calls, the last one first.
abbrev pub calls_of : List Entry → List Call
calls_of [] = []
calls_of ((a, held) ∷ log) = a ∷ calls_of log

module _ (E : Evictor) (H : Http) (B : Splitter) (c0 : Cache E.State) where
  -- The sections, run one after the other from `c0` on, come to `c` and leave what is written down.
  abbrev pub Replays : List Entry → Cache E.State → Type 0
  Replays [] c = c ≡ c0
  Replays ((a, held) ∷ log) c =
      (fuel : ℕ) × (d : Cache E.State) × Replays log d × (section E H B fuel a d ≡ ok (held, c))

  pub ThreadStep-Replays :
      (t t' : Thread) (c c' : Cache E.State) (entries log : List Entry)
      → ThreadStep E H B t c t' c' entries
      → Replays log c
      → Replays (entries ++ log) c'
  ThreadStep-Replays _ _ _ _ _ log (ThreadStep.answers_at_once req res c e) replays = replays
  ThreadStep-Replays _ _ _ _ _ log (ThreadStep.enters req a c e) replays = replays
  ThreadStep-Replays _ _ _ _ _ log (ThreadStep.holds req a held fuel c c' e) replays =
      (fuel, c, replays, e)
  ThreadStep-Replays _ _ _ _ _ log (ThreadStep.builds req held res c e) replays = replays

  Turn-Replays :
      (st st' : Threads E.State)
      → Turn E H B st st'
      → Replays st.log st.cache
      → Replays st'.log st'.cache
  Turn-Replays _ _ (Turn.arrives st req) replays = replays
  Turn-Replays _ _ (Turn.moves st before after t t' c' entries e step) replays =
      ThreadStep-Replays t t' st.cache c' entries st.log step replays

  pub Turns-Replays :
      (st : Threads E.State) → Turns E H B (no_threads c0) st → Replays st.log st.cache
  Turns-Replays _ (Turns.stop st) = refl
  Turns-Replays _ (Turns.turn {b = b} {d = d} turns step) =
      Turn-Replays b d step (Turns-Replays b turns)

  section-call :
      (fuel : ℕ) (a : Call) (held : Held) (c c' : Cache E.State)
      → section E H B fuel a c ≡ ok (held, c')
      → call E fuel a c ≡ ok c'
  unfolding section call
  section-call fuel (set_call key text n) held c c' run =
      elim (Outcome-cases (CacheOf.set E fuel key (some (text ++ 0 ∷ [])) n c)) [
        | inl (d, e) ↦ ground arith
        | inr (f, e) ↦ ground arith
      ]
  section-call fuel (get_call key) held c c' run = elim (Outcome-cases (CacheOf.get E key c)) [
    | inl ((r, d), e) ↦ ground arith
    | inr (f, e) ↦ ground arith
  ]
  section-call fuel (del_call key) held c c' run = ground arith
  section-call fuel reset_call held c c' run = ground arith

  pub Replays-run_calls :
      (log : List Entry) (c : Cache E.State)
      → Replays log c
      → (fuel : ℕ) × (run_calls E fuel (calls_of log) c0 ≡ ok c)
  unfolding run_calls
  Replays-run_calls [] c replays = (0, rw replays refl)
  Replays-run_calls ((a, held) ∷ log) c (n, d, replays, run) =
      let (m, before) = Replays-run_calls log d replays in
      let before' = run_calls-more E m (m + n) (omega arith) (calls_of log) c0 d before in
      let last = call-more E n (m + n) (omega arith) a d c (section-call n a held d c run) in
      (m + n, rw before' last)

  pub Replays-IsValid :
      (log : List Entry) (c : Cache E.State) (q : List Bytes)
      → IsValid E c0 q
      → Replays log c
      → (q' : List Bytes) × IsValid E c q' × (c.maxmem ≡ c0.maxmem)
  Replays-IsValid [] c q valid replays = rw replays (q, valid, refl)
  Replays-IsValid ((a, held) ∷ log) c q valid (n, d, replays, run) =
      let (q', valid', bound) = Replays-IsValid log d q valid replays in
      let (q'', valid'', bound') =
        call-IsValid E d q' valid' n a c (section-call n a held d c run) in
      (q'', valid'', bound' ∙ bound)

module _ (E : Evictor) (H : Http) (B : Splitter) (maxmem : ℕ) (s : E.State) where
  -- With `maxmem` below 2^31 and an evictor that holds no key, in every state that threads with
  -- any requests can reach from a new cache, in any order of the steps before, in and behind the
  -- sections of the mutex, the cache is what the calls of the sections give, run one after the
  -- other in the order of the mutex on a new cache with some number of rounds; and it is valid
  -- with this `maxmem`.
  pub Turns-run_calls :
      (st : Threads E.State)
      → maxmem < 2 ^ 31
      → E.Holds s []
      → Turns E H B (no_threads (make maxmem (some s))) st
      → (fuel : ℕ) × (q : List Bytes) × (run_calls E fuel (calls_of st.log) (make maxmem (some s))
          ≡ ok st.cache)
        × IsValid E st.cache q
        × (st.cache.maxmem ≡ maxmem)
  Turns-run_calls st small none_held turns =
      let c0 = make maxmem (some s) in
      let replays = Turns-Replays E H B c0 st turns in
      let (fuel, run) = Replays-run_calls E H B c0 st.log st.cache replays in
      let (q, valid, bound) =
        Replays-IsValid E H B c0 st.log st.cache []
          (make-IsValid E maxmem (some s) [] small none_held) replays in
      (fuel, q, run, valid, bound)
