-- ===== src/Server/Sections/Alone.antt =====
-- A thread that goes on while the others stand still.
use hw6_csci.Base.{
  ℕ, suc, ◌^◌, ◌<◌, ◌≡◌, ◌≢◌, refl, ◌⊎◌, inl, inr, some, List, [], ◌∷◌, ◌++◌, arith, Bytes, codes,
  Fault, ok, fault, length, Outcome-cases, sym, ◌∙◌,
}
use mathlib.Core.Path.{subst}
use hw6_csci.Evictor.{Evictor}
use hw6_csci.Cache.{Cache, make}
use hw6_csci.Cache.History.{Call}
use hw6_csci.Cache.Valid.{IsValid}
use hw6_csci.Http.{Verb, Request, Response, Http}
use hw6_csci.Text.Split.{Splitter}
use hw6_csci.Server.{handle_request}
use hw6_csci.Server.Outcomes.{Handled, EvictsItself, NoSize, asserted_parts, handle_request-Handled}
use hw6_csci.Server.Sections.{Entered, Held, enter, section, behind, undisturbed}
use hw6_csci.Server.Sections.Undisturbed.{handle_request-undisturbed}
use hw6_csci.Server.Sections.Threads.{Thread, Threads, ThreadStep, Turn, Turns, no_threads}
use hw6_csci.Server.Sections.Replay.{Turns-run_calls}

module _ (E : Evictor) (H : Http) (B : Splitter) (before after : List Thread) (req : Request) where
  -- The thread has its answer, and the other threads are as they were.
  abbrev pub Answers : Threads E.State → Response → Cache E.State → Type 0
  Answers st res c =
      (st' : Threads E.State) × Turns E H B st st'
      × (st'.threads ≡ before ++ Thread.answered req res ∷ after)
      × (st'.cache ≡ c)

  module _ (st : Threads E.State) (waits : st.threads ≡ before ++ Thread.arrived req ∷ after)
      (res : Response) (c' : Cache E.State) where
    at_once : enter E H B req st.cache ≡ ok (Entered.answers res) → Answers st res st.cache
    at_once e =
        let step = ThreadStep.answers_at_once req res st.cache e in
        (
          _,
          Turns.turn (Turns.stop st) (
              Turn.moves st before after (Thread.arrived req) (Thread.answered req res) st.cache []
                waits step),
          refl,
          refl,
        )

    through_lock :
        (fuel : ℕ) (a : Call) (held : Held)
        → enter E H B req st.cache ≡ ok (Entered.locks a)
        → section E H B fuel a st.cache ≡ ok (held, c')
        → behind E H B req held c' ≡ ok res
        → Answers st res c'
    through_lock fuel a held entered run built =
        let c = st.cache in
        let first =
          Turn.moves st before after _ (Thread.locking req a) c [] waits
            (ThreadStep.enters req a c entered) in
        let at_lock : Threads E.State = record {
          threads = before ++ Thread.locking req a ∷ after;
          cache = c;
          log = st.log;
        } in
        let second =
          Turn.moves at_lock before after _ (Thread.unlocked req held) c' ((a, held) ∷ []) refl
            (ThreadStep.holds req a held fuel c c' run) in
        let at_unlock : Threads E.State = record {
          threads = before ++ Thread.unlocked req held ∷ after;
          cache = c';
          log = (a, held) ∷ st.log;
        } in
        let third =
          Turn.moves at_unlock before after _ (Thread.answered req res) c' [] refl
            (ThreadStep.builds req held res c' built) in
        (_, Turns.turn (Turns.turn (Turns.turn (Turns.stop st) first) second) third, refl, refl)

    alone : (fuel : ℕ) → undisturbed E H B fuel req st.cache ≡ ok (res, c') → Answers st res c'
    unfolding undisturbed
    alone fuel run = elim (Outcome-cases (enter E H B req st.cache)) [
      | inr (f, e) ↦ absurd (ground arith)
      | inl (Entered.answers r, e) ↦
          let same_res : r ≡ res = ground arith in
          let same_cache : st.cache ≡ c' = ground arith in
          subst (Answers st res) same_cache (at_once (rw same_res at e))
      | inl (Entered.locks a, e) ↦ elim (Outcome-cases (section E H B fuel a st.cache)) [
        | inr (f, e') ↦ absurd (ground arith)
        | inl ((held, d), e') ↦ elim (Outcome-cases (behind E H B req held d)) [
          | inr (f, e'') ↦ absurd (ground arith)
          | inl (r, e'') ↦
              let same_res : r ≡ res = ground arith in
              let same_cache : d ≡ c' = ground arith in
              through_lock fuel a held e (rw same_cache at e') (rw (same_cache, same_res) at e'')
        ]
      ]
    ]

-- Why a request that arrives has no answer: an assertion on the parts of its body, the eviction of
-- the entry that it replaces, or a size that is read uninitialised.
abbrev pub Aborts : (E : Evictor) → Splitter → Request → Cache E.State → Type 0
Aborts E B req c =
    ((n : ℕ) × (asserted_parts req.method ≡ some n) × (length (B.split (codes "/") req.body) ≢ n))
    ⊎ (((q : List Bytes) × IsValid E c q × EvictsItself E B req c q)
        ⊎ ((req.method ≡ Verb.put) × NoSize B req))

module _ (E : Evictor) (H : Http) (B : Splitter) where
  aborts :
      (req : Request) (c : Cache E.State) (q : List Bytes) (f : Fault)
      → IsValid E c q
      → Handled E B req c q (fault f)
      → Aborts E B req c
  aborts req c q Fault.assertion valid h = inl h
  aborts req c q Fault.dangling_iterator valid h = inr (inl (q, valid, h.1))
  aborts req c q Fault.uninitialised valid h = inr (inr h)
  aborts req c q Fault.system_error valid h = absurd h
  aborts req c q Fault.null_pointer valid h = absurd h
  aborts req c q Fault.missing_entry valid h = absurd h
  aborts req c q Fault.empty_container valid h = absurd h
  aborts req c q Fault.unterminated valid h = absurd h
  aborts req c q Fault.out_of_range valid h = absurd h
  aborts req c q Fault.invalid_argument valid h = absurd h
  aborts req c q Fault.out_of_fuel valid h = absurd h

  -- With `maxmem` below 2^31 and an evictor that holds no key, in every state that the threads
  -- can reach from a new cache, a request that has arrived comes to its answer by steps that
  -- leave the other threads where they are; or the body has another number of parts than its
  -- handler asserts, or it replaces a stored key that its own evictions remove, or it is a `PUT`
  -- with nothing but spaces for its size.
  pub arrived-Answers :
      (maxmem : ℕ) (s : E.State) (st : Threads E.State) (before after : List Thread) (req : Request)
      → maxmem < 2 ^ 31
      → E.Holds s []
      → Turns E H B (no_threads (make maxmem (some s))) st
      → st.threads ≡ before ++ Thread.arrived req ∷ after
      → ((res : Response) × (c : Cache E.State) × Answers E H B before after req st res c)
        ⊎ Aborts E B req st.cache
  arrived-Answers maxmem s st before after req small none_held turns waits =
      let (_, q, _, valid, _) = Turns-run_calls E H B maxmem s st small none_held turns in
      let fuel = suc (length q) in
      let handled = handle_request-Handled E H B fuel req st.cache q valid (omega arith) in
      elim (Outcome-cases (handle_request E H B fuel req st.cache)) [
        | inl ((res, c), e) ↦ inl (
          res,
          c,
          alone E H B before after req st waits res c fuel
              (sym (handle_request-undisturbed E H B fuel req st.cache) ∙ e),
        )
        | inr (f, e) ↦ inr (aborts req st.cache q f valid (rw e at handled))
      ]
