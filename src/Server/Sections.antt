-- ===== src/Server/Sections.antt =====
-- `handle_request` of cache_server.cc by the sections of `cache_mutex`: what a thread does before it
-- locks it, under it, and after it has unlocked it. `HEAD` reads the memory in use without it, and so
-- do, behind it, `GET` the text behind its pointer and `POST` the memory in use: where another thread
-- is inside its section and writes these, that is a data race, and its behaviour is undefined. Without
-- one, each such read is before or after every section, so it reads the cache as a section left it.
pub mod Undisturbed
pub mod Threads
pub mod Replay
pub mod Answers
pub mod Linear
pub mod Alone
use hw6_csci.Base.{
  ℕ, ◌≡◌, refl, inl, inr, Bool, true, false, Option, none, some, List, [], ◌∷◌, ◌++◌, ◌==◌, arith,
  if◌then◌else◌, Bytes, codes, bytes_eq, Outcome, ok, fault, ◌>>=◌, ◌>>◌, assert, length,
  Outcome-cases, Bool-cases,
}
use hw6_csci.Evictor.{Evictor}
use hw6_csci.Cache as CacheOf
use hw6_csci.Cache.{Cache}
use hw6_csci.Cache.History.{Call, set_call, get_call, del_call, reset_call}
use hw6_csci.Http.{Verb, Status, Request, Response, Http}
use hw6_csci.Text.{read_u32, at}
use hw6_csci.Text.Split.{Splitter}
use hw6_csci.Server.{
  handle_request, handle_head, handle_get, handle_put, handle_delete, handle_post, post_reset,
  finish, respond, set_field, bad_request, get_response,
}
use hw6_csci.Server.Handlers.{
  get_message, answer, two_parts, four_parts, handle_request-get, handle_request-put,
  handle_request-delete, handle_request-post, handle_request-head, handle_request-other,
  handle_get_parts, handle_get_malformed, handle_put_parts, handle_put_malformed,
  handle_delete_parts, handle_delete_malformed, handle_post_parts, handle_post_malformed,
}

-- How the code before the lock ends: with a response, or with the call that is made under the mutex.
pub data Entered : Type 0 where
  answers : Response → Entered
  locks : Call → Entered

-- What a thread holds when it has unlocked the mutex: the key and the result of a `get`, or the
-- answer of a `del`.
pub data Held : Type 0 where
  got : Bytes → Option ℕ → Held
  stored cleared : Held
  deleted : Bool → Held

module _ (E : Evictor) (H : Http) (B : Splitter) where
  unfoldable pub enter : Request → Cache E.State → Outcome Entered
  enter req c =
      let parts = B.split (codes "/") req.body in
      elim req.method [
        | Verb.head ↦ do (res, _) ← handle_head E H B req c; ok (Entered.answers res)
        | Verb.get ↦ do
          assert (length parts == 2)
          key ← at parts 1
          ok (Entered.locks (get_call key))
        | Verb.put ↦ do
          assert (length parts == 4)
          digits ← at parts 3
          val ← at parts 2
          key ← at parts 1
          size ← read_u32 digits
          ok (Entered.locks (set_call key val size))
        | Verb.delete ↦ do
          assert (length parts == 2)
          key ← at parts 1
          ok (Entered.locks (del_call key))
        | Verb.post ↦ do
          assert (length parts == 2)
          path ← at parts 1
          let missing = set_field "Server" H.version_string (respond req Status.not_found)
          if bytes_eq path (codes "reset")
              then ok (Entered.locks reset_call)
              else ok (Entered.answers (finish H req missing))
        | Verb.other ↦ ok (Entered.answers (bad_request H req (codes "Unknown HTTP-method")))
      ]

  -- Between `lock` and `unlock`.
  unfoldable pub section : ℕ → Call → Cache E.State → Outcome (Held × Cache E.State)
  section fuel (set_call key text n) c = do
    c' ← CacheOf.set E fuel key (some (text ++ 0 ∷ [])) n c
    ok (Held.stored, c')
  section fuel (get_call key) c = do
    (result, c') ← CacheOf.get E key c
    ok (Held.got key result, c')
  section fuel (del_call key) c =
      let (found, c') = CacheOf.del E key c in ok (Held.deleted found, c')
  section fuel reset_call c = ok (Held.cleared, CacheOf.reset E c)

  -- The response, from what is held and the cache as it is by then.
  unfoldable pub behind : Request → Held → Cache E.State → Outcome Response
  behind req (Held.got key result) c = ok (get_response H req (get_message key result c.get_val))
  behind req (Held.deleted found) c = ok (get_response H req (answer found))
  behind req Held.stored c =
      ok (finish H req (set_field "Server" H.version_string (respond req Status.ok)))
  behind req Held.cleared c =
      assert (CacheOf.space_used E c == 0)
      >> ok (finish H req (set_field "Server" H.version_string (respond req Status.ok)))

  -- One thread after the other.
  unfoldable pub undisturbed : ℕ → Request → Cache E.State → Outcome (Response × Cache E.State)
  undisturbed fuel req c = do
    entered ← enter req c
    elim entered [
      | Entered.answers res ↦ ok (res, c)
      | Entered.locks a ↦ do (held, c') ← section fuel a c; res ← behind req held c'; ok (res, c')
    ]
