-- ===== src/Server.antt =====
-- `handle_request` of cache_server.cc, one branch for each method, each handled as a whole. What
-- other threads may do meanwhile is the subject of Race, Overtaken and Sections.
mod Tests
pub mod Handlers
pub mod Outcomes
pub mod Keeps
pub mod Told
pub mod Race
pub mod Overtaken
pub mod Sections
use hw6_csci.Base.{
  ℕ, Bool, true, false, Option, none, some, List, [], ◌∷◌, ◌++◌, ◌==◌, if◌then◌else◌, Bytes, codes,
  bytes_eq, Outcome, ok, fault, ◌>>=◌, ◌>>◌, assert, length,
}
use Prim.Native.String.{String}
use hw6_csci.Base.Dict.{Dict, put, emplace}
use hw6_csci.Evictor.{Evictor}
use hw6_csci.Cache as CacheOf
use hw6_csci.Cache.{Cache}
use hw6_csci.Http.{Verb, Status, Request, Response, Http}
use hw6_csci.Text.{to_string, read_u32, at}
use hw6_csci.Text.Split.{Splitter}

-- `http::response<…> res { status, req.version () }`
abbrev pub respond : Request → Status → Response
respond req status = record {
  status = status;
  version = req.version;
  fields = [];
  keep_alive = true;
  body = [];
}

-- `res.set (name, value)`
abbrev pub set_field : String → Bytes → Response → Response
set_field name value res = record res { fields = put (codes name) value res.fields }

-- `"key": "k", "value": "v", "size": "n"`
unfoldable pub get_body : Bytes → Bytes → ℕ → Bytes
get_body key value size =
    codes "\"key\": \""
    ++ (key
        ++ (codes "\", \"value\": \""
            ++ (value ++ (codes "\", \"size\": \"" ++ (to_string size ++ codes "\"")))))

module _ (H : Http) where
  -- The end of every branch: `keep_alive`, `prepare_payload` and `send`.
  unfoldable pub finish : Request → Response → Response
  finish req res = H.prepare_response (record res { keep_alive = req.keep_alive })

  -- The lambda `bad_request`.
  unfoldable pub bad_request : Request → Bytes → Response
  bad_request req why =
      let res = set_field "Server" H.version_string (respond req Status.bad_request) in
      let res = set_field "Content-Type" (codes "text/html") res in
      finish req (record res { body = why })

  unfoldable pub get_response : Request → Bytes → Response
  get_response req message =
      let res = set_field "Server" H.version_string (respond req Status.ok) in
      let res = record res { body = message } in
      finish req (set_field "Content-Length" (to_string (length message)) res)

module _ (E : Evictor) (H : Http) (B : Splitter) where
  unfoldable pub handle_head : Request → Cache E.State → Outcome (Response × Cache E.State)
  handle_head req c =
      let res = respond req Status.ok in
      let used = to_string (CacheOf.space_used E c) in
      let res = record res { fields = (codes "Space-Used", used) ∷ res.fields } in
      let res = set_field "Server" H.version_string res in
      let res = set_field "Accept" (codes "/k/v") res in
      let res = set_field "Content-Type" (codes "application/json") res in ok (finish H req res, c)

  -- The text behind the pointer is read from `get_val_`.
  unfoldable pub handle_get : Request → Cache E.State → Outcome (Response × Cache E.State)
  handle_get req c = do
    let parts = B.split (codes "/") req.body
    assert (length parts == 2)
    key ← at parts 1
    (result, c') ← CacheOf.get E key c
    let message = elim result as (λ _. Bytes) [
      | none ↦ codes "NULL"
      | some size ↦ get_body key c'.get_val size
    ]
    ok (get_response H req message, c')

  unfoldable pub handle_put : ℕ → Request → Cache E.State → Outcome (Response × Cache E.State)
  handle_put fuel req c = do
    let parts = B.split (codes "/") req.body
    assert (length parts == 4)
    digits ← at parts 3
    val ← at parts 2
    key ← at parts 1
    size ← read_u32 digits
    c' ← CacheOf.set E fuel key (some (val ++ 0 ∷ [])) size c
    ok (finish H req (set_field "Server" H.version_string (respond req Status.ok)), c')

  unfoldable pub handle_delete : Request → Cache E.State → Outcome (Response × Cache E.State)
  handle_delete req c = do
    let parts = B.split (codes "/") req.body
    assert (length parts == 2)
    key ← at parts 1
    let (answer, c') = CacheOf.del E key c
    let message = if answer then codes "True" else codes "False"
    let res = set_field "Server" H.version_string (respond req Status.ok)
    let res = record res { body = message }
    ok (finish H req (set_field "Content-Length" (to_string (length message)) res), c')

  -- The test of the path, and the reset with the `assert` behind it.
  unfoldable pub post_reset : Bytes → Cache E.State → Outcome (Status × Cache E.State)
  post_reset path c =
      if bytes_eq path (codes "reset")
      then (let c' = CacheOf.reset E c in
          assert (CacheOf.space_used E c' == 0) >> ok (Status.ok, c'))
      else ok (Status.not_found, c)

  -- Any other path than `/reset` is answered by 404.
  unfoldable pub handle_post : Request → Cache E.State → Outcome (Response × Cache E.State)
  handle_post req c = do
    let parts = B.split (codes "/") req.body
    assert (length parts == 2)
    path ← at parts 1
    (status, c') ← post_reset path c
    ok (finish H req (set_field "Server" H.version_string (respond req status)), c')

  unfoldable pub handle_request : ℕ → Request → Cache E.State → Outcome (Response × Cache E.State)
  handle_request fuel req c = elim req.method [
    | Verb.head ↦ handle_head req c
    | Verb.get ↦ handle_get req c
    | Verb.put ↦ handle_put fuel req c
    | Verb.delete ↦ handle_delete req c
    | Verb.post ↦ handle_post req c
    | Verb.other ↦ ok (bad_request H req (codes "Unknown HTTP-method"), c)
  ]
