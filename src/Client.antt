-- ===== src/Client.antt =====
-- `Cache::Impl` of cache_client.cc: the request of each method, and what it reads from the response.
-- The connection carries one request and then its response; what it does is an argument.
mod Tests
pub mod Parts
pub mod Delivery
pub mod Remote
pub mod Control
pub mod Run
pub mod Connection
use Prim.Native.String.{String}
use hw6_csci.Base.{
  ℕ, Bool, true, false, not, Option, none, some, List, [], ◌∷◌, ◌++◌, if◌then◌else◌, Bytes, codes,
  bytes_eq, Fault, Outcome, ok, fault, ◌>>=◌, ◌>>◌, length,
}
use hw6_csci.Base.Dict.{Dict, find, put}
use hw6_csci.Http.{Verb, Status, Request, Response, Http}
use hw6_csci.Text.{to_string, stoi, at, unquote}
use hw6_csci.Text.Split.{Splitter}

-- The members that the methods use besides the connection.
pub record Client : Type 0 where
  pub host : Bytes
  pub get_val : Bytes

-- `http::request<http::string_body> req { method, target, 11 }` with the host and the user agent.
pub new_request : Http → Bytes → Verb → Bytes → Request
new_request H host method target = record {
  method = method;
  target = target;
  version = 11;
  fields = put (codes "User-Agent") H.version_string (put (codes "Host") host []);
  keep_alive = true;
  body = [];
}

-- The requests with a text for their body, which is their target too.
pub text_request : Http → Bytes → Verb → Bytes → Request
unfolding new_request
text_request H host method text =
    let req = new_request H host method text in
    H.prepare_request (record req {
      fields = put (codes "Content-Type") (codes "text/plain") req.fields;
      body = text;
    })

module _ (H : Http) (B : Splitter) (client : Client) where
  -- `val` is the text up to its zero byte.
  pub set_request : Bytes → Bytes → ℕ → Request
  set_request key val size =
      text_request H client.host Verb.put
        (codes "/" ++ (key ++ (codes "/" ++ (val ++ (codes "/" ++ to_string size)))))

  pub get_request : Bytes → Request
  get_request key = text_request H client.host Verb.get (codes "/" ++ key)

  pub del_request : Bytes → Request
  del_request key = text_request H client.host Verb.delete (codes "/" ++ key)

  pub space_used_request : Request
  space_used_request =
      let req = new_request H client.host Verb.head (codes "/") in
      H.prepare_request (record req {
        fields = put (codes "Content-Length") (to_string (length req.body)) req.fields;
      })

  pub reset_request : Request
  reset_request =
      let req = new_request H client.host Verb.post (codes "/reset") in
      H.prepare_request (record req {
        fields = put (codes "Content-Length") (to_string 6) req.fields;
        body = codes "/reset";
      })

  -- `none` for a null pointer; `some n` for a pointer to the text in `get_val_`, with the size `n`.
  pub get_result : Response → Outcome (Option ℕ × Client)
  get_result res = do
    let parts = B.split (codes ",:") res.body
    first ← at parts 0
    if bytes_eq first (codes "NULL") then ok (none, client) else do
      quoted ← at parts 3
      value ← unquote quoted
      quoted_size ← at parts 5
      digits ← unquote quoted_size
      size ← stoi digits
      ok (some size, record client { get_val = value })

  pub del_result : Response → Bool
  del_result res = not (bytes_eq res.body (codes "False"))

  -- `res["Space-Used"].data ()` is not ended by a zero byte: what is read behind the value, up to
  -- such a byte, is `tail`.
  pub space_used_result : Bytes → Response → Outcome ℕ
  space_used_result tail res = elim (find (codes "Space-Used") res.fields) [
    | none ↦ fault Fault.null_pointer
    | some value ↦ stoi (value ++ tail)
  ]
