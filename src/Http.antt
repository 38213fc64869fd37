-- ===== src/Http.antt =====
-- The parts of Boost.Beast's messages that the server and the client write and read. Beast is not
-- part of the repository: `Http` is what they take from it.
use hw6_csci.Base.{
  ℕ, ◌^◌, ◌<◌, ◌≤◌, length, arith, ◌≡◌, ◌≢◌, refl, true, false, Bool, ◌&&◌, ◌||◌, Bytes, codes,
  bytes_eq, Option, none, some, leb, if◌then◌else◌, Every,
}
use hw6_csci.Base.Dict.{Dict, find, put as put_at, find-put}
use hw6_csci.Text.{to_string, all_visible}

-- `http::verb`, as far as the server tells the methods apart.
pub data Verb : Type 0 where
  get put delete post head other : Verb

-- `http::status`
pub data Status : Type 0 where
  ok bad_request not_found : Status

pub record Request : Type 0 where
  pub method : Verb
  pub target : Bytes
  pub version : ℕ
  pub fields : Dict Bytes
  pub keep_alive : Bool
  pub body : Bytes

pub record Response : Type 0 where
  pub status : Status
  pub version : ℕ
  pub fields : Dict Bytes
  pub keep_alive : Bool
  pub body : Bytes

-- A field that the client sets, with a value of printing characters.
abbrev pub PlainField : Bytes × Bytes → Type 0
PlainField (k, v) =
    ((bytes_eq (codes "Host") k
        || bytes_eq (codes "User-Agent") k
        || bytes_eq (codes "Content-Type") k)
      ≡ true)
    × (all_visible v ≡ true)
    × (length v ≤ 1024)

-- A request, before `prepare_payload`, whose text on the wire is an HTTP message within the limits of
-- Beast's parser, which takes a header of 8192 bytes and a body of 2^20: the target stands between
-- two spaces of the first line, so it has no space and no control character.
pub record IsReadable (r : Request) : Type 0 where
  pub known : r.method ≢ Verb.other
  pub current : r.version ≡ 11
  pub some_target : 0 < length r.target
  pub visible : all_visible r.target ≡ true
  pub short : length r.target ≤ 4096
  pub plain : Every PlainField r.fields
  pub few : length r.fields ≤ 3
  pub small : length r.body ≤ 2 ^ 20

-- `BOOST_BEAST_VERSION_STRING`, and `prepare_payload`, which sets the fields that say how long the
-- body is and leaves the rest of the message alone; and what `http::read` makes of the text that
-- `http::write` has put on the wire for a request, none where it is not an HTTP message within the
-- limits.
pub record Http : Type 0 where
  pub version_string : Bytes
  pub prepare_response : Response → Response
  pub prepare_request : Request → Request
  pub response_status : (r : Response) → (prepare_response r).status ≡ r.status
  pub response_body : (r : Response) → (prepare_response r).body ≡ r.body
  pub response_field :
      (r : Response) (k : Bytes)
      → bytes_eq (codes "Content-Length") k ≡ false
      → bytes_eq (codes "Transfer-Encoding") k ≡ false
      → find k (prepare_response r).fields ≡ find k r.fields
  pub request_method : (r : Request) → (prepare_request r).method ≡ r.method
  pub request_body : (r : Request) → (prepare_request r).body ≡ r.body
  pub received : Request → Option Request
  pub request_received :
      (r : Request)
      → IsReadable r
      → (r' : Request) × (received (prepare_request r) ≡ some r')
        × (r'.method ≡ r.method)
        × (r'.body ≡ r.body)
  pub version_visible : all_visible version_string ≡ true
  pub version_short : length version_string ≤ 1024

-- A `prepare_payload` that writes the length of every body.
abbrev pub sized_response : Response → Response
sized_response r = record r {
  fields = put_at (codes "Content-Length") (to_string (length r.body)) r.fields;
}

abbrev pub sized_request : Request → Request
sized_request r = record r {
  fields = put_at (codes "Content-Length") (to_string (length r.body)) r.fields;
}

pub sized_field :
    (r : Response) (k : Bytes)
    → bytes_eq (codes "Content-Length") k ≡ false
    → find k (sized_response r).fields ≡ find k r.fields
sized_field r k e =
    ground (arith, find-put k (codes "Content-Length") (to_string (length r.body)) r.fields)

-- A `read` that takes a target of visible characters, to a length.
abbrev pub read_request : Request → Option Request
read_request r = if all_visible r.target && leb (length r.target) 8000 then some r else none

pub read_request-received :
    (r : Request)
    → IsReadable r
    → (r' : Request) × (read_request (sized_request r) ≡ some r')
      × (r'.method ≡ r.method)
      × (r'.body ≡ r.body)
read_request-received r h =
    let visible : all_visible r.target ≡ true = h.visible in
    let short : leb (length r.target) 8000 ≡ true = ground (arith, h.short) in
    (sized_request r, rw (visible, short), refl, refl)

abbrev pub plain_http : Http
plain_http = record {
  version_string = codes "Beast";
  prepare_response = sized_response;
  prepare_request = sized_request;
  response_status = λ r. refl;
  response_body = λ r. refl;
  response_field = λ r k e e'. sized_field r k e;
  request_method = λ r. refl;
  request_body = λ r. refl;
  received = read_request;
  request_received = read_request-received;
  version_visible = refl;
  version_short = omega arith;
}
