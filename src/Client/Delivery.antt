-- ===== src/Client/Delivery.antt =====
-- `http::write` of cache_client.cc and the `http::async_read` of the server: what becomes of a request
-- on the wire.
use hw6_csci.Base.{
  ◌<◌, ◌≤◌, ◌≡◌, ◌≢◌, refl, true, none, some, arith, Bytes, codes, Outcome, ok, fault, Fault,
  length, Bytes-discrete,
}
use hw6_csci.Base.Dict.{put, assign, emplace, find}
use hw6_csci.Http.{Verb, Request, Http, IsReadable}
use hw6_csci.Text.{all_visible}
use hw6_csci.Client.{text_request, new_request}

-- Where the server cannot read the request it ends the session, and the client's `http::read` throws.
unfoldable pub delivered : Http → Request → Outcome Request
delivered H req = elim (H.received req) as (λ _. Outcome Request) [
  | none ↦ fault Fault.system_error
  | some r ↦ ok r
]

-- The name of the host can stand in a field.
abbrev pub NamesHost : Bytes → Type 0
NamesHost host = (all_visible host ≡ true) × (length host ≤ 1024)

module _ (H : Http) (host : Bytes) (named : NamesHost host) (method : Verb)
    (known : method ≢ Verb.other) (text : Bytes) where
  abbrev text_before : Request
  text_before =
      let req = new_request H host method text in
      record req {
        fields = put (codes "Content-Type") (codes "text/plain") req.fields;
        body = text;
      }

  text_before-IsReadable :
      all_visible text ≡ true → 0 < length text → length text ≤ 4096 → IsReadable text_before
  unfolding new_request put assign emplace find Bytes-discrete
  text_before-IsReadable visible some_text short = record {
    known = known;
    current = refl;
    some_target = some_text;
    visible = visible;
    short = short;
    plain = (
      (refl, refl, omega arith),
      ((refl, H.version_visible, H.version_short), ((refl, named.0, named.1), tt)),
    );
    few = omega arith;
    small = omega arith;
  }

  -- A text of up to 4096 visible characters arrives.
  pub delivered-text :
      all_visible text ≡ true
      → 0 < length text
      → length text ≤ 4096
      → (r : Request) × (delivered H (text_request H host method text) ≡ ok r)
        × (r.method ≡ method)
        × (r.body ≡ text)
  unfolding delivered text_request new_request
  delivered-text visible some_text short =
      let (r, e, m, b) =
        H.request_received text_before (text_before-IsReadable visible some_text short) in
      (r, rw (delivered, e) refl, m, b)
