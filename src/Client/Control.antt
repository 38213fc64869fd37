-- ===== src/Client/Control.antt =====
-- `space_used` and `reset` over the network.
use hw6_csci.Base.{
  ℕ, ◌^◌, ◌<◌, ◌≡◌, refl, ◌∙◌, ap, true, some, [], ◌∷◌, ◌++◌, arith, Bytes, codes, Outcome, ok,
  ◌>>=◌, Bytes-discrete,
}
use hw6_csci.Base.Dict.{find, put, assign, emplace}
use hw6_csci.Evictor.{Evictor}
use hw6_csci.Cache as CacheOf
use hw6_csci.Cache.{Cache}
use hw6_csci.Http.{Verb, Status, Request, Response, Http}
use hw6_csci.Text.{to_string, stoi, scan_digits}
use hw6_csci.Text.Decimal.{scan-to_string}
use hw6_csci.Text.Split.{Splitter}
use hw6_csci.Server.{handle_request, handle_head, finish, respond, set_field}
use hw6_csci.Server.Handlers.{handle_post_parts, handle_request-post, handle_request-head}
use hw6_csci.Client.{Client, space_used_request, reset_request, space_used_result, new_request}
use hw6_csci.Client.Parts.{slash, split-path}

module _ (E : Evictor) (H : Http) (B : Splitter) (fuel : ℕ) (client : Client) where
  -- `tail` is what stands in memory behind the value of the field.
  pub remote_space_used : Bytes → Cache E.State → Outcome (ℕ × Cache E.State)
  remote_space_used tail c = do
    (res, c') ← handle_request E H B fuel (space_used_request H B client) c
    n ← space_used_result H B client tail res
    ok (n, c')

  -- The client does not look at the response.
  pub remote_reset : Cache E.State → Outcome (Response × Cache E.State)
  remote_reset c = handle_request E H B fuel (reset_request H B client) c

  head_method : (space_used_request H B client).method ≡ Verb.head
  unfolding space_used_request new_request
  head_method = H.request_method _

  post_method : (reset_request H B client).method ≡ Verb.post
  unfolding reset_request new_request
  post_method = H.request_method _

  post_body : (reset_request H B client).body ≡ codes "/reset"
  unfolding reset_request new_request
  post_body = H.request_body _

  -- `reset` over the network does to the server's cache what the local `reset` does, and the
  -- response has status 200.
  pub remote_reset-reset :
      (c : Cache E.State)
      → (res : Response) × (remote_reset c ≡ ok (res, CacheOf.reset E c)) × (res.status ≡ Status.ok)
  unfolding remote_reset finish Bytes-discrete
  remote_reset-reset c =
      let req = reset_request H B client in
      (
        finish H req (set_field "Server" H.version_string (respond req Status.ok)),
        handle_request-post E H B fuel req c post_method
            ∙ handle_post_parts E H B fuel req c [] (codes "reset")
                (ap (B.split slash) post_body ∙ split-path B (codes "reset") (ground arith)),
        H.response_status _,
      )

  stoi-to_string_before :
      (n : ℕ) (tail : Bytes)
      → n < 2 ^ 31
      → scan_digits tail n true ≡ (n, true)
      → stoi (to_string n ++ tail) ≡ ok n
  unfolding stoi
  stoi-to_string_before n tail small stops = ground (arith, scan-to_string n tail)

  -- The response to a `HEAD`, before `prepare_payload`.
  head_fields : (req : Request) (c : Cache E.State) → Response
  head_fields req c =
      let res = record (respond req Status.ok) {
        fields = (codes "Space-Used", to_string (CacheOf.space_used E c)) ∷ [];
      } in
      let res = set_field "Server" H.version_string res in
      let res = set_field "Accept" (codes "/k/v") res in
      let res = set_field "Content-Type" (codes "application/json") res in
      record res { keep_alive = req.keep_alive }

  head_run :
      (req : Request) (c : Cache E.State)
      → handle_head E H B req c ≡ ok (H.prepare_response (head_fields req c), c)
  unfolding handle_head finish head_fields
  head_run req c = refl

  used_field :
      (req : Request) (c : Cache E.State)
      → find (codes "Space-Used") (H.prepare_response (head_fields req c)).fields
        ≡ some (to_string (CacheOf.space_used E c))
  unfolding head_fields Bytes-discrete find put assign emplace
  used_field req c = H.response_field (head_fields req c) (codes "Space-Used") refl refl ∙ refl

  read_used :
      (tail value : Bytes) (res : Response)
      → find (codes "Space-Used") res.fields ≡ some value
      → space_used_result H B client tail res ≡ stoi (value ++ tail)
  unfolding space_used_result
  read_used tail value res e = rw (e, space_used_result)

  -- For less than 2^31 bytes in use, where the text behind the field's value in memory does not
  -- go on with a digit, `space_used` over the network returns what the local one does and
  -- changes nothing.
  pub remote_space_used-space_used :
      (tail : Bytes) (c : Cache E.State)
      → CacheOf.space_used E c < 2 ^ 31
      → scan_digits tail (CacheOf.space_used E c) true ≡ (CacheOf.space_used E c, true)
      → remote_space_used tail c ≡ ok (CacheOf.space_used E c, c)
  unfolding remote_space_used
  remote_space_used-space_used tail c small stops =
      let req = space_used_request H B client in
      rw (
        handle_request-head E H B fuel req c head_method,
        head_run req c,
        read_used tail (to_string (CacheOf.space_used E c)) (H.prepare_response (head_fields req c))
            (used_field req c),
        stoi-to_string_before (CacheOf.space_used E c) tail small stops,
      )
