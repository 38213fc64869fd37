-- ===== src/Server/Handlers.antt =====
-- Each handler of the server, by whether the body has the number of parts that the handler asserts.
use hw6_csci.Base.{
  ℕ, ◌≡◌, refl, ◌⊎◌, inl, inr, Bool, false, Option, none, some, List, [], ◌∷◌, ◌++◌, ◌==◌, arith,
  Bytes, codes, Outcome, ok, fault, ◌>>=◌, if◌then◌else◌, bytes_eq, Fault, length,
}
use hw6_csci.Evictor.{Evictor}
use hw6_csci.Cache as CacheOf
use hw6_csci.Cache.{Cache}
use hw6_csci.Http.{Verb, Status, Request, Http}
use hw6_csci.Text.{read_u32, at}
use hw6_csci.Text.Split.{Splitter}
use hw6_csci.Server.{
  handle_request, handle_get, handle_put, handle_delete, handle_post, handle_head, post_reset,
  get_response, get_body, finish, respond, set_field, bad_request,
}

pub two_parts : (ps : List Bytes) → ((a b : Bytes) × (ps ≡ a ∷ b ∷ [])) ⊎ ((length ps == 2) ≡ false)
two_parts [] = inr refl
two_parts (a ∷ []) = inr refl
two_parts (a ∷ b ∷ []) = inl (a, b, refl)
two_parts (a ∷ b ∷ c ∷ ps) = inr (ground arith)

pub four_parts :
    (ps : List Bytes) → ((a b c d : Bytes) × (ps ≡ a ∷ b ∷ c ∷ d ∷ [])) ⊎ ((length ps == 4) ≡ false)
four_parts [] = inr refl
four_parts (a ∷ []) = inr refl
four_parts (a ∷ b ∷ []) = inr refl
four_parts (a ∷ b ∷ c ∷ []) = inr refl
four_parts (a ∷ b ∷ c ∷ d ∷ []) = inl (a, b, c, d, refl)
four_parts (a ∷ b ∷ c ∷ d ∷ e ∷ ps) = inr (ground arith)

-- The body of the response to a `GET`.
unfoldable pub get_message : Bytes → Option ℕ → Bytes → Bytes
get_message key none value = codes "NULL"
get_message key (some n) value = get_body key value n

-- The response to a `DELETE`.
unfoldable pub answer : Bool → Bytes
answer b = if b then codes "True" else codes "False"

module _ (E : Evictor) (H : Http) (B : Splitter) (fuel : ℕ) (req : Request)
    (c : Cache E.State) where
  pub handle_get_parts :
      (c' : Cache E.State) (empty key : Bytes) (result : Option ℕ)
      → B.split (codes "/") req.body ≡ empty ∷ key ∷ []
      → CacheOf.get E key c ≡ ok (result, c')
      → handle_get E H B req c ≡ ok (get_response H req (get_message key result c'.get_val), c')
  unfolding handle_get at get_message
  handle_get_parts c' empty key none e run = rw (e, run)
  handle_get_parts c' empty key (some n) e run = rw (e, run)

  pub handle_get_malformed :
      (length (B.split (codes "/") req.body) == 2) ≡ false
      → handle_get E H B req c ≡ fault Fault.assertion
  unfolding handle_get
  handle_get_malformed e = rw e

  pub handle_put_parts :
      (empty key val digits : Bytes) (size : ℕ) (r : Outcome (Cache E.State))
      → B.split (codes "/") req.body ≡ empty ∷ key ∷ val ∷ digits ∷ []
      → read_u32 digits ≡ ok size
      → CacheOf.set E fuel key (some (val ++ 0 ∷ [])) size c ≡ r
      → handle_put E H B fuel req c ≡ (do
        c' ← r
        ok (finish H req (set_field "Server" H.version_string (respond req Status.ok)), c'))
  unfolding handle_put at
  handle_put_parts empty key val digits size r e number run = rw (e, number, run)

  pub handle_put_unread :
      (empty key val digits : Bytes) (f : Fault)
      → B.split (codes "/") req.body ≡ empty ∷ key ∷ val ∷ digits ∷ []
      → read_u32 digits ≡ fault f
      → handle_put E H B fuel req c ≡ fault f
  unfolding handle_put at
  handle_put_unread empty key val digits f e number = rw (e, number)

  pub handle_put_malformed :
      (length (B.split (codes "/") req.body) == 4) ≡ false
      → handle_put E H B fuel req c ≡ fault Fault.assertion
  unfolding handle_put
  handle_put_malformed e = rw e

  pub handle_delete_parts :
      (empty key : Bytes)
      → B.split (codes "/") req.body ≡ empty ∷ key ∷ []
      → handle_delete E H B req c
        ≡ ok (get_response H req (answer (CacheOf.del E key c).0), (CacheOf.del E key c).1)
  unfolding handle_delete at get_response answer
  handle_delete_parts empty key e = rw e

  pub handle_delete_malformed :
      (length (B.split (codes "/") req.body) == 2) ≡ false
      → handle_delete E H B req c ≡ fault Fault.assertion
  unfolding handle_delete
  handle_delete_malformed e = rw e

  pub handle_post_parts :
      (empty path : Bytes)
      → B.split (codes "/") req.body ≡ empty ∷ path ∷ []
      → handle_post E H B req c ≡ (
          if bytes_eq path (codes "reset")
          then ok (
            finish H req (set_field "Server" H.version_string (respond req Status.ok)),
            CacheOf.reset E c,
          )
          else ok (
            finish H req (set_field "Server" H.version_string (respond req Status.not_found)),
            c,
          ))
  unfolding handle_post at post_reset CacheOf.reset CacheOf.space_used
  handle_post_parts empty path e = rw e (ground arith)

  pub handle_post_malformed :
      (length (B.split (codes "/") req.body) == 2) ≡ false
      → handle_post E H B req c ≡ fault Fault.assertion
  unfolding handle_post
  handle_post_malformed e = rw e

  pub handle_request-get :
      req.method ≡ Verb.get → handle_request E H B fuel req c ≡ handle_get E H B req c
  unfolding handle_request
  handle_request-get e = rw e

  pub handle_request-put :
      req.method ≡ Verb.put → handle_request E H B fuel req c ≡ handle_put E H B fuel req c
  unfolding handle_request
  handle_request-put e = rw e

  pub handle_request-delete :
      req.method ≡ Verb.delete → handle_request E H B fuel req c ≡ handle_delete E H B req c
  unfolding handle_request
  handle_request-delete e = rw e

  pub handle_request-post :
      req.method ≡ Verb.post → handle_request E H B fuel req c ≡ handle_post E H B req c
  unfolding handle_request
  handle_request-post e = rw e

  pub handle_request-head :
      req.method ≡ Verb.head → handle_request E H B fuel req c ≡ handle_head E H B req c
  unfolding handle_request
  handle_request-head e = rw e

  pub handle_request-other :
      req.method ≡ Verb.other
      → handle_request E H B fuel req c ≡ ok (bad_request H req (codes "Unknown HTTP-method"), c)
  unfolding handle_request
  handle_request-other e = rw e
