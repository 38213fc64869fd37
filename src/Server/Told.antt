-- ===== src/Server/Told.antt =====
-- What the answer to a request tells of the cache before the request and after it.
use hw6_csci.Base.{
  ℕ, ◌≡◌, refl, ◌∙◌, sym, ◌⊎◌, inl, inr, true, false, Option, some, [], ◌∷◌, ◌++◌, arith,
  if◌then◌else◌, Bytes, codes, bytes_eq, Outcome, ok, Outcome-cases, Bool-cases, Bytes-discrete,
}
use hw6_csci.Base.Dict.{find, put, assign, emplace, contains}
use mathlib.Core.Path.{subst}
use hw6_csci.Evictor.{Evictor}
use hw6_csci.Cache as CacheOf
use hw6_csci.Cache.{Cache}
use hw6_csci.Http.{Verb, Status, Request, Response, Http}
use hw6_csci.Text.{to_string, read_u32, at}
use hw6_csci.Text.Split.{Splitter}
use hw6_csci.Server.{
  handle_request, handle_get, handle_put, handle_delete, handle_post, handle_head, get_response,
  finish, respond, set_field, bad_request,
}
use hw6_csci.Server.Handlers.{
  two_parts, four_parts, handle_get_parts, handle_get_malformed, handle_put_parts,
  handle_put_unread, handle_put_malformed, handle_delete_parts, handle_delete_malformed,
  handle_post_parts, handle_post_malformed, handle_request-get, handle_request-put,
  handle_request-delete, handle_request-post, handle_request-head, handle_request-other,
  get_message, answer,
}

module _ (E : Evictor) (B : Splitter) (fuel : ℕ) (req : Request) where
  -- The body has two parts, of which the second is this.
  abbrev pub SecondPart : Bytes → Type 0
  SecondPart s = (front : Bytes) × (B.split (codes "/") req.body ≡ front ∷ s ∷ [])

  -- A `GET` gives what `get` gives; a `DELETE` says whether the key was stored; a `PUT` is answered
  -- after a `set` of its parts; `POST` resets, or knows no other path; `HEAD` gives the memory in use.
  abbrev pub Told : Verb → Response → Cache E.State → Cache E.State → Type 0
  Told Verb.get res c c' =
      (key : Bytes) × (result : Option ℕ) × SecondPart key
      × (CacheOf.get E key c ≡ ok (result, c'))
      × (res.body ≡ get_message key result c'.get_val)
  Told Verb.put res c c' =
      (front key val digits : Bytes) × (n : ℕ) × (B.split (codes "/") req.body
        ≡ front ∷ key ∷ val ∷ digits ∷ [])
      × (read_u32 digits ≡ ok n)
      × (CacheOf.set E fuel key (some (val ++ 0 ∷ [])) n c ≡ ok c')
      × (res.status ≡ Status.ok)
  Told Verb.delete res c c' =
      (key : Bytes) × SecondPart key
      × (c' ≡ (CacheOf.del E key c).1)
      × (res.body ≡ (if contains key c.vals then codes "True" else codes "False"))
  Told Verb.post res c c' =
      (path : Bytes) × SecondPart path
      × (((bytes_eq path (codes "reset") ≡ true)
            × (c' ≡ CacheOf.reset E c)
            × (res.status ≡ Status.ok))
          ⊎ ((bytes_eq path (codes "reset") ≡ false) × (c' ≡ c) × (res.status ≡ Status.not_found)))
  Told Verb.head res c c' =
      (c' ≡ c)
      × (res.status ≡ Status.ok)
      × (find (codes "Space-Used") res.fields ≡ some (to_string c.current_mem))
  Told Verb.other res c c' = (c' ≡ c) × (res.status ≡ Status.bad_request)

module _ (E : Evictor) (H : Http) (B : Splitter) (fuel : ℕ) (req : Request) (c c' : Cache E.State)
    (res : Response) where
  -- The run is a known one.
  told :
      (m : Verb) (run known : Outcome (Response × Cache E.State)) (r : Response) (d : Cache E.State)
      → run ≡ ok (res, c')
      → run ≡ known
      → known ≡ ok (r, d)
      → Told E B fuel req m r c d
      → Told E B fuel req m res c c'
  told m run known r d e e' e'' h =
      let same : ◌≡◌ {A = Outcome (Response × Cache E.State)} (ok (r, d)) (ok (res, c')) =
        sym e'' ∙ (sym e' ∙ e) in
      let same_res : r ≡ res = ground arith in
      let same_cache : d ≡ c' = ground arith in
      subst (λ (x : Response). Told E B fuel req m x c c') same_res
        (subst (λ (x : Cache E.State). Told E B fuel req m r c x) same_cache h)

  finish_status :
      (status : Status)
      → (finish H req (set_field "Server" H.version_string (respond req status))).status ≡ status
  unfolding finish
  finish_status status = H.response_status _

  response_text : (message : Bytes) → (get_response H req message).body ≡ message
  unfolding get_response finish
  response_text message = H.response_body _

  Told-get : handle_get E H B req c ≡ ok (res, c') → Told E B fuel req Verb.get res c c'
  unfolding handle_get at
  Told-get run = elim (two_parts (B.split (codes "/") req.body)) [
    | inr e ↦ absurd (cc (run, handle_get_malformed E H B fuel req c e))
    | inl (front, key, e) ↦ elim (Outcome-cases (CacheOf.get E key c)) [
      | inr (f, e') ↦ absurd (ground (arith, run))
      | inl ((result, d), e') ↦
          told Verb.get _ _ _ _ run (handle_get_parts E H B fuel req c d front key result e e') refl
            (key, result, (front, e), e', response_text _)
    ]
  ]

  Told-put : handle_put E H B fuel req c ≡ ok (res, c') → Told E B fuel req Verb.put res c c'
  Told-put run = elim (four_parts (B.split (codes "/") req.body)) [
    | inr e ↦ absurd (cc (run, handle_put_malformed E H B fuel req c e))
    | inl (front, key, val, digits, e) ↦ elim (Outcome-cases (read_u32 digits)) [
      | inr (f, size) ↦
          absurd (cc (run, handle_put_unread E H B fuel req c front key val digits f e size))
      | inl (n, size) ↦ elim (Outcome-cases (CacheOf.set E fuel key (some (val ++ 0 ∷ [])) n c)) [
        | inr (f, stored) ↦
            absurd
              (cc (run, handle_put_parts E H B fuel req c front key val digits n _ e size stored))
        | inl (d, stored) ↦
            told Verb.put _ _ _ _ run
              (handle_put_parts E H B fuel req c front key val digits n (ok d) e size stored) refl
              (front, key, val, digits, n, e, size, stored, finish_status Status.ok)
      ]
    ]
  ]

  del_answer :
      (key : Bytes)
      → answer (CacheOf.del E key c).0
        ≡ (if contains key c.vals then codes "True" else codes "False")
  unfolding answer CacheOf.del
  del_answer key = ground arith

  Told-delete : handle_delete E H B req c ≡ ok (res, c') → Told E B fuel req Verb.delete res c c'
  Told-delete run = elim (two_parts (B.split (codes "/") req.body)) [
    | inr e ↦ absurd (cc (run, handle_delete_malformed E H B fuel req c e))
    | inl (front, key, e) ↦
        told Verb.delete _ _ _ _ run (handle_delete_parts E H B fuel req c front key e) refl
          (key, (front, e), refl, response_text _ ∙ del_answer key)
  ]

  Told-post : handle_post E H B req c ≡ ok (res, c') → Told E B fuel req Verb.post res c c'
  unfolding Bytes-discrete
  Told-post run = elim (two_parts (B.split (codes "/") req.body)) [
    | inr e ↦ absurd (cc (run, handle_post_malformed E H B fuel req c e))
    | inl (front, path, e) ↦ elim (Bool-cases (bytes_eq path (codes "reset"))) [
      | inl t ↦
          told Verb.post _ _
            (finish H req (set_field "Server" H.version_string (respond req Status.ok)))
            (CacheOf.reset E c) run (handle_post_parts E H B fuel req c front path e) (rw t refl)
            (path, (front, e), inl (t, refl, finish_status Status.ok))
      | inr f ↦
          told Verb.post _ _
            (finish H req (set_field "Server" H.version_string (respond req Status.not_found))) c
            run (handle_post_parts E H B fuel req c front path e) (rw f refl)
            (path, (front, e), inr (f, refl, finish_status Status.not_found))
    ]
  ]

  Told-head : handle_head E H B req c ≡ ok (res, c') → Told E B fuel req Verb.head res c c'
  unfolding handle_head finish CacheOf.space_used Bytes-discrete find put assign emplace
  Told-head run =
      told Verb.head _ _ _ _ run refl refl
        (refl, H.response_status _, H.response_field _ (codes "Space-Used") refl refl ∙ refl)

  Told-other :
      (why : Bytes)
      → ◌≡◌ {A = Outcome (Response × Cache E.State)} (ok (bad_request H req why, c)) (ok (res, c'))
      → Told E B fuel req Verb.other res c c'
  unfolding bad_request finish
  Told-other why run = told Verb.other _ _ _ _ run refl refl (refl, H.response_status _)

  Told-Verb :
      (m : Verb)
      → req.method ≡ m
      → handle_request E H B fuel req c ≡ ok (res, c')
      → Told E B fuel req m res c c'
  Told-Verb Verb.get m run = Told-get (sym (handle_request-get E H B fuel req c m) ∙ run)
  Told-Verb Verb.put m run = Told-put (sym (handle_request-put E H B fuel req c m) ∙ run)
  Told-Verb Verb.delete m run = Told-delete (sym (handle_request-delete E H B fuel req c m) ∙ run)
  Told-Verb Verb.post m run = Told-post (sym (handle_request-post E H B fuel req c m) ∙ run)
  Told-Verb Verb.head m run = Told-head (sym (handle_request-head E H B fuel req c m) ∙ run)
  Told-Verb Verb.other m run =
      Told-other (codes "Unknown HTTP-method") (sym (handle_request-other E H B fuel req c m) ∙ run)

  -- Where a request is answered, the answer tells of the cache: a `GET` what `get` gives for the
  -- second part of the body, a `DELETE` whether that key was stored, and `del` is done; a `PUT`
  -- has status 200 after a `set` of its parts with its terminated text and the size that is
  -- read; a `POST` has 200 after a `reset` where the path is reset, and else 404 and no change;
  -- a `HEAD` has the memory in use and no change, and any other method 400 and no change.
  pub handle_request-Told :
      handle_request E H B fuel req c ≡ ok (res, c') → Told E B fuel req req.method res c c'
  handle_request-Told run = Told-Verb req.method refl run
