-- ===== src/Server/Outcomes.antt =====
-- What a request can come to, over every method and every body.
use hw6_csci.Base.{
  ℕ, ◌<◌, ◌≡◌, ◌≢◌, refl, ap, ◌⊎◌, inl, inr, true, Option, none, some, List, [], ◌∷◌, ◌++◌, arith,
  Bytes, codes, Outcome, ok, fault, bytes_eq, Fault, length, Bool-cases,
}
use hw6_csci.Base.Dict.{contains}
use hw6_csci.Evictor.{Evictor}
use hw6_csci.Evictor.Queue.{member}
use hw6_csci.Cache.{Cache}
use hw6_csci.Cache.Valid.{IsValid}
use hw6_csci.Cache.Set.{evictions}
use hw6_csci.Cache.Bound.{set-Kept, get-Kept, reset-Kept}
use hw6_csci.Cache.Total.{terminated, get_gives, del_gives}
use hw6_csci.Cache.Outcomes.{set-outcome}
use hw6_csci.Cache.Reads.{reset-IsValid}
use hw6_csci.Http.{Verb, Request, Response, Http}
use hw6_csci.Text.{read_u32, skip_spaces, scan_sign, clamp_u32}
use hw6_csci.Text.Split.{Splitter}
use hw6_csci.Server.{
  handle_request, handle_get, handle_put, handle_delete, handle_post, handle_head,
}
use hw6_csci.Server.Handlers.{
  two_parts, four_parts, handle_get_parts, handle_get_malformed, handle_put_parts,
  handle_put_malformed, handle_put_unread, handle_delete_parts, handle_delete_malformed,
  handle_post_parts, handle_post_malformed, handle_request-get, handle_request-put,
  handle_request-delete, handle_request-post, handle_request-head, handle_request-other,
}

-- The number of parts that the handler of the method asserts; none where it does not look at the body.
unfoldable pub asserted_parts : Verb → Option ℕ
asserted_parts Verb.get = some 2
asserted_parts Verb.put = some 4
asserted_parts Verb.delete = some 2
asserted_parts Verb.post = some 2
asserted_parts Verb.head = none
asserted_parts Verb.other = none

-- The `PUT` replaces the value of a key that it evicts itself.
abbrev pub EvictsItself : (E : Evictor) → Splitter → Request → Cache E.State → List Bytes → Type 0
EvictsItself E B req c q =
    (front key val digits : Bytes) × (size : ℕ) × (B.split (codes "/") req.body
      ≡ front ∷ key ∷ val ∷ digits ∷ [])
    × (read_u32 digits ≡ ok size)
    × (contains key c.vals ≡ true)
    × (member key (evictions key size c q) ≡ true)

-- The `PUT` has nothing but spaces for its size.
abbrev pub NoSize : Splitter → Request → Type 0
NoSize B req =
    (front key val digits : Bytes) × (B.split (codes "/") req.body
      ≡ front ∷ key ∷ val ∷ digits ∷ [])
    × (skip_spaces digits ≡ [])

-- What each outcome of a request comes from.
abbrev pub Handled :
    (E : Evictor)
    → Splitter
    → Request
    → Cache E.State
    → List Bytes
    → Outcome (Response × Cache E.State)
    → Type 0
Handled E B req c q (ok (res, c')) = (q' : List Bytes) × IsValid E c' q' × (c'.maxmem ≡ c.maxmem)
Handled E B req c q (fault Fault.assertion) =
    (n : ℕ) × (asserted_parts req.method ≡ some n) × (length (B.split (codes "/") req.body) ≢ n)
Handled E B req c q (fault Fault.dangling_iterator) =
    (req.method ≡ Verb.put) × EvictsItself E B req c q
Handled E B req c q (fault Fault.uninitialised) = (req.method ≡ Verb.put) × NoSize B req
Handled E B req c q (fault _) = ⊥

size_read :
    (digits : Bytes)
    → ((n : ℕ) × (read_u32 digits ≡ ok n))
      ⊎ ((skip_spaces digits ≡ []) × (read_u32 digits ≡ fault Fault.uninitialised))
unfolding read_u32
size_read digits =
    elim (skip_spaces digits)
      as (λ t.
        ((n : ℕ) × (elim t as (λ _. Outcome ℕ) [
          | [] ↦ fault Fault.uninitialised
          | c ∷ s ↦ ok (clamp_u32 (scan_sign (c ∷ s)))
        ]
            ≡ ok n))
        ⊎ ((t ≡ [])
            × (elim t as (λ _. Outcome ℕ) [
              | [] ↦ fault Fault.uninitialised
              | c ∷ s ↦ ok (clamp_u32 (scan_sign (c ∷ s)))
            ]
                ≡ fault Fault.uninitialised))) [ [] ↦ inr (refl, refl) | c ∷ s ↦ inl (_, refl) ]

module _ (E : Evictor) (H : Http) (B : Splitter) (fuel : ℕ) (req : Request) (c : Cache E.State)
    (q : List Bytes) (valid : IsValid E c q) where
  along :
      (r r' : Outcome (Response × Cache E.State))
      → r' ≡ r
      → Handled E B req c q r
      → Handled E B req c q r'
  along r r' e h = rw e h

  Handled-get : req.method ≡ Verb.get → Handled E B req c q (handle_get E H B req c)
  unfolding asserted_parts
  Handled-get m = elim (two_parts (B.split (codes "/") req.body)) [
    | inl (a, key, e) ↦
        let (result, c', q', run, valid') = get_gives E c q valid key in
        along _ _ (handle_get_parts E H B fuel req c c' a key result e run)
          (q', valid', (get-Kept E key result c c' run).0)
    | inr e ↦
        along _ _ (handle_get_malformed E H B fuel req c e) (2, ap asserted_parts m, ground arith)
  ]

  Handled-delete : req.method ≡ Verb.delete → Handled E B req c q (handle_delete E H B req c)
  unfolding asserted_parts
  Handled-delete m = elim (two_parts (B.split (codes "/") req.body)) [
    | inl (a, key, e) ↦
        along _ _ (handle_delete_parts E H B fuel req c a key e) (del_gives E c q valid key)
    | inr e ↦
        along _ _ (handle_delete_malformed E H B fuel req c e)
          (2, ap asserted_parts m, ground arith)
  ]

  Handled-post : req.method ≡ Verb.post → Handled E B req c q (handle_post E H B req c)
  unfolding asserted_parts
  Handled-post m = elim (two_parts (B.split (codes "/") req.body)) [
    | inl (a, path, e) ↦
        along _ _ (handle_post_parts E H B fuel req c a path e)
          (elim (Bool-cases (bytes_eq path (codes "reset"))) [
            | inl t ↦ rw t (q, (reset-IsValid E c q valid).0, (reset-Kept E c).0)
            | inr f ↦ rw f (q, valid, refl)
          ])
    | inr e ↦
        along _ _ (handle_post_malformed E H B fuel req c e) (2, ap asserted_parts m, ground arith)
  ]

  Handled-put :
      req.method ≡ Verb.put → length q < fuel → Handled E B req c q (handle_put E H B fuel req c)
  unfolding asserted_parts
  Handled-put m enough = elim (four_parts (B.split (codes "/") req.body)) [
    | inl (a, key, val, digits, e) ↦ elim (size_read digits) [
      | inr (blank, f) ↦
          along _ _ (handle_put_unread E H B fuel req c a key val digits _ e f)
            (m, (a, key, val, digits, e, blank))
      | inl (n, size) ↦
          let (v, text) = terminated val in
          elim (set-outcome E fuel key (some (val ++ 0 ∷ [])) n c q v valid text enough) [
            | inl (c', q', run, valid') ↦
                along _ _ (handle_put_parts E H B fuel req c a key val digits n _ e size run)
                  (q', valid', (set-Kept E fuel key _ _ c c' run).0)
            | inr (run, stored, hit) ↦
                along _ _ (handle_put_parts E H B fuel req c a key val digits n _ e size run)
                  (m, (a, key, val, digits, n, e, size, stored, hit))
          ]
    ]
    | inr e ↦
        along _ _ (handle_put_malformed E H B fuel req c e) (4, ap asserted_parts m, ground arith)
  ]

  Handled-head : Handled E B req c q (handle_head E H B req c)
  unfolding handle_head
  Handled-head = (q, valid, refl)

  verb_cases :
      (m : Verb)
      → (m ≡ Verb.get)
        ⊎ ((m ≡ Verb.put)
            ⊎ ((m ≡ Verb.delete) ⊎ ((m ≡ Verb.post) ⊎ ((m ≡ Verb.head) ⊎ (m ≡ Verb.other)))))
  verb_cases Verb.get = inl refl
  verb_cases Verb.put = inr (inl refl)
  verb_cases Verb.delete = inr (inr (inl refl))
  verb_cases Verb.post = inr (inr (inr (inl refl)))
  verb_cases Verb.head = inr (inr (inr (inr (inl refl))))
  verb_cases Verb.other = inr (inr (inr (inr (inr refl))))

  -- In a valid state, with more rounds than the evictor's queue has keys, every request is
  -- either answered and leaves a valid state with the same `maxmem`, or fails an assertion, and
  -- then its method has a handler that asserts a number of parts of the body and the body has
  -- another, or uses a dangling iterator, and then it is a `PUT` of a stored key that its own
  -- evictions remove, or uses a size that is not initialised, and then it is a `PUT` with
  -- nothing but spaces for the size; nothing else happens.
  pub handle_request-Handled :
      length q < fuel → Handled E B req c q (handle_request E H B fuel req c)
  handle_request-Handled enough = elim (verb_cases req.method) [
    | inl m ↦ along _ _ (handle_request-get E H B fuel req c m) (Handled-get m)
    | inr (inl m) ↦ along _ _ (handle_request-put E H B fuel req c m) (Handled-put m enough)
    | inr (inr (inl m)) ↦ along _ _ (handle_request-delete E H B fuel req c m) (Handled-delete m)
    | inr (inr (inr (inl m))) ↦ along _ _ (handle_request-post E H B fuel req c m) (Handled-post m)
    | inr (inr (inr (inr (inl m)))) ↦
        along _ _ (handle_request-head E H B fuel req c m) Handled-head
    | inr (inr (inr (inr (inr m)))) ↦
        along _ _ (handle_request-other E H B fuel req c m) (q, valid, refl)
  ]
