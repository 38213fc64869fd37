-- ===== src/Server/Keeps.antt =====
-- The cache after a request that is answered, for any bound on the rounds of its `set`.
use hw6_csci.Base.{
  ℕ, suc, ◌+◌, ◌≤◌, ◌≡◌, sym, ◌∙◌, inl, inr, some, List, [], ◌∷◌, ◌++◌, arith, Bytes, codes, ok,
  fault, length, Outcome-cases,
}
use hw6_csci.Evictor.{Evictor}
use hw6_csci.Cache as CacheOf
use hw6_csci.Cache.{Cache}
use hw6_csci.Cache.Valid.{IsValid}
use hw6_csci.Cache.Fuel.{set-more}
use hw6_csci.Http.{Request, Response, Http}
use hw6_csci.Text.{read_u32}
use hw6_csci.Text.Split.{Splitter}
use hw6_csci.Server.{handle_request, handle_put}
use hw6_csci.Server.Handlers.{four_parts, handle_put_parts, handle_put_unread, handle_put_malformed}
use hw6_csci.Server.Outcomes.{handle_request-Handled}

module _ (E : Evictor) (H : Http) (B : Splitter) (fuel more : ℕ) (le : fuel ≤ more) (req : Request)
    (c : Cache E.State) where
  handle_put-more :
      (r : Response × Cache E.State)
      → handle_put E H B fuel req c ≡ ok r
      → handle_put E H B more req c ≡ ok r
  handle_put-more r run = elim (four_parts (B.split (codes "/") req.body)) [
    | inr e ↦ cc (run, handle_put_malformed E H B fuel req c e)
    | inl (a, key, val, digits, e) ↦ elim (Outcome-cases (read_u32 digits)) [
      | inr (b, f) ↦ cc (run, handle_put_unread E H B fuel req c a key val digits b e f)
      | inl (n, size) ↦ elim (Outcome-cases (CacheOf.set E fuel key (some (val ++ 0 ∷ [])) n c)) [
        | inr (b, f) ↦
            cc (run, handle_put_parts E H B fuel req c a key val digits n (fault b) e size f)
        | inl (d, f) ↦
            handle_put_parts E H B more req c a key val digits n (ok d) e size
              (set-more E fuel more key _ _ c d le f)
            ∙ sym (handle_put_parts E H B fuel req c a key val digits n (ok d) e size f)
            ∙ run
      ]
    ]
  ]

  handle_request-more :
      (r : Response × Cache E.State)
      → handle_request E H B fuel req c ≡ ok r
      → handle_request E H B more req c ≡ ok r
  unfolding handle_request
  handle_request-more r run = ground (arith, handle_put-more r)

pub handle_request-IsValid :
    (E : Evictor) (H : Http) (B : Splitter) (fuel : ℕ) (req : Request) (c c' : Cache E.State)
    (res : Response) (q : List Bytes)
    → IsValid E c q
    → handle_request E H B fuel req c ≡ ok (res, c')
    → (q' : List Bytes) × IsValid E c' q' × (c'.maxmem ≡ c.maxmem)
handle_request-IsValid E H B fuel req c c' res q valid run =
    let more = fuel + suc (length q) in
    rw (handle_request-more E H B fuel more (omega arith) req c (res, c') run) at
      (handle_request-Handled E H B more req c q valid (omega arith))
