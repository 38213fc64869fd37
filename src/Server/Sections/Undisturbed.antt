-- ===== src/Server/Sections/Undisturbed.antt =====
-- A thread that no other disturbs, against `handle_request` as a whole.
use hw6_csci.Base.{ℕ, ◌≡◌, refl, inl, inr, arith, codes, Outcome-cases}
use hw6_csci.Evictor.{Evictor}
use hw6_csci.Cache as CacheOf
use hw6_csci.Cache.{Cache}
use hw6_csci.Http.{Verb, Request, Http}
use hw6_csci.Text.{at, read_u32}
use hw6_csci.Text.Split.{Splitter}
use hw6_csci.Server.{handle_request, handle_head, handle_get, finish, get_response}
use hw6_csci.Server.Handlers.{
  two_parts, four_parts, handle_request-get, handle_request-put, handle_request-delete,
  handle_request-post, handle_request-head, handle_request-other, handle_get_parts,
  handle_get_malformed, handle_put_parts, handle_put_malformed, handle_put_unread,
  handle_delete_parts, handle_delete_malformed, handle_post_parts, handle_post_malformed,
}
use hw6_csci.Server.Sections.{enter, section, behind, undisturbed}

module _ (E : Evictor) (H : Http) (B : Splitter) (fuel : ℕ) (req : Request)
    (c : Cache E.State) where
  abbrev Same : Type 0
  Same = handle_request E H B fuel req c ≡ undisturbed E H B fuel req c

  undisturbed-get : req.method ≡ Verb.get → Same
  unfolding undisturbed enter section behind at get_response finish handle_get
  undisturbed-get m = elim (two_parts (B.split (codes "/") req.body)) [
    | inr e ↦
        rw (handle_request-get E H B fuel req c m, handle_get_malformed E H B fuel req c e, m, e)
          refl
    | inl (a, key, e) ↦ elim (Outcome-cases (CacheOf.get E key c)) [
      | inl ((r, c'), run) ↦
          rw
            (
              handle_request-get E H B fuel req c m,
              handle_get_parts E H B fuel req c c' a key r e run,
              m,
              e,
              run,
            )
            refl
      | inr (f, run) ↦ rw (handle_request-get E H B fuel req c m, e, m, e, run) refl
    ]
  ]

  undisturbed-put : req.method ≡ Verb.put → Same
  unfolding undisturbed enter section behind at
  undisturbed-put m = elim (four_parts (B.split (codes "/") req.body)) [
    | inr e ↦
        rw (handle_request-put E H B fuel req c m, handle_put_malformed E H B fuel req c e, m, e)
          refl
    | inl (a, key, val, digits, e) ↦ elim (Outcome-cases (read_u32 digits)) [
      | inr (f, size) ↦
          rw
            (
              handle_request-put E H B fuel req c m,
              handle_put_unread E H B fuel req c a key val digits f e size,
              m,
              e,
              size,
            )
            refl
      | inl (n, size) ↦
          rw
            (
              handle_request-put E H B fuel req c m,
              handle_put_parts E H B fuel req c a key val digits n _ e size refl,
              m,
              e,
              size,
            )
            (ground arith)
    ]
  ]

  undisturbed-delete : req.method ≡ Verb.delete → Same
  unfolding undisturbed enter section behind at get_response finish
  undisturbed-delete m = elim (two_parts (B.split (codes "/") req.body)) [
    | inr e ↦
        rw
          (
            handle_request-delete E H B fuel req c m,
            handle_delete_malformed E H B fuel req c e,
            m,
            e,
          )
          refl
    | inl (a, key, e) ↦
        rw
          (
            handle_request-delete E H B fuel req c m,
            handle_delete_parts E H B fuel req c a key e,
            m,
            e,
          )
          refl
  ]

  undisturbed-post : req.method ≡ Verb.post → Same
  unfolding undisturbed enter section behind at CacheOf.reset CacheOf.space_used
  undisturbed-post m = elim (two_parts (B.split (codes "/") req.body)) [
    | inr e ↦
        rw (handle_request-post E H B fuel req c m, handle_post_malformed E H B fuel req c e, m, e)
          refl
    | inl (a, path, e) ↦
        rw
          (
            handle_request-post E H B fuel req c m,
            handle_post_parts E H B fuel req c a path e,
            m,
            e,
          )
          (ground arith)
  ]

  undisturbed-head : req.method ≡ Verb.head → Same
  unfolding undisturbed enter handle_head
  undisturbed-head m = rw (handle_request-head E H B fuel req c m, m) refl

  undisturbed-other : req.method ≡ Verb.other → Same
  unfolding undisturbed enter
  undisturbed-other m = rw (handle_request-other E H B fuel req c m, m) refl

  undisturbed-Verb : (v : Verb) → req.method ≡ v → Same
  undisturbed-Verb Verb.get m = undisturbed-get m
  undisturbed-Verb Verb.put m = undisturbed-put m
  undisturbed-Verb Verb.delete m = undisturbed-delete m
  undisturbed-Verb Verb.post m = undisturbed-post m
  undisturbed-Verb Verb.head m = undisturbed-head m
  undisturbed-Verb Verb.other m = undisturbed-other m

  -- The code before the lock, the section of the mutex and the code behind it, one after the
  -- other with nothing in between, are `handle_request`: the same response, cache or fault for
  -- every request and every cache.
  pub handle_request-undisturbed : handle_request E H B fuel req c ≡ undisturbed E H B fuel req c
  handle_request-undisturbed = undisturbed-Verb req.method refl
