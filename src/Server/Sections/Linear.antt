-- ===== src/Server/Sections/Linear.antt =====
-- The answers of the threads in the order of the mutex: each request at one place of it.
use hw6_csci.Base.{ℕ, ◌≡◌, ◌≢◌, some, List, ◌∷◌, ◌++◌, Bytes, ok}
use hw6_csci.Evictor.{Evictor}
use hw6_csci.Cache as CacheOf
use hw6_csci.Cache.{Cache}
use hw6_csci.Cache.History.{Call, get_call}
use hw6_csci.Http.{Verb, Request, Response, Http}
use hw6_csci.Text.Split.{Splitter}
use hw6_csci.Server.{handle_request, get_body}
use hw6_csci.Server.Told.{Told, SecondPart}
use hw6_csci.Server.Sections.{Held}
use hw6_csci.Server.Sections.Threads.{Threads, Entry}
use hw6_csci.Server.Sections.Replay.{Replays}

module _ (E : Evictor) (H : Http) (B : Splitter) (c0 : Cache E.State) where
  -- At one place in the order of the sections, with the cache as the sections before it have left it
  -- and the section of the request itself, if it has one, the answer is that of `handle_request`.
  pub record AtOnePlace (log : List Entry) (req : Request) (res : Response) : Type 0 where
    pub newer : List Entry
    pub own : List Entry
    pub older : List Entry
    pub cache : Cache E.State
    pub cache_after : Cache E.State
    pub fuel : ℕ
    pub split : log ≡ newer ++ (own ++ older)
    pub before : Replays E H B c0 older cache
    pub after : Replays E H B c0 (own ++ older) cache_after
    pub answer : handle_request E H B fuel req cache ≡ ok (res, cache_after)
    pub told : Told E B fuel req req.method res cache cache_after

  -- The text that a `GET` reads behind its section is not the one that its section found.
  abbrev pub Replaced :
      Call → Held → Cache E.State → Cache E.State → Cache E.State → Response → Type 0
  Replaced a held d d' c' res =
      (key : Bytes) × (n : ℕ) × (a ≡ get_call key)
      × (held ≡ Held.got key (some n))
      × (CacheOf.get E key d ≡ ok (some n, d'))
      × (c'.get_val ≢ d'.get_val)
      × (res.body ≡ get_body key c'.get_val n)

  -- A `GET` found its key with the size `n` in its section, and is answered with key and size, and
  -- with another text: the one that the sections of `between` have left in `get_val_`.
  pub record Overwritten (log : List Entry) (req : Request) (res : Response) : Type 0 where
    pub newer : List Entry
    pub between : List Entry
    pub older : List Entry
    pub key : Bytes
    pub size : ℕ
    pub cache : Cache E.State
    pub cache_after : Cache E.State
    pub cache_read : Cache E.State
    pub split : log ≡ newer ++ (between ++ (get_call key, Held.got key (some size)) ∷ older)
    pub before : Replays E H B c0 older cache
    pub after :
        Replays E H B c0 (between ++ (get_call key, Held.got key (some size)) ∷ older) cache_read
    pub method : req.method ≡ Verb.get
    pub part : SecondPart E B 0 req key
    pub found : CacheOf.get E key cache ≡ ok (some size, cache_after)
    pub replaced : cache_read.get_val ≢ cache_after.get_val
    pub answer : res.body ≡ get_body key cache_read.get_val size
