-- ===== src/Client/Remote.antt =====
-- The client and the server together: the cache over the network against the cache itself.
use hw6_csci.Base.{
  ℕ, ◌+◌, ◌^◌, ◌<◌, ◌≤◌, ◌≡◌, ◌≢◌, refl, ◌∙◌, ap, Bool, true, false, Option, none, some, [], ◌∷◌,
  ◌++◌, arith, Bytes, codes, Outcome, ok, fault, ◌>>=◌, ltb, if◌then◌else◌, Bytes-discrete, Fault,
  length, length-append,
}
use hw6_csci.Evictor.{Evictor}
use hw6_csci.Cache as CacheOf
use hw6_csci.Cache.{Cache}
use hw6_csci.Http.{Verb, Request, Response, Http}
use hw6_csci.Text.{to_string, at, all_visible}
use hw6_csci.Text.Visible.{all_visible-append, to_string-visible, length-to_string}
use hw6_csci.Client.Delivery.{delivered, NamesHost, delivered-text}
use hw6_csci.Text.Decimal.{read_u32-to_string, stoi-to_string}
use hw6_csci.Text.Split.{Splitter, Lacks}
use hw6_csci.Server.{handle_request, finish, get_response, get_body}
use hw6_csci.Server.Handlers.{
  handle_get_parts, handle_put_parts, handle_delete_parts, handle_request-get, handle_request-put,
  handle_request-delete, answer, get_message,
}
use hw6_csci.Client.{
  Client, text_request, set_request, get_request, del_request, get_result, del_result,
}
use hw6_csci.Client.Parts.{
  slash, reply_marks, split-path, split-put, split-get_body, split-null, unquote-quoted,
}

-- A key or a text that has no slash and no space, and is all visible characters.
abbrev pub Sent : Bytes → Type 0
Sent s = Lacks slash s × (all_visible s ≡ true)

put_known : Verb.put ≢ Verb.other
put_known e = cc

get_known : Verb.get ≢ Verb.other
get_known e = cc

delete_known : Verb.delete ≢ Verb.other
delete_known e = cc

module _ (E : Evictor) (H : Http) (B : Splitter) (fuel : ℕ) (client : Client) where
  -- A method of the client: its request, which the server reads and handles, and what it reads from
  -- the response.
  unfoldable pub remote_set : Bytes → Bytes → ℕ → Cache E.State → Outcome (Cache E.State)
  remote_set key val size c = do
    req ← delivered H (set_request H B client key val size)
    (_, c') ← handle_request E H B fuel req c
    ok c'

  pub remote_get : Bytes → Cache E.State → Outcome (Option ℕ × Client × Cache E.State)
  remote_get key c = do
    req ← delivered H (get_request H B client key)
    (res, c') ← handle_request E H B fuel req c
    (result, client') ← get_result H B client res
    ok (result, client', c')

  pub remote_del : Bytes → Cache E.State → Outcome (Bool × Cache E.State)
  remote_del key c = do
    req ← delivered H (del_request H B client key)
    (res, c') ← handle_request E H B fuel req c
    ok (del_result H B client res, c')

  module _ (named : NamesHost client.host) where
    put_arrives :
        (key val : Bytes) (size : ℕ)
        → Sent key
        → Sent val
        → length key + length val ≤ 4000
        → (r : Request) × (delivered H (set_request H B client key val size) ≡ ok r)
          × (r.method ≡ Verb.put)
          × (r.body ≡ codes "/" ++ (key ++ (codes "/" ++ (val ++ (codes "/" ++ to_string size)))))
    unfolding set_request
    put_arrives key val size (_, vk) (_, vv) short =
        let digits = to_string size in
        let last = codes "/" ++ digits in
        let middle = codes "/" ++ (val ++ last) in
        let end = all_visible-append (codes "/") digits refl (to_string-visible size) in
        let behind =
          all_visible-append (codes "/") (val ++ last) refl (all_visible-append val last vv end) in
        delivered-text H client.host named Verb.put put_known (codes "/" ++ (key ++ middle))
          (all_visible-append (codes "/") (key ++ middle) refl
            (all_visible-append key middle vk behind))
          (omega arith)
          (omega (arith, length-append key middle, length-append val last, length-to_string size))

    path_arrives :
        (method : Verb) (key : Bytes)
        → method ≢ Verb.other
        → Sent key
        → length key ≤ 4000
        → (r : Request) × (delivered H (text_request H client.host method (codes "/" ++ key))
            ≡ ok r)
          × (r.method ≡ method)
          × (r.body ≡ codes "/" ++ key)
    path_arrives method key known (_, vk) short =
        delivered-text H client.host named method known (codes "/" ++ key)
          (all_visible-append (codes "/") key refl vk) (omega arith) (omega arith)

  -- For a host whose name can stand in a field of a request, a key and a value of visible
  -- characters with no slash, together 4000 at most, and a size below 2^32, `set` over the
  -- network does to the server's cache what the local `set` does, its faults included.
  pub remote_set-set :
      (key val : Bytes) (size : ℕ) (c : Cache E.State)
      → NamesHost client.host
      → Sent key
      → Sent val
      → length key + length val ≤ 4000
      → size < 2 ^ 32
      → remote_set key val size c ≡ CacheOf.set E fuel key (some (val ++ 0 ∷ [])) size c
  unfolding remote_set
  remote_set-set key val size c named k v short small =
      let (r, e, m, b) = put_arrives named key val size k v short in
      let parts = ap (B.split slash) b ∙ split-put B key val size k.0 v.0 in
      rw
        (
          e,
          handle_request-put E H B fuel r c m,
          handle_put_parts E H B fuel r c [] key val (to_string size) size
              (CacheOf.set E fuel key (some (val ++ 0 ∷ [])) size c) parts
              (read_u32-to_string size small) refl,
        )
        (ground arith)

  response_text : (req : Request) (message : Bytes) → (get_response H req message).body ≡ message
  unfolding get_response finish
  response_text req message = H.response_body _

  get_result_hit :
      (res : Response) (key value : Bytes) (size : ℕ)
      → res.body ≡ get_body key value size
      → Lacks reply_marks key
      → Lacks reply_marks value
      → size < 2 ^ 32
      → get_result H B client res ≡ (
          if ltb size (2 ^ 31)
          then ok (some size, record client { get_val = value })
          else fault Fault.out_of_range)
  unfolding get_result at Bytes-discrete
  get_result_hit res key value size e lk lv small =
      rw
        (
          e,
          split-get_body B key value size lk lv,
          unquote-quoted value,
          unquote-quoted (to_string size),
          stoi-to_string size small,
        )
        (ground arith)

  get_result_miss :
      (res : Response) → res.body ≡ codes "NULL" → get_result H B client res ≡ ok (none, client)
  unfolding get_result at Bytes-discrete
  get_result_miss res e = rw (e, split-null B)

  -- What `remote_get` makes of the local result: a size that is no `int` makes `stoi` throw.
  abbrev pub relayed : Option ℕ → Cache E.State → Outcome (Option ℕ × Client × Cache E.State)
  relayed none c' = ok (none, client, c')
  relayed (some n) c' =
      if ltb n (2 ^ 31)
      then ok (some n, record client { get_val = c'.get_val }, c')
      else fault Fault.out_of_range

  -- What the client can read of the response: its parser takes a body of 2^23 bytes.
  abbrev pub Relays : Bytes → Option ℕ → Bytes → Type 0
  Relays key none value = Unit
  Relays key (some n) value =
      Lacks reply_marks key × Lacks reply_marks value × (n < 2 ^ 32) × (length value ≤ 2 ^ 20)

  get_result-relayed :
      (req : Request) (key : Bytes) (result : Option ℕ) (c' : Cache E.State)
      → Relays key result c'.get_val
      → (do
        (r, client') ←
            get_result H B client (get_response H req (get_message key result c'.get_val))
        ok (r, client', c'))
        ≡ relayed result c'
  unfolding get_message
  get_result-relayed req key none c' h =
      rw (get_result_miss (get_response H req (codes "NULL")) (response_text req (codes "NULL")))
  get_result-relayed req key (some n) c' (lk, lv, small, _) =
      rw
        (get_result_hit (get_response H req (get_body key c'.get_val n)) key c'.get_val n
          (response_text req (get_body key c'.get_val n)) lk lv small)
        (ground arith)

  -- For a host whose name can stand in a field of a request and a key of up to 4000 visible
  -- characters with no slash, where the local `get` returns a result, and where for a hit
  -- neither key nor value has a comma or a colon, the value has at most 2^20 bytes and the size
  -- is below 2^32, `get` over the network leaves the server's cache as the local `get` does and
  -- returns the same: a null pointer for a miss, and for a hit the size and the text, but where
  -- the size is 2^31 or more `stoi` throws.
  pub remote_get-get :
      (key : Bytes) (c c' : Cache E.State) (result : Option ℕ)
      → NamesHost client.host
      → Sent key
      → length key ≤ 4000
      → CacheOf.get E key c ≡ ok (result, c')
      → Relays key result c'.get_val
      → remote_get key c ≡ relayed result c'
  unfolding remote_get get_request
  remote_get-get key c c' result named k short run h =
      let (r, e, m, b) = path_arrives named Verb.get key get_known k short in
      rw
        (
          e,
          handle_request-get E H B fuel r c m,
          handle_get_parts E H B fuel r c c' [] key result
              (ap (B.split slash) b ∙ split-path B key k.0) run,
        )
        (get_result-relayed r key result c' h)

  answer_of : (req : Request) (b : Bool) → del_result H B client (get_response H req (answer b)) ≡ b
  unfolding del_result answer Bytes-discrete
  answer_of req true = rw (response_text req (codes "True"))
  answer_of req false = rw (response_text req (codes "False"))

  -- For a host whose name can stand in a field, and a key of up to 4000 visible characters with no
  -- slash, `del` over the network does to the server's cache what the local `del` does, and
  -- returns the same.
  pub remote_del-del :
      (key : Bytes) (c : Cache E.State)
      → NamesHost client.host
      → Sent key
      → length key ≤ 4000
      → remote_del key c ≡ ok (CacheOf.del E key c)
  unfolding remote_del del_request
  remote_del-del key c named k short =
      let (r, e, m, b) = path_arrives named Verb.delete key delete_known k short in
      rw (
        e,
        handle_request-delete E H B fuel r c m,
        handle_delete_parts E H B fuel r c [] key (ap (B.split slash) b ∙ split-path B key k.0),
        answer_of r (CacheOf.del E key c).0,
      )
