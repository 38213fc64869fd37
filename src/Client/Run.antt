-- ===== src/Client/Run.antt =====
-- Whole runs of a client on a new server, against runs of a local cache.
use hw6_csci.Base.{
  ℕ, ◌^◌, ◌<◌, ◌≤◌, ◌≡◌, refl, inl, inr, true, ◌&&◌, none, some, List, [], ◌∷◌, arith, Bytes,
  Outcome, ok, ◌>>=◌, ltb, leb, length, bytes_eq, Option-cases, Bool-cases,
}
use hw6_csci.Base.Dict.{find}
use hw6_csci.Evictor.{Evictor}
use hw6_csci.Cache.{Cache, make}
use hw6_csci.Cache.Reads.{get_hit, get_miss}
use hw6_csci.Cache.History.{
  Call, set_call, get_call, del_call, reset_call, latest, call, run_calls, Readable, After,
}
use hw6_csci.Cache.History.Run.{runs}
use hw6_csci.Http.{Http}
use hw6_csci.Text.Split.{Splitter, Lacks}
use hw6_csci.Client.{Client}
use hw6_csci.Client.Parts.{slash, reply_marks}
use hw6_csci.Client.Delivery.{NamesHost}
use hw6_csci.Text.{all_visible}
use hw6_csci.Client.Remote.{
  Sent, remote_set, remote_get, remote_del, remote_set-set, remote_get-get, remote_del-del,
}
use hw6_csci.Client.Control.{remote_reset, remote_reset-reset}

-- Visible characters without those at which client and server cut their texts, 2000 at most.
abbrev pub Unmarked : Bytes → Type 0
Unmarked s = Lacks slash s × Lacks reply_marks s × (all_visible s ≡ true) × (length s ≤ 2000)

pub Unmarked-Sent : (s : Bytes) → Unmarked s → Sent s
Unmarked-Sent s (cuts, marks, visible, short) = (cuts, visible)

pub Unmarked-marks : (s : Bytes) → Unmarked s → Lacks reply_marks s
Unmarked-marks s (cuts, marks, visible, short) = marks

pub Unmarked-short : (s : Bytes) → Unmarked s → length s ≤ 2000
Unmarked-short s (cuts, marks, visible, short) = short

-- Every key and every text is such a text, and every size is an `int`.
abbrev pub UnmarkedCalls : List Call → Type 0
UnmarkedCalls [] = Unit
UnmarkedCalls (set_call key text n ∷ calls) =
    (Unmarked key × Unmarked text × (n < 2 ^ 31)) × UnmarkedCalls calls
UnmarkedCalls (get_call key ∷ calls) = Unmarked key × UnmarkedCalls calls
UnmarkedCalls (del_call key ∷ calls) = Unmarked key × UnmarkedCalls calls
UnmarkedCalls (reset_call ∷ calls) = UnmarkedCalls calls

pub latest-Unmarked :
    (maxmem : ℕ) (k v : Bytes) (n : ℕ) (calls : List Call)
    → UnmarkedCalls calls
    → latest maxmem k calls ≡ some (v, n)
    → Unmarked v × (n < 2 ^ 31)
unfolding latest
latest-Unmarked maxmem k v n [] safe e = cc
latest-Unmarked maxmem k v n (set_call key text m ∷ calls) safe e =
    elim (Bool-cases (bytes_eq key k && leb m maxmem)) [
      | inl new ↦
          let same_text : text ≡ v = ground arith in
          let same_size : m ≡ n = ground arith in
          (rw same_text at safe.0.1, omega (arith, safe.0.2))
      | inr old ↦ latest-Unmarked maxmem k v n calls safe.1 (ground arith)
    ]
latest-Unmarked maxmem k v n (get_call key ∷ calls) safe e =
    latest-Unmarked maxmem k v n calls safe.1 e
latest-Unmarked maxmem k v n (del_call key ∷ calls) safe e =
    latest-Unmarked maxmem k v n calls safe.1 (ground arith)
latest-Unmarked maxmem k v n (reset_call ∷ calls) safe e = cc

module _ (E : Evictor) (H : Http) (B : Splitter) (fuel : ℕ) (client : Client) where
  -- A call over the network, as far as the server's cache goes.
  pub remote_call : Call → Cache E.State → Outcome (Cache E.State)
  remote_call (set_call key text n) c = remote_set E H B fuel client key text n c
  remote_call (get_call key) c = do (_, _, c') ← remote_get E H B fuel client key c; ok c'
  remote_call (del_call key) c = do (_, c') ← remote_del E H B fuel client key c; ok c'
  remote_call reset_call c = do (_, c') ← remote_reset E H B fuel client c; ok c'

  pub remote_run : List Call → Cache E.State → Outcome (Cache E.State)
  remote_run [] c = ok c
  remote_run (a ∷ calls) c = do c' ← remote_run calls c; remote_call a c'

  module _ (maxmem : ℕ) (calls : List Call) (c : Cache E.State) (after : After E maxmem calls c)
      (named : NamesHost client.host) where
    same_get :
        (key : Bytes)
        → Unmarked key
        → UnmarkedCalls calls
        → remote_call (get_call key) c ≡ call E fuel (get_call key) c
    unfolding remote_call call
    same_get key k safe = elim (Option-cases (find key c.vals)) [
      | inl e ↦
          let run = get_miss E key c e in
          rw (
            remote_get-get E H B fuel client key c c none named (Unmarked-Sent key k)
                (omega (arith, Unmarked-short key k)) run tt,
            run,
          )
      | inr (v, e) ↦
          let (n, c', run, size, text, _, _, _) = get_hit E key c after.queue after.valid v e in
          let (m, size', newest) = after.fresh.texts key v e in
          let same : m ≡ n = ground arith in
          let (v_safe, small) = latest-Unmarked maxmem key v m calls safe newest in
          let value : Unmarked c'.get_val = rw text v_safe in
          let int : ltb n (2 ^ 31) ≡ true = ground arith in
          rw (
            remote_get-get E H B fuel client key c c' (some n) named (Unmarked-Sent key k)
                (omega (arith, Unmarked-short key k)) run
                (
                  Unmarked-marks key k,
                  Unmarked-marks c'.get_val value,
                  omega arith,
                  omega (arith, Unmarked-short c'.get_val value),
                ),
            run,
            int,
          )
    ]

    same_call : (a : Call) → UnmarkedCalls (a ∷ calls) → remote_call a c ≡ call E fuel a c
    unfolding remote_call call
    same_call (set_call key text n) ((k, t, small), _) =
        remote_set-set E H B fuel client key text n c named (Unmarked-Sent key k)
          (Unmarked-Sent text t) (omega (arith, Unmarked-short key k, Unmarked-short text t))
          (omega arith)
    same_call (get_call key) safe = same_get key safe.0 safe.1
    same_call (del_call key) safe = rw (
        remote_del-del E H B fuel client key c named (Unmarked-Sent key safe.0)
          (omega (arith, Unmarked-short key safe.0)))
    same_call reset_call safe = let (res, e, _) = remote_reset-reset E H B fuel client c in rw e

  UnmarkedCalls-rest :
      (a : Call) (calls : List Call) → UnmarkedCalls (a ∷ calls) → UnmarkedCalls calls
  UnmarkedCalls-rest (set_call key text n) calls safe = safe.1
  UnmarkedCalls-rest (get_call key) calls safe = safe.1
  UnmarkedCalls-rest (del_call key) calls safe = safe.1
  UnmarkedCalls-rest reset_call calls safe = safe

  Readable-rest : (a : Call) (calls : List Call) → Readable (a ∷ calls) → Readable calls
  Readable-rest (set_call key text n) calls readable = readable.1
  Readable-rest (get_call key) calls readable = readable
  Readable-rest (del_call key) calls readable = readable
  Readable-rest reset_call calls readable = readable

  -- With `maxmem` below 2^31, an evictor that holds no key, a host whose name can stand in a
  -- field of a request, keys and texts of up to 2000 visible characters without a slash, comma
  -- or colon, texts without a zero byte, sizes below 2^31, and at least as many rounds as calls,
  -- any sequence of `set`, `get`, `del` and `reset` of a client on a new server comes to the
  -- same as the sequence of local calls on a new cache, as far as the server's cache and the
  -- faults go.
  pub remote_run-run_calls :
      (maxmem : ℕ) (s : E.State) (calls : List Call)
      → maxmem < 2 ^ 31
      → E.Holds s []
      → NamesHost client.host
      → Readable calls
      → UnmarkedCalls calls
      → length calls ≤ fuel
      → remote_run calls (make maxmem (some s)) ≡ run_calls E fuel calls (make maxmem (some s))
  unfolding remote_run run_calls
  remote_run-run_calls maxmem s [] small holds named readable safe enough = refl
  remote_run-run_calls maxmem s (a ∷ calls) small holds named readable safe enough =
      let rest = UnmarkedCalls-rest a calls safe in
      let rest' = Readable-rest a calls readable in
      let same = remote_run-run_calls maxmem s calls small holds named rest' rest (omega arith) in
      elim (runs E maxmem fuel s small holds calls rest' (omega arith)) [
        | inr e ↦ rw (same, e)
        | inl (c, run, after) ↦ rw (same, run) (same_call maxmem calls c after named a safe)
      ]
