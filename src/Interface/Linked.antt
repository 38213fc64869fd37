-- ===== src/Interface/Linked.antt =====
-- Each method of the two implementations, after the same calls.
use hw6_csci.Base.{
  ℕ, suc, ◌+◌, ◌^◌, ◌<◌, ◌≤◌, ◌≡◌, refl, inl, inr, true, Option, none, some, List, [], ◌∷◌, ◌++◌,
  arith, Bytes, Fault, ok, ltb, length, Option-cases,
}
use hw6_csci.Base.Dict.{find}
use hw6_csci.Evictor.{Evictor}
use hw6_csci.Cache as CacheOf
use hw6_csci.Cache.{Cache, make, read_value}
use hw6_csci.Cache.Reads.{get_hit, get_miss}
use hw6_csci.Cache.History.{Call, set_call, get_call, del_call, reset_call, call, After}
use hw6_csci.Cache.History.Sets.{After-set}
use hw6_csci.Cache.History.Steps.{After-get, After-del, After-reset}
use hw6_csci.Http.{Http}
use hw6_csci.Text.{scan_digits}
use hw6_csci.Text.Split.{Splitter}
use hw6_csci.Client.{Client}
use hw6_csci.Client.Remote.{remote_set-set, remote_get-get, remote_del-del}
use hw6_csci.Client.Control.{remote_reset-reset, remote_space_used-space_used}
use hw6_csci.Client.Run.{
  Unmarked, UnmarkedCalls, latest-Unmarked, Unmarked-Sent, Unmarked-marks, Unmarked-short,
}
use hw6_csci.Client.Delivery.{NamesHost}
use hw6_csci.Interface.{Method, Reply, perform}
use hw6_csci.Interface.Simulation.{Agree}
use hw6_csci.Interface.Implementations.{library, network}

-- Every key and every text can be sent and is not cut by client or server, no text has a zero byte,
-- and every size is an `int`.
abbrev pub Sendable : List Method → Type 0
Sendable [] = Unit
Sendable (Method.set key text n ∷ ms) =
    (Unmarked key × Unmarked text × (read_value (some (text ++ 0 ∷ [])) ≡ ok text) × (n < 2 ^ 31))
    × Sendable ms
Sendable (Method.get key ∷ ms) = Unmarked key × Sendable ms
Sendable (Method.del key ∷ ms) = Unmarked key × Sendable ms
Sendable (Method.space_used ∷ ms) = Sendable ms
Sendable (Method.reset ∷ ms) = Sendable ms

module _ (E : Evictor) (H : Http) (B : Splitter) (fuel : ℕ) (tail : Bytes) (maxmem : ℕ) where
  -- The server's cache is the local one, and both have had the same calls.
  pub record Linked (ms : List Method) (c : Cache E.State) (t : Client × Cache E.State)
      : Type 0 where
    pub calls : List Call
    pub same : t.1 ≡ c
    pub named : NamesHost t.0.host
    pub after : After E maxmem calls c
    pub unmarked : UnmarkedCalls calls
    pub enough : length calls + length ms ≤ fuel
    pub safe : Sendable ms

  module _ (ms : List Method) (c : Cache E.State) (client : Client) (calls : List Call)
      (after : After E maxmem calls c) (named : NamesHost client.host)
      (unmarked : UnmarkedCalls calls) (enough : length calls + suc (length ms) ≤ fuel)
      (safe : Sendable ms) where
    abbrev pub Next : Method → Type 0
    Next m =
        Agree (Linked ms) (perform (library E fuel) m c)
          (perform (network E H B fuel tail) m (client, c))

    linked :
        (a : Call) (client' : Client) (c' : Cache E.State)
        → NamesHost client'.host
        → After E maxmem (a ∷ calls) c'
        → UnmarkedCalls (a ∷ calls)
        → Linked ms c' (client', c')
    linked a client' c' named' after' unmarked' = record {
      calls = a ∷ calls;
      same = refl;
      named = named';
      after = after';
      unmarked = unmarked';
      enough = omega arith;
      safe = safe;
    }

    pub Next-set :
        (key text : Bytes) (n : ℕ)
        → Sendable (Method.set key text n ∷ ms)
        → Next (Method.set key text n)
    unfolding perform
    Next-set key text n ((k, t, readable, small), _) =
        let remote =
          remote_set-set E H B fuel client key text n c named (Unmarked-Sent key k)
            (Unmarked-Sent text t) (omega (arith, Unmarked-short key k, Unmarked-short text t))
            (omega arith) in
        elim (After-set E maxmem calls c after fuel key text n readable (omega arith)) [
          | inr e ↦ inr (Fault.dangling_iterator, rw e, rw (remote, e))
          | inl (c', run, after') ↦ inl (
            Reply.done,
            c',
            (client, c'),
            rw run,
            rw (remote, run),
            linked (set_call key text n) client c' named after' ((k, t, small), unmarked),
          )
        ]

    after_get :
        (key : Bytes) (r : Option ℕ) (c' : Cache E.State)
        → CacheOf.get E key c ≡ ok (r, c')
        → After E maxmem (get_call key ∷ calls) c'
    unfolding call
    after_get key r c' run =
        let (d, run', after') = After-get E maxmem calls c after fuel key in
        let same : d ≡ c' = ground arith in rw same at after'

    pub Next-get : (key : Bytes) → Unmarked key → Next (Method.get key)
    unfolding perform
    Next-get key k = elim (Option-cases (find key c.vals)) [
      | inl e ↦
          let run = get_miss E key c e in
          inl (
            Reply.got none,
            c,
            (client, c),
            rw run,
            rw (
                remote_get-get E H B fuel client key c c none named (Unmarked-Sent key k)
                  (omega (arith, Unmarked-short key k)) run tt),
            linked (get_call key) client c named (after_get key none c run) (k, unmarked),
          )
      | inr (v, e) ↦
          let (n, c', run, _, text, _, _, _) = get_hit E key c after.queue after.valid v e in
          let (m, size, newest) = after.fresh.texts key v e in
          let equal : m ≡ n = ground arith in
          let (v_safe, small) = latest-Unmarked maxmem key v m calls unmarked newest in
          let value : Unmarked c'.get_val = rw text v_safe in
          let int : ltb n (2 ^ 31) ≡ true = ground arith in
          inl (
            Reply.got (some (n, c'.get_val)),
            c',
            (record client { get_val = c'.get_val }, c'),
            rw run,
            rw (
              remote_get-get E H B fuel client key c c' (some n) named (Unmarked-Sent key k)
                  (omega (arith, Unmarked-short key k)) run
                  (
                    Unmarked-marks key k,
                    Unmarked-marks c'.get_val value,
                    omega arith,
                    omega (arith, Unmarked-short c'.get_val value),
                  ),
              int,
            ),
            linked (get_call key) (record client { get_val = c'.get_val }) c' named
                (after_get key (some n) c' run) (k, unmarked),
          )
    ]

    pub Next-del : (key : Bytes) → Unmarked key → Next (Method.del key)
    unfolding perform
    Next-del key k = inl (
      Reply.deleted (CacheOf.del E key c).0,
      (CacheOf.del E key c).1,
      (client, (CacheOf.del E key c).1),
      refl,
      rw (
          remote_del-del E H B fuel client key c named (Unmarked-Sent key k)
            (omega (arith, Unmarked-short key k))),
      linked (del_call key) client _ named (After-del E maxmem calls c after key) (k, unmarked),
    )

    pub Next-reset : Next Method.reset
    unfolding perform
    Next-reset =
        let (res, e, _) = remote_reset-reset E H B fuel client c in
        inl (
          Reply.done,
          CacheOf.reset E c,
          (client, CacheOf.reset E c),
          refl,
          rw e,
          linked reset_call client _ named (After-reset E maxmem calls c after) unmarked,
        )

    pub Next-space_used :
        maxmem < 2 ^ 31 → ((n : ℕ) → scan_digits tail n true ≡ (n, true)) → Next Method.space_used
    unfolding perform CacheOf.space_used
    Next-space_used small stops =
        let used : CacheOf.space_used E c < 2 ^ 31 =
          omega (arith, after.valid.bounded, after.bound) in
        inl (
          Reply.used (CacheOf.space_used E c),
          c,
          (client, c),
          refl,
          rw (remote_space_used-space_used E H B fuel client tail c used (stops _)),
          record {
            calls = calls;
            same = refl;
            named = named;
            after = after;
            unmarked = unmarked;
            enough = omega arith;
            safe = safe;
          },
        )
