-- ===== src/Interface.antt =====
-- cache.hh: the public part of the class `Cache`, which cache_lib.cc implements by a store and
-- cache_client.cc by requests to a server. A program is linked with one of the two.
mod Tests
pub mod Simulation
pub mod Implementations
pub mod Linked
pub mod Same
use hw6_csci.Base.{ℕ, Bool, Option, List, [], ◌∷◌, Bytes, Outcome, ok, fault, ◌>>=◌}

-- The state is what stands behind `pImpl_`. The text of a `set` is what stands before its zero
-- byte; a `get` that finds the key returns the size and the text behind the pointer.
pub record CacheInterface : Type 1 where
  pub State : Type 0
  pub set : (key text : Bytes) → ℕ → State → Outcome State
  pub get : Bytes → State → Outcome (Option (ℕ × Bytes) × State)
  pub del : Bytes → State → Outcome (Bool × State)
  pub space_used : State → Outcome (ℕ × State)
  pub reset : State → Outcome State

-- A use of the class with the arguments.
pub data Method : Type 0 where
  set : (key text : Bytes) → ℕ → Method
  get del : Bytes → Method
  space_used reset : Method

pub data Reply : Type 0 where
  done : Reply
  got : Option (ℕ × Bytes) → Reply
  deleted : Bool → Reply
  used : ℕ → Reply

module _ (I : CacheInterface) where
  unfoldable pub perform : Method → I.State → Outcome (Reply × I.State)
  perform (Method.set key text n) s = do s' ← I.set key text n s; ok (Reply.done, s')
  perform (Method.get key) s = do (result, s') ← I.get key s; ok (Reply.got result, s')
  perform (Method.del key) s = do (answer, s') ← I.del key s; ok (Reply.deleted answer, s')
  perform Method.space_used s = do (n, s') ← I.space_used s; ok (Reply.used n, s')
  perform Method.reset s = do s' ← I.reset s; ok (Reply.done, s')

  -- What a program sees of a cache: the replies, up to the first fault.
  unfoldable pub observe : List Method → I.State → List (Outcome Reply)
  observe [] s = []
  observe (m ∷ ms) s = elim (perform m s) as (λ _. List (Outcome Reply)) [
    | fault f ↦ fault f ∷ []
    | ok (r, s') ↦ ok r ∷ observe ms s'
  ]
