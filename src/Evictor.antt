-- ===== src/Evictor.antt =====
-- The abstract class `Evictor` of evictor.hh, as an interface: what the cache calls, and what it
-- may rely on. A state stands for the queue of keys that the policy would evict, in that order.
pub mod Queue
use hw6_csci.Base.{◌+◌, ◌≤◌, ◌≡◌, ◌||◌, List, [], ◌∷◌, Bytes, bytes_eq, Outcome, ok, length}
use Queue.{member}

pub record Evictor : Type 1 where
  pub State : Type 0
  pub touch_key : Bytes → State → Outcome State
  pub evict : State → Outcome (Bytes × State)
  pub Holds : State → List Bytes → Type 0
  -- What a touch makes of the queue.
  pub requeue : Bytes → List Bytes → List Bytes
  pub touch_law :
      (k : Bytes) (s : State) (q : List Bytes)
      → Holds s q
      → (t : State) × (touch_key k s ≡ ok t) × Holds t (requeue k q)
  pub evict_law :
      (k : Bytes) (s : State) (q : List Bytes)
      → Holds s (k ∷ q)
      → (t : State) × (evict s ≡ ok (k, t)) × Holds t q
  pub member-requeue :
      (j k : Bytes) (q : List Bytes) → member j (requeue k q) ≡ (bytes_eq k j || member j q)
  pub length-requeue : (k : Bytes) (q : List Bytes) → length (requeue k q) ≤ length q + 1
