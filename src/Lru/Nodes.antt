-- ===== src/Lru/Nodes.antt =====
-- The nodes of LList.hh at their addresses. A null pointer, or one that leads to no node, faults.
use hw6_csci.Base.{
  ℕ, ◌≡◌, ◌≢◌, Option, none, some, arith, ◌==◌, if◌then◌else◌, Bytes, Fault, Outcome, ok, fault,
  ◌>>=◌,
}

abbrev pub Ptr : Type 0
Ptr = ℕ

abbrev pub null : Ptr
null = 0

pub record Node : Type 0 where
  pub key : Bytes
  pub prev : Ptr
  pub next : Ptr

abbrev pub node : Bytes → Ptr → Ptr → Node
node k a z = record { key = k; prev = a; next = z }

abbrev pub Store : Type 0
Store = Ptr → Option Node

unfoldable pub write : Store → Ptr → Option Node → Store
write h p c q = if q == p then c else h q

-- `*p`
unfoldable pub load : Ptr → Store → Outcome Node
load p h =
    if p == null
    then fault Fault.null_pointer
    else elim (h p) [ none ↦ fault Fault.null_pointer | some n ↦ ok n ]

-- `p->prev_ = q`
unfoldable pub set_prev : Ptr → Ptr → Store → Outcome Store
set_prev p q h = do n ← load p h; ok (write h p (some (record n { prev = q })))

-- `p->next_ = q`
unfoldable pub set_next : Ptr → Ptr → Store → Outcome Store
set_next p q h = do n ← load p h; ok (write h p (some (record n { next = q })))

module _ (h : Store) (p : Ptr) (n : Node) (nonnull : p ≢ null) (holds : h p ≡ some n) where
  pub load-ok : load p h ≡ ok n
  unfolding load
  load-ok = ground arith

  pub set_prev-ok : (q : Ptr) → set_prev p q h ≡ ok (write h p (some (record n { prev = q })))
  unfolding set_prev
  set_prev-ok q = rw load-ok

  pub set_next-ok : (q : Ptr) → set_next p q h ≡ ok (write h p (some (record n { next = q })))
  unfolding set_next
  set_next-ok q = rw load-ok
