-- ===== src/Server/Race.antt =====
-- The `GET` branch of `handle_request` on several threads: the mutex is held for `serverCache->get`
-- alone, and the text behind the pointer is read after it is released.
use hw6_csci.Base.{ℕ, ◌≡◌, ap, ◌∙◌, Option, some, List, [], ◌∷◌, ◌++◌, Bytes, ok}
use hw6_csci.Base.Dict.{find}
use hw6_csci.Evictor.{Evictor}
use hw6_csci.Cache.{Cache, get}
use hw6_csci.Cache.Valid.{IsValid}
use hw6_csci.Cache.Reads.{get_hit}
use hw6_csci.Server.{get_body}
use hw6_csci.Server.Handlers.{get_message}

-- How far a thread is with its request for a key.
pub data Phase : Type 0 where
  waiting : Phase
  unlocked : Option ℕ → Phase
  answered : Bytes → Phase

pub record Reader : Type 0 where
  pub key : Bytes
  pub phase : Phase

abbrev pub reader : Bytes → Phase → Reader
reader key phase = record { key = key; phase = phase }

module _ (E : Evictor) where
  -- A thread goes on: through the section under the mutex, or by what it does behind it.
  pub data ReaderStep : Reader → Cache E.State → Reader → Cache E.State → Type 0 where
    gets :
        (key : Bytes) (c c' : Cache E.State) (result : Option ℕ)
        → get E key c ≡ ok (result, c')
        → ReaderStep (reader key Phase.waiting) c (reader key (Phase.unlocked result)) c'
    builds :
        (key : Bytes) (c : Cache E.State) (result : Option ℕ)
        → ReaderStep
            (reader key (Phase.unlocked result))
            c
            (reader key (Phase.answered (get_message key result c.get_val)))
            c

  pub data ReaderSteps : List Reader → Cache E.State → List Reader → Cache E.State → Type 0 where
    done : (rs : List Reader) (c : Cache E.State) → ReaderSteps rs c rs c
    also :
        (before after : List Reader) (r r' : Reader) (rs : List Reader) (c c' c'' : Cache E.State)
        → ReaderStep r c r' c'
        → ReaderSteps (before ++ r' ∷ after) c' rs c''
        → ReaderSteps (before ++ r ∷ after) c rs c''

  body_of :
      (key : Bytes) (n : ℕ) (c : Cache E.State) (v : Bytes)
      → c.get_val ≡ v
      → get_message key (some n) c.get_val ≡ get_body key v n
  unfolding get_message
  body_of key n c v e = ap (λ w. get_body key w n) e

  -- In a valid state with two stored keys, two threads that handle a `GET` each can be scheduled
  -- so that the first answers with its own key and size and with the value of the other key.
  pub overlapping_gets :
      (a b va vb : Bytes) (c : Cache E.State) (q : List Bytes)
      → IsValid E c q
      → find a c.vals ≡ some va
      → find b c.vals ≡ some vb
      → (na nb : ℕ) × (c' : Cache E.State) × (find a c.sizes ≡ some na)
        × ReaderSteps
            (reader a Phase.waiting ∷ reader b Phase.waiting ∷ [])
            c
            (reader a (Phase.answered (get_body a vb na))
              ∷ reader b (Phase.unlocked (some nb))
              ∷ [])
            c'
  overlapping_gets a b va vb c q valid ea eb =
      let (na, c1, run, size, text, vals, sizes, valid1) = get_hit E a c q valid va ea in
      let (nb, c2, run2, size2, text2, _, _, _) =
        get_hit E b c1 _ valid1 vb (ap (find b) vals ∙ eb) in
      let last : ReaderStep (reader a (Phase.unlocked (some na))) c2
          (reader a (Phase.answered (get_body a vb na))) c2 =
        (rw (body_of a na c2 vb text2) at (builds a c2 (some na))) in
      (
        na,
        nb,
        c2,
        size,
        also [] _ _ _ _ c c1 c2 (gets a c c1 (some na) run) (
            also (reader a (Phase.unlocked (some na)) ∷ []) [] _ _ _ c1 c2 c2
              (gets b c1 c2 (some nb) run2) (also [] _ _ _ _ c2 c2 c2 last (done _ c2))),
      )
