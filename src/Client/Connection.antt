-- ===== src/Client/Connection.antt =====
-- The connection of `Cache::Impl` of cache_client.cc: the constructor, the destructor, and the
-- `http::write` and `http::read` of each method. Asio is not part of the repository: `Transport` is
-- what its calls do, to a state that is the rest of the world. Where the calls take no error code,
-- an error is thrown as a `system_error`.
use hw6_csci.Base.{
  ℕ, Bool, Option, ◌⊎◌, inl, inr, List, [], if◌then◌else◌, Bytes, Fault, Outcome, ok, fault,
}
use hw6_csci.Http.{Request, Response, Http}
use hw6_csci.Session.{ErrorCode, is_error}
use hw6_csci.Text.Split.{Splitter}
use hw6_csci.Client.{
  Client, set_request, get_request, del_request, space_used_request, reset_request, get_result,
  del_result, space_used_result,
}

pub record Transport : Type 1 where
  pub State : Type 0
  -- The endpoints of a host and a port.
  pub resolve : Bytes → Bytes → State → (ErrorCode ⊎ List Bytes) × State
  pub connect : List Bytes → State → ErrorCode × State
  pub write : Request → State → ErrorCode × State
  pub read : State → (ErrorCode ⊎ Response) × State
  pub shutdown : State → ErrorCode × State

-- How a call ends.
pub data Attempt (A : Type 0) : Type 0 where
  returns : A → Attempt A
  throws : ErrorCode → Attempt A
  faults : Fault → Attempt A

abbrev pub attempt : {A : Type 0} → Outcome A → Attempt A
attempt (ok a) = Attempt.returns a
attempt (fault f) = Attempt.faults f

-- What is done with the response, if there is one.
abbrev pub then_read : {A : Type 0} → Attempt Response → (Response → Outcome A) → Attempt A
then_read (Attempt.returns res) result = attempt (result res)
then_read (Attempt.throws ec) result = Attempt.throws ec
then_read (Attempt.faults f) result = Attempt.faults f

module _ (T : Transport) where
  -- The constructor.
  unfoldable pub make_client : Bytes → Bytes → T.State → Attempt Client × T.State
  make_client host port s =
      let (results, s1) = T.resolve host port s in
      elim results as (λ _. Attempt Client × T.State) [
        | inl ec ↦ (Attempt.throws ec, s1)
        | inr endpoints ↦
            let (ec, s2) = T.connect endpoints s1 in
            let client : Client = record { host = host; get_val = [] } in
            if is_error ec then (Attempt.throws ec, s2) else (Attempt.returns client, s2)
      ]

  -- The destructor does not look at the error code.
  unfoldable pub destroy_client : T.State → T.State
  destroy_client s = (T.shutdown s).1

  -- `http::write (stream_, req)` and `http::read (stream_, buffer, res)`
  unfoldable pub exchange : Request → T.State → Attempt Response × T.State
  exchange req s =
      let (ec, s1) = T.write req s in
      let (res, s2) = T.read s1 in
      if is_error ec then (Attempt.throws ec, s1) else (
        elim res as (λ _. Attempt Response) [
          | inl ec ↦ Attempt.throws ec
          | inr res ↦ Attempt.returns res
        ],
        s2,
      )

  module _ (H : Http) (B : Splitter) (client : Client) where
    unfoldable pub client_set : Bytes → Bytes → ℕ → T.State → Attempt Unit × T.State
    client_set key val size s =
        let (res, s') = exchange (set_request H B client key val size) s in
        (then_read res (λ _. ok tt), s')

    unfoldable pub client_get : Bytes → T.State → Attempt (Option ℕ × Client) × T.State
    client_get key s =
        let (res, s') = exchange (get_request H B client key) s in
        (then_read res (get_result H B client), s')

    unfoldable pub client_del : Bytes → T.State → Attempt Bool × T.State
    client_del key s =
        let (res, s') = exchange (del_request H B client key) s in
        (then_read res (λ r. ok (del_result H B client r)), s')

    unfoldable pub client_space_used : Bytes → T.State → Attempt ℕ × T.State
    client_space_used tail s =
        let (res, s') = exchange (space_used_request H B client) s in
        (then_read res (space_used_result H B client tail), s')

    unfoldable pub client_reset : T.State → Attempt Unit × T.State
    client_reset s =
        let (res, s') = exchange (reset_request H B client) s in (then_read res (λ _. ok tt), s')
