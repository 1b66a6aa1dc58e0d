-- ===== src/TimeoutConsumer/Laws.antt =====
-- The failures that the timeout consumer publishes, beside the results of the sessions.
use mpc_go.Common.{
  ◌⊎◌, inl, [], true, false, refl, has_prefix, ℕ, ◌+◌, ◌<◌, ◌≤◌, ◌≡◌, ◌≢◌, ◌∷◌, ◌++◌, List, Option,
  none, some, Text, arith, ap, sym, ◌∙◌, inl, inr, Option-cases, length, length-append, lookup,
}
use mpc_go.ErrorCode.{ErrorCode, max_delivery_attempts}
use mpc_go.EventConsumer.{NatsMsg, compose_idempotent_key, signing_result_prefix}
use mpc_go.EventConsumer.Keygen.{generate_wallet_result_prefix}
use mpc_go.EventConsumer.Resharing.{resharing_wallet_result_prefix}
use mpc_go.TimeoutConsumer.{
  StreamHandler, signing, resharing, keygen, Advisory, Response, signing_response,
  resharing_response, keygen_response, Enqueued, ResponseJson, handle_signing_timeout,
  handle_resharing_timeout, handle_keygen_timeout, handle_timeout, handle_deadline_exceeded,
}

-- The code of a result, and whom the result is for: the transaction or the wallet.
abbrev pub code_of : Response → ErrorCode
code_of (signing_response r) = r.error_code
code_of (resharing_response r) = r.error_code
code_of (keygen_response r) = r.error_code

abbrev pub subject_of : Response → Text
subject_of (signing_response r) = r.tx_id
subject_of (resharing_response r) = r.wallet_id
subject_of (keygen_response r) = r.wallet_id

-- The prefix that the event consumer's keys for a result of this kind have.
abbrev pub prefix_of : Response → Text
prefix_of (signing_response _) = signing_result_prefix
prefix_of (resharing_response _) = resharing_wallet_result_prefix
prefix_of (keygen_response _) = generate_wallet_result_prefix

-- A key of the event consumer is longer than what it is for.
composed_longer :
    (base prefix : Text) (m : NatsMsg)
    → length base + length prefix ≤ length (compose_idempotent_key base m prefix)
unfolding compose_idempotent_key
composed_longer base prefix m = ground (
  arith,
  length-append prefix base,
  length-append prefix (base ++ b':' ∷ m.session_id),
  length-append base (b':' ∷ m.session_id),
)

prefix_long : (r : Response) → 0 < length (prefix_of r)
prefix_long (signing_response _) = omega arith
prefix_long (resharing_response _) = omega arith
prefix_long (keygen_response _) = omega arith

handled_timeout :
    (j : ResponseJson) (h : StreamHandler) (dat : Text) (e : Enqueued)
    → handle_timeout j h dat ≡ some e
    → (code_of e.response ≡ max_delivery_attempts) × (e.idempotent_key ≡ subject_of e.response)
unfolding handle_timeout handle_signing_timeout handle_resharing_timeout handle_keygen_timeout
handled_timeout j signing dat e h = ground arith
handled_timeout j resharing dat e h = ground arith
handled_timeout j keygen dat e h = ground arith

handled_deadline :
    (j : ResponseJson) (handlers : List (Text × StreamHandler)) (a : Option Advisory)
    (get_msg : Text → ℕ → Option Text) (e : Enqueued)
    → handle_deadline_exceeded j handlers a get_msg ≡ some e
    → (code_of e.response ≡ max_delivery_attempts) × (e.idempotent_key ≡ subject_of e.response)
unfolding handle_deadline_exceeded
handled_deadline j handlers none get_msg e h = cc
handled_deadline j handlers (some a) get_msg e h = elim (Option-cases (lookup a.stream handlers)) [
  | inl l ↦ absurd (ground arith)
  | inr (k, l) ↦ elim (Option-cases (get_msg a.stream a.stream_seq)) [
    | inl g ↦ absurd (ground arith)
    | inr (dat, g) ↦ handled_timeout j k dat e (ground arith)
  ]
]

-- What the event consumer makes keys of for results of a kind that beside this response may be given: the
-- response's own transaction or wallet, or, for the success of a resharing, a session ID; a wallet ID
-- that itself begins as such a key is left out.
abbrev pub IsBase : Response → Text → Type 0
IsBase response base =
    (base ≡ subject_of response) ⊎ (has_prefix (subject_of response) (prefix_of response) ≡ false)

has_prefix-append : (s t : Text) → has_prefix (s ++ t) s ≡ true
unfolding has_prefix
has_prefix-append [] [] = refl
has_prefix-append [] (_ ∷ _) = refl
has_prefix-append (c ∷ s) t = ground (arith, has_prefix-append s t)

composed_prefix :
    (base prefix : Text) (m : NatsMsg)
    → has_prefix (compose_idempotent_key base m prefix) prefix ≡ true
unfolding compose_idempotent_key
composed_prefix base prefix m = has_prefix-append prefix _

-- A failure that is published for a request that was delivered too often has the code for that, and its
-- key is never a key that the event consumer gives to a result of that kind for the same wallet or
-- transaction, whatever the session ID of that request is; nor is it the key of any result of that kind,
-- such as a resharing's success, which is keyed by its session ID, unless the wallet ID begins with the
-- prefix of these keys. The two are not taken as one result.
pub handle_deadline_exceeded-key :
    (j : ResponseJson) (handlers : List (Text × StreamHandler)) (a : Option Advisory)
    (get_msg : Text → ℕ → Option Text) (e : Enqueued) (m : NatsMsg) (base : Text)
    → handle_deadline_exceeded j handlers a get_msg ≡ some e
    → IsBase e.response base
    → (code_of e.response ≡ max_delivery_attempts)
      × (e.idempotent_key ≢ compose_idempotent_key base m (prefix_of e.response))
handle_deadline_exceeded-key j handlers a get_msg e m base h (inl b) =
    let (code, key) = handled_deadline j handlers a get_msg e h in
    (
      code,
      λ same. omega (
        arith,
        composed_longer base (prefix_of e.response) m,
        prefix_long e.response,
        ap (λ (t : Text). length t) (b ∙ sym key ∙ same),
      ),
    )
handle_deadline_exceeded-key j handlers a get_msg e m base h (inr b) =
    let (code, key) = handled_deadline j handlers a get_msg e h in
    (
      code,
      λ same.
          let p = composed_prefix base (prefix_of e.response) m in
          let q = ap (λ (t : Text). has_prefix t (prefix_of e.response)) (sym key ∙ same) in
          absurd (ground arith),
    )
