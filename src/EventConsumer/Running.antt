-- ===== src/EventConsumer/Running.antt =====
-- A signing session that has begun (pkg/eventconsumer/event.go, with `Sign` of pkg/mpc/ecdsa/signing.go):
-- the goroutine that waits for an error or for the end, and the one that signs. Their interleavings are
-- the steps of a relation.
use mpc_go.Common.{
  subst, sym, some, ℕ, ◌+◌, ◌≤◌, ◌≡◌, ◌∷◌, ◌++◌, [], List, Text, Bool, true, false, codes, All,
  All-append, arith, refl, inl, inr, if◌then◌else◌, length, ◌==◌, Bool-cases,
}
use mpc_go.Messages.{SigningMessage}
use mpc_go.Identity.Store.{FileStore}
use mpc_go.Session.{Manager}
use mpc_go.Node.{Node, Session}
use mpc_go.EventConsumer.Signing.{handle_signing_event-started}
use mpc_go.EventConsumer.{
  Surroundings, handle_signing_event, NatsMsg, SigningFailure, Effect, enqueued, enqueued_success,
  replied, exited, handle_signing_session_error, send_reply_to_remove_msg,
  compose_signing_result_idempotent_key, signing_result_complete_topic,
}

-- Whether the first goroutine still waits, and whether `done` was called.
pub record Run : Type 0 where
  pub watching : Bool
  pub done : Bool

abbrev pub begun : Run
begun = record { watching = true; done = false }

-- One step and its effects. An error is taken while the first goroutine waits, even if the end has
-- come, since Go picks among the cases that are ready; after that nobody takes another error. The
-- signature is published, with the key that the session was created with, before the handler is told of
-- the success.
pub data RunStep (key : Text) (m : NatsMsg) (msg : SigningMessage)
    : Run → List (Effect SigningFailure Text) → Run → Type 0 where
  fails :
      {r : Run} (error : Text)
      → r.watching ≡ true
      → RunStep key m msg r
          (handle_signing_session_error msg.wallet_id msg.tx_id error (codes "Failed to sign tx") m)
          (record r { watching = false })
  ends :
      {r : Run}
      → r.watching ≡ true
      → r.done ≡ true
      → RunStep key m msg r [] (record r { watching = false })
  signs :
      {r : Run} (signature : Text)
      → r.done ≡ false
      → RunStep key m msg r
          (enqueued_success signing_result_complete_topic signature key
            ∷ send_reply_to_remove_msg m)
          (record r { done = true })

pub data Runs (key : Text) (m : NatsMsg) (msg : SigningMessage)
    : Run → List (Effect SigningFailure Text) → Run → Type 0 where
  rests : {r : Run} → Runs key m msg r [] r
  goes :
      {r q p : Run} {es fs : List (Effect SigningFailure Text)}
      → RunStep key m msg r es q
      → Runs key m msg q fs p
      → Runs key m msg r (es ++ fs) p

abbrev pub failures : {R S : Type 0} → List (Effect R S) → ℕ
failures [] = 0
failures (enqueued _ _ _ ∷ es) = 1 + failures es
failures (enqueued_success _ _ _ ∷ es) = failures es
failures (replied _ _ ∷ es) = failures es
failures (exited ∷ es) = failures es

pub failures-append :
    {R S : Type 0} (es fs : List (Effect R S)) → failures (es ++ fs) ≡ failures es + failures fs
failures-append [] fs = omega arith
failures-append (enqueued _ _ _ ∷ es) fs = omega (arith, failures-append es fs)
failures-append (enqueued_success _ _ _ ∷ es) fs = failures-append es fs
failures-append (replied _ _ ∷ es) fs = failures-append es fs
failures-append (exited ∷ es) fs = failures-append es fs

abbrev left : Run → ℕ
left r = if r.watching then 1 else 0

pub failures-reply :
    (R S : Type 0) (m : NatsMsg) → failures {R = R} {S = S} (send_reply_to_remove_msg m) ≡ 0
unfolding send_reply_to_remove_msg
failures-reply R S m = ground arith

RunStep-failures :
    (key : Text) (m : NatsMsg) (msg : SigningMessage) (r q : Run)
    (es : List (Effect SigningFailure Text))
    → RunStep key m msg r es q
    → failures es + left q ≤ left r
unfolding handle_signing_session_error
RunStep-failures key m msg r q es (fails e w) = ground (arith, failures-reply SigningFailure Text m)
RunStep-failures key m msg r q es (ends w d) = ground arith
RunStep-failures key m msg r q es (signs t d) = ground (arith, failures-reply SigningFailure Text m)

Runs-left :
    (key : Text) (m : NatsMsg) (msg : SigningMessage) (r q : Run)
    (es : List (Effect SigningFailure Text))
    → Runs key m msg r es q
    → failures es + left q ≤ left r
Runs-left key m msg r q es rests = omega arith
Runs-left key m msg r p es (goes {q = q} {es = fs} {fs = gs} a b) = omega (
  arith,
  failures-append fs gs,
  RunStep-failures key m msg r q fs a,
  Runs-left key m msg q p gs b,
)

-- However the goroutines of a session interleave, a request is answered with at most one failure.
pub Runs-failures :
    (key : Text) (m : NatsMsg) (msg : SigningMessage) (q : Run)
    (es : List (Effect SigningFailure Text))
    → Runs key m msg begun es q
    → failures es ≤ 1
Runs-failures key m msg q es a = omega (arith, Runs-left key m msg begun q es a)

-- A result has this key; what is no result has none.
abbrev pub HasKey : {R S : Type 0} → Text → Effect R S → Type 0
HasKey key (enqueued _ _ k) = k ≡ key
HasKey key (enqueued_success _ _ k) = k ≡ key
HasKey key (replied _ _) = Unit
HasKey key exited = Unit

reply-HasKey :
    (R S : Type 0) (m : NatsMsg) (key : Text)
    → All (HasKey {R = R} {S = S} key) (send_reply_to_remove_msg m)
unfolding send_reply_to_remove_msg
reply-HasKey R S m key = elim (Bool-cases (length m.reply == 0)) [
  | inl h ↦ rw h tt
  | inr h ↦ rw h (tt, tt)
]

RunStep-HasKey :
    (m : NatsMsg) (msg : SigningMessage) (r q : Run) (es : List (Effect SigningFailure Text))
    → RunStep (compose_signing_result_idempotent_key msg.tx_id m) m msg r es q
    → All (HasKey (compose_signing_result_idempotent_key msg.tx_id m)) es
unfolding handle_signing_session_error
RunStep-HasKey m msg r q es (fails e w) = (refl, reply-HasKey SigningFailure Text m _)
RunStep-HasKey m msg r q es (ends w d) = tt
RunStep-HasKey m msg r q es (signs t d) = (refl, reply-HasKey SigningFailure Text m _)

Runs-key :
    (m : NatsMsg) (msg : SigningMessage) (r q : Run) (es : List (Effect SigningFailure Text))
    → Runs (compose_signing_result_idempotent_key msg.tx_id m) m msg r es q
    → All (HasKey (compose_signing_result_idempotent_key msg.tx_id m)) es
Runs-key m msg r q es rests = tt
Runs-key m msg r p es (goes {q = q} {es = fs} {fs = gs} a b) =
    All-append (HasKey (compose_signing_result_idempotent_key msg.tx_id m)) fs gs
      (RunStep-HasKey m msg r q fs a) (Runs-key m msg q p gs b)

-- The handler begins a session and creates it with some key. However the session's goroutines then
-- interleave, every result of the request has that key, the signature that the session publishes and the
-- failure that the handler publishes alike, so the two are taken as results of one request.
pub Runs-HasKey :
    (x : Surroundings) (n : Node) (s : FileStore) (now : ℕ) (m : NatsMsg) (seen mgr : Manager)
    (session : Session) (key : Text) (msg : SigningMessage) (q : Run)
    (es : List (Effect SigningFailure Text))
    → (handle_signing_event x n s now m seen mgr).started ≡ some (session, key)
    → x.decode_signing m.dat ≡ some msg
    → Runs key m msg begun es q
    → All (HasKey key) es
Runs-HasKey x n s now m seen mgr session key msg q es h d w =
    let (msg', (d', _, _, _, _, k, _)) =
      handle_signing_event-started x n s now m seen mgr session key h in
    let e : key ≡ compose_signing_result_idempotent_key msg.tx_id m = ground arith in
    subst (λ t. All (HasKey t) es) (sym e)
      (Runs-key m msg begun q es (subst (λ t. Runs t m msg begun es q) e w))
