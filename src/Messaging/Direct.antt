-- ===== src/Messaging/Direct.antt =====
-- Direct messages (pkg/messaging/p2p.go): the table of handlers by topic, and what NATS delivers to. A
-- handler is a value of any type.
use mpc_go.Common.{
  ℕ, ◌∷◌, ◌++◌, [], List, Option, none, some, Text, Bool, true, false, not, lookup, insert,
  if◌then◌else◌, ◌==◌,
}

-- `subscriptions` are those that NATS holds: each has an identity, a topic and a handler.
pub record NatsDirectMessaging {ℓ} (H : Type ℓ) : Type ℓ where
  pub handlers : List (Text × List H)
  pub subscriptions : List (ℕ × Text × H)

unfoldable pub new_nats_direct_messaging {ℓ} : {H : Type ℓ} → NatsDirectMessaging H
new_nats_direct_messaging = record { handlers = []; subscriptions = [] }

-- The entry of a topic; a missing key is the nil slice.
abbrev pub handlers_of {ℓ} : {H : Type ℓ} → Option (List H) → List H
handlers_of none = []
handlers_of (some hs) = hs

-- The handlers that are called, in their order; `none` is the error that there are none.
unfoldable pub send_to_self {ℓ} : {H : Type ℓ} → Text → NatsDirectMessaging H → Option (List H)
send_to_self topic d = elim (handlers_of (lookup topic d.handlers)) [
  | [] ↦ none
  | h ∷ hs ↦ some (h ∷ hs)
]

-- Whether NATS takes the subscription and whether the flush succeeds; after a failed flush the
-- subscription is given back. The result is whether there is a subscription.
unfoldable pub listen {ℓ} :
    {H : Type ℓ} → Bool → Bool → ℕ → Text → H → NatsDirectMessaging H → NatsDirectMessaging H × Bool
listen is_subscribed is_flushed id topic handler d =
    if not is_subscribed then (d, false) else if not is_flushed then (d, false) else (
      record {
        handlers = insert topic (handlers_of (lookup topic d.handlers) ++ handler ∷ []) d.handlers;
        subscriptions = d.subscriptions ++ (id, topic, handler) ∷ [];
      },
      true,
    )

abbrev drop_id {ℓ} : {H : Type ℓ} → ℕ → List (ℕ × Text × H) → List (ℕ × Text × H)
drop_id id [] = []
drop_id id ((i, topic, h) ∷ rest) =
    let others = drop_id id rest in if i == id then others else (i, topic, h) ∷ others

-- `Unsubscribe` of the subscription that `Listen` returns.
unfoldable pub unsubscribe {ℓ} : {H : Type ℓ} → ℕ → NatsDirectMessaging H → NatsDirectMessaging H
unsubscribe id d = record d { subscriptions = drop_id id d.subscriptions }

-- A call of one of the two methods.
pub data Call {ℓ} (H : Type ℓ) : Type ℓ where
  listens : Bool → Bool → ℕ → Text → H → Call H
  unsubscribes : ℕ → Call H

unfoldable pub run_call {ℓ} : {H : Type ℓ} → Call H → NatsDirectMessaging H → NatsDirectMessaging H
run_call (listens s f id topic h) d = (listen s f id topic h d).0
run_call (unsubscribes id) d = unsubscribe id d

unfoldable pub run_calls {ℓ} :
    {H : Type ℓ} → List (Call H) → NatsDirectMessaging H → NatsDirectMessaging H
run_calls [] d = d
run_calls (c ∷ cs) d = run_calls cs (run_call c d)
