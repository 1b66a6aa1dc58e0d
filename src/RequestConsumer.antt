-- ===== src/RequestConsumer.antt =====
-- What the consumers of signing, keygen and resharing requests share (pkg/eventconsumer/signing.go,
-- keygen.go and resharing.go): a request is taken off JetStream, handed to the event consumer on NATS,
-- and settled by what comes of it. A handler is the list of its effects.
pub mod Settled
use mpc_go.Common.{◌++◌, ◌∷◌, ◌==◌, [], List, Option, Text, Bool, not, if◌then◌else◌, length}

-- A `jetstream.Msg`; the header is "SessionID".
pub record JetstreamMsg : Type 0 where
  pub dat : Text
  pub session_id : Text

pub data Effect (R : Type 0) : Type 0 where
  enqueued : Text → R → Text → Effect R  -- topic, result, idempotent key
  published : Text → Text → Text → Text → Effect R  -- topic, inbox, bytes, "SessionID"
  ack nak : Effect R

-- What one round of the polling loop finds: `NextMsg` times out, fails, gives no message, or gives one.
pub data Poll : Type 0 where
  timed_out broken nothing reply : Poll

-- The surroundings of one delivery: what decoding gives (the message as far as it was filled in, and
-- the error's text), the inbox, the new session ID, whether subscribing and publishing succeed, and
-- the rounds until the deadline, which is the end of the list.
pub record Delivery (M : Type 0) : Type 0 where
  pub decoded : M × Option Text
  pub inbox : Text
  pub fresh_id : Text
  pub is_subscribed : Bool
  pub is_published : Bool
  pub polls : List Poll

unfoldable pub build_idempotent_key : Text → Text → Text → Text
build_idempotent_key base_id session_id prefix =
    prefix ++ (if not (length session_id == 0) then base_id ++ b':' ∷ session_id else base_id)

unfoldable pub poll_for_reply : {R : Type 0} → List Poll → Effect R
poll_for_reply [] = nak
poll_for_reply (timed_out ∷ polls) = poll_for_reply polls
poll_for_reply (nothing ∷ polls) = poll_for_reply polls
poll_for_reply (broken ∷ polls) = nak
poll_for_reply (reply ∷ polls) = ack

-- From the reply inbox on; the first argument is the event's topic.
unfoldable pub forward : {M R : Type 0} → Text → Delivery M → JetstreamMsg → List (Effect R)
forward event d m =
    if not d.is_subscribed
    then nak ∷ []
    else published event d.inbox m.dat d.fresh_id
      ∷ (if d.is_published then poll_for_reply d.polls else nak)
      ∷ []
