-- ===== src/RequestConsumer/Settled.antt =====
-- When a delivery is settled for good and when it is refused.
use mpc_go.Common.{
  ℕ, ◌+◌, ◌≡◌, ◌∷◌, ◌&&◌, [], refl, List, Option, none, some, Text, Bool, true, false,
  if◌then◌else◌, arith,
}
use mpc_go.RequestConsumer.{
  JetstreamMsg, Delivery, Effect, enqueued, published, ack, nak, Poll, timed_out, broken, nothing,
  reply, poll_for_reply, forward,
}

abbrev pub acks : {R : Type 0} → List (Effect R) → ℕ
acks [] = 0
acks (ack ∷ es) = 1 + acks es
acks (nak ∷ es) = acks es
acks (enqueued _ _ _ ∷ es) = acks es
acks (published _ _ _ _ ∷ es) = acks es

abbrev pub naks : {R : Type 0} → List (Effect R) → ℕ
naks [] = 0
naks (nak ∷ es) = 1 + naks es
naks (ack ∷ es) = naks es
naks (enqueued _ _ _ ∷ es) = naks es
naks (published _ _ _ _ ∷ es) = naks es

-- Whether a reply comes before an error and before the deadline.
abbrev pub is_answered : List Poll → Bool
is_answered [] = false
is_answered (timed_out ∷ polls) = is_answered polls
is_answered (nothing ∷ polls) = is_answered polls
is_answered (broken ∷ polls) = false
is_answered (reply ∷ polls) = true

poll_for_reply-is_answered :
    (R : Type 0) (polls : List Poll)
    → poll_for_reply {R = R} polls ≡ (if is_answered polls then ack else nak)
unfolding poll_for_reply
poll_for_reply-is_answered R [] = refl
poll_for_reply-is_answered R (timed_out ∷ polls) = poll_for_reply-is_answered R polls
poll_for_reply-is_answered R (nothing ∷ polls) = poll_for_reply-is_answered R polls
poll_for_reply-is_answered R (broken ∷ polls) = refl
poll_for_reply-is_answered R (reply ∷ polls) = refl

abbrev pub is_decoded : Option Text → Bool
is_decoded none = true
is_decoded (some _) = false

-- Whether a delivery that is handed on is settled for good.
abbrev pub is_served : {M : Type 0} → Delivery M → Bool
is_served d = d.is_subscribed && (d.is_published && is_answered d.polls)

-- One acknowledgement and no refusal, or the reverse.
abbrev pub Settles : {R : Type 0} → List (Effect R) → Bool → Type 0
Settles es settled = (acks es ≡ (if settled then 1 else 0)) × (naks es ≡ (if settled then 0 else 1))

pub forward-Settles :
    (M R : Type 0) (event : Text) (d : Delivery M) (m : JetstreamMsg)
    → Settles (forward {R = R} event d m) (is_served d)
unfolding forward
forward-Settles M R event d m = ground (arith, poll_for_reply-is_answered R d.polls)

-- The results that are enqueued, and the requests that are handed on.
abbrev pub answers : {R : Type 0} → List (Effect R) → ℕ
answers [] = 0
answers (enqueued _ _ _ ∷ es) = 1 + answers es
answers (published _ _ _ _ ∷ es) = answers es
answers (ack ∷ es) = answers es
answers (nak ∷ es) = answers es

abbrev pub handed_on : {R : Type 0} → List (Effect R) → ℕ
handed_on [] = 0
handed_on (published _ _ _ _ ∷ es) = 1 + handed_on es
handed_on (enqueued _ _ _ ∷ es) = handed_on es
handed_on (ack ∷ es) = handed_on es
handed_on (nak ∷ es) = handed_on es

pub forward-answers :
    (M R : Type 0) (event : Text) (d : Delivery M) (m : JetstreamMsg)
    → (answers (forward {R = R} event d m) ≡ 0)
      × (handed_on (forward {R = R} event d m) ≡ (if d.is_subscribed then 1 else 0))
unfolding forward
forward-answers M R event d m = ground (arith, poll_for_reply-is_answered R d.polls)
