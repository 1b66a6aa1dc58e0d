-- ===== src/Messaging/Queue.antt =====
-- The result queues (pkg/messaging/message_queue.go): what the managers configure, what is published, and
-- what becomes of a message that a handler has seen.
use mpc_go.Common.{ℕ, ◌∷◌, ◌++◌, [], List, Option, none, some, Text, Bool, codes, if◌then◌else◌}

-- The part of `jetstream.StreamConfig` that is set; the storage is on files and the retention that of a
-- work queue.
pub record QueueStream : Type 0 where
  pub name : Text
  pub description : Text
  pub subjects : List Text
  pub max_bytes : ℕ

unfoldable pub queue_stream : Text → List Text → QueueStream
queue_stream queue_name subjects = record {
  name = queue_name;
  description = codes "Stream for " ++ queue_name;
  subjects = subjects;
  max_bytes = 10485760;
}

-- The part of `jetstream.ConsumerConfig` that is set; every message is acknowledged explicitly.
pub record QueueConsumer : Type 0 where
  pub name : Text
  pub durable : Text
  pub max_ack_pending : ℕ
  pub ack_wait_seconds : ℕ
  pub filter_subjects : List Text
  pub max_deliver : ℕ

unfoldable pub new_message_queue : Text → Text → QueueConsumer
new_message_queue queue_name consumer_name = record {
  name = consumer_name;
  durable = consumer_name;
  max_ack_pending = 1000;
  ack_wait_seconds = 30;
  filter_subjects = (queue_name ++ codes "." ++ consumer_name ++ codes ".*") ∷ [];
  max_deliver = 3;
}

-- What `Enqueue` publishes: the subject, the "Nats-Msg-Id" of the header, and the data.
pub record Published : Type 0 where
  pub subject : Text
  pub nats_msg_id : Option Text
  pub dat : Text

unfoldable pub enqueue : Text → Text → Option Text → Published
enqueue topic message idempotent_key = record {
  subject = topic;
  nats_msg_id = idempotent_key;
  dat = message;
}

-- What `Dequeue` tells the server of a message.
pub data Disposition : Type 0 where
  ack nak term : Disposition

-- A handler's result: `none` is success, and of an error it matters whether it is `ErrPermanent`.
unfoldable pub dispose {ℓ} : {E : Type ℓ} → (E → Bool) → Option E → Disposition
dispose is_permanent none = ack
dispose is_permanent (some e) = if is_permanent e then term else nak
