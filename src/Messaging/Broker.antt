-- ===== src/Messaging/Broker.antt =====
-- The JetStream broker (pkg/messaging/jetstream_broker.go): its options, what it asks the server to
-- create, and how its methods end.
use mpc_go.Common.{
  ℕ, ◌∷◌, ◌++◌, ◌==◌, ◌||◌, ◌&&◌, [], List, Option, none, some, Text, Bool, not, codes, ℤ, pos,
  ◌+ℤ◌, leb, if◌then◌else◌,
}

-- The policies are the numbers of nats.go; a duration is in seconds.
pub record BrokerConfiguration : Type 0 where
  pub stream_name : Text
  pub subjects : List Text
  pub description : Text
  pub retention : ℕ
  pub storage : ℕ
  pub max_age : ℤ
  pub discard : ℕ
  pub ack_wait : ℤ
  pub max_delivery_attempts : ℤ
  pub consumer_name_prefix : Text
  pub deliver_policy : ℕ
  pub backoff_durations : List ℤ

-- The functions `With...`.
pub data BrokerOption : Type 0 where
  with_stream_description : Text → BrokerOption
  with_retention_policy : ℕ → BrokerOption
  with_storage_type : ℕ → BrokerOption
  with_max_age : ℤ → BrokerOption
  with_discard_policy : ℕ → BrokerOption
  with_ack_wait : ℤ → BrokerOption
  with_max_delivery_attempts : ℤ → BrokerOption
  with_consumer_name_prefix : Text → BrokerOption
  with_deliver_policy : ℕ → BrokerOption
  with_backoff_durations : List ℤ → BrokerOption

unfoldable pub apply_option : BrokerOption → BrokerConfiguration → BrokerConfiguration
apply_option (with_stream_description description) cfg = record cfg { description = description }
apply_option (with_retention_policy policy) cfg = record cfg { retention = policy }
apply_option (with_storage_type storage) cfg = record cfg { storage = storage }
apply_option (with_max_age max_age) cfg = record cfg { max_age = max_age }
apply_option (with_discard_policy policy) cfg = record cfg { discard = policy }
apply_option (with_ack_wait ack_wait) cfg = record cfg { ack_wait = ack_wait }
apply_option (with_max_delivery_attempts max_attempts) cfg = record cfg {
  max_delivery_attempts = max_attempts;
}
apply_option (with_consumer_name_prefix prefix) cfg = record cfg { consumer_name_prefix = prefix }
apply_option (with_deliver_policy policy) cfg = record cfg { deliver_policy = policy }
apply_option (with_backoff_durations durations) cfg = record cfg { backoff_durations = durations }

-- The loop over `opts`.
unfoldable pub apply_options : List BrokerOption → BrokerConfiguration → BrokerConfiguration
apply_options [] cfg = cfg
apply_options (opt ∷ opts) cfg = apply_options opts (apply_option opt cfg)

-- `nats.InterestPolicy` is 1; `nats.FileStorage`, `nats.DiscardOld` and `jetstream.DeliverAllPolicy` are 0.
unfoldable pub default_configuration : Text → List Text → BrokerConfiguration
default_configuration stream_name subjects = record {
  stream_name = stream_name;
  subjects = subjects;
  description = codes "Stream for " ++ stream_name;
  retention = 1;
  storage = 0;
  max_age = pos 180;
  discard = 0;
  ack_wait = pos 30;
  max_delivery_attempts = pos 3;
  consumer_name_prefix = codes "consumer";
  deliver_policy = 0;
  backoff_durations = pos 30 ∷ pos 30 ∷ pos 30 ∷ [];
}

-- `NewJetStreamBroker`, up to the creation of the stream.
unfoldable pub new_jet_stream_broker : Text → List Text → List BrokerOption → BrokerConfiguration
new_jet_stream_broker stream_name subjects opts =
    apply_options opts (default_configuration stream_name subjects)

-- The fields of `jetstream.StreamConfig` that `ensureStreamExists` sets.
pub record StreamConfig : Type 0 where
  pub name : Text
  pub description : Text
  pub subjects : List Text
  pub max_age : ℤ

unfoldable pub ensure_stream_exists : BrokerConfiguration → StreamConfig
ensure_stream_exists cfg = record {
  name = cfg.stream_name;
  description = cfg.description;
  subjects = cfg.subjects;
  max_age = cfg.max_age;
}

-- `strings.ReplaceAll` of one byte.
abbrev pub replace_all : ℕ → Text → Text → Text
replace_all old new [] = []
replace_all old new (c ∷ s) =
    let rest = replace_all old new s in if c == old then new ++ rest else c ∷ rest

-- `unicode.IsLetter` of a byte, as a code point of Latin-1.
unfoldable pub is_letter : ℕ → Bool
is_letter c =
    (leb b'A' c && leb c b'Z')
    || ((leb b'a' c && leb c b'z')
        || ((c == 170)
            || ((c == 181)
                || ((c == 186)
                    || ((leb 192 c && leb c 214)
                        || ((leb 216 c && leb c 246) || (leb 248 c && leb c 255)))))))

unfoldable pub prefix_name : Text → Text
prefix_name [] = []
prefix_name (c ∷ name) = if not (is_letter c) && not (c == b'_') then b'_' ∷ c ∷ name else c ∷ name

unfoldable pub sanitize_consumer_name : Text → Text
sanitize_consumer_name name = prefix_name (
    replace_all b'*' (codes "any") (
      replace_all b'>' (codes "all") (
        replace_all b'-' (codes "_") (
          replace_all b' ' (codes "_")
            (replace_all b':' (codes "_") (replace_all b'.' (codes "_") name))))))

-- The fields of `jetstream.ConsumerConfig` that are set; messages are acknowledged explicitly.
pub record ConsumerConfig : Type 0 where
  pub name : Text
  pub durable : Text
  pub max_deliver : ℤ
  pub back_off : List ℤ
  pub deliver_policy : ℕ
  pub filter_subject : Text
  pub ack_wait : ℤ

unfoldable pub consumer_config : BrokerConfiguration → Text → Text → ConsumerConfig
consumer_config cfg consumer_name subject = record {
  name = sanitize_consumer_name consumer_name;
  durable = sanitize_consumer_name consumer_name;
  max_deliver = cfg.max_delivery_attempts +ℤ pos 1;
  back_off = cfg.backoff_durations;
  deliver_policy = cfg.deliver_policy;
  filter_subject = subject;
  ack_wait = cfg.ack_wait;
}

pub data BrokerError : Type 0 where
  connection_closed consumer_creation : BrokerError
  not_consuming not_fetched not_published : BrokerError

-- How a method ends: with an error, or with what it asked for.
pub data Asked {ℓ} (A : Type ℓ) : Type ℓ where
  asked : A → Asked A
  refused : BrokerError → Asked A

-- Whether the connection is closed, and whether the server creates the consumer and consuming begins.
unfoldable pub create_subscription :
    Bool → Bool → Bool → BrokerConfiguration → Text → Text → Asked ConsumerConfig
create_subscription is_closed is_created is_consuming cfg consumer_name subject =
    if is_closed
    then refused connection_closed
    else if not is_created
    then refused consumer_creation
    else if not is_consuming
    then refused not_consuming
    else asked (consumer_config cfg consumer_name subject)

-- The messages of the batch that the handler is called with; `none` is a failed `Fetch`.
unfoldable pub fetch_messages {ℓ} :
    {M : Type ℓ}
    → Bool
    → Bool
    → Option (List M)
    → BrokerConfiguration
    → Text
    → Text
    → Asked (ConsumerConfig × List M)
fetch_messages is_closed is_created fetched cfg consumer_name subject =
    if is_closed
    then refused connection_closed
    else if not is_created
    then refused consumer_creation
    else elim fetched [
      | none ↦ refused not_fetched
      | some msgs ↦ asked (consumer_config cfg consumer_name subject, msgs)
    ]

unfoldable pub publish_message : Bool → Bool → Text → Text → Asked (Text × Text)
publish_message is_closed is_published subject dat =
    if is_closed
    then refused connection_closed
    else if is_published
    then asked (subject, dat)
    else refused not_published
