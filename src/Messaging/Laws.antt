-- ===== src/Messaging/Laws.antt =====
-- What a node hears of what it sends to itself, what a broker's options change, and the names of
-- consumers.
use mpc_go.Common.{
  ◌≡◌, ◌∷◌, ◌++◌, ◌∙◌, [], List, Option, none, some, Text, true, false, arith, refl, ap, sym, same,
  same_iff, lookup, lookup-insert, if◌then◌else◌, append_nil, append_assoc,
}
use mpc_go.Messaging.Direct.{
  NatsDirectMessaging, new_nats_direct_messaging, handlers_of, send_to_self, listen, unsubscribe,
  Call, listens, unsubscribes, run_call, run_calls,
}
use mpc_go.Messaging.Broker.{
  BrokerConfiguration, BrokerOption, with_retention_policy, with_storage_type, with_discard_policy,
  with_consumer_name_prefix, with_stream_description, with_max_age, with_ack_wait,
  with_max_delivery_attempts, with_deliver_policy, with_backoff_durations, apply_option,
  apply_options, default_configuration, new_jet_stream_broker, ensure_stream_exists,
  consumer_config,
}

-- The handlers of the calls of `Listen` on a topic that succeeded, in their order.
abbrev pub listened {ℓ} : {H : Type ℓ} → Text → List (Call H) → List H
listened topic [] = []
listened topic (listens s f id t h ∷ cs) =
    let rest = listened topic cs in
    if s then if f then if same t topic then h ∷ rest else rest else rest else rest
listened topic (unsubscribes id ∷ cs) = listened topic cs

module _ {ℓ} {H : Type ℓ} where
  abbrev kept : Text → NatsDirectMessaging H → List H
  kept topic d = handlers_of (lookup topic d.handlers)

  kept-run_call :
      (topic : Text) (c : Call H) (d : NatsDirectMessaging H)
      → kept topic (run_call c d) ≡ kept topic d ++ listened topic (c ∷ [])
  unfolding run_call listen unsubscribe
  kept-run_call topic (listens true true id t h) d = ground (
    arith,
    lookup-insert t topic (kept t d ++ h ∷ []) d.handlers,
    same_iff t topic,
    append_nil (kept topic d),
  )
  kept-run_call topic (listens true false id t h) d = sym (append_nil (kept topic d))
  kept-run_call topic (listens false f id t h) d = sym (append_nil (kept topic d))
  kept-run_call topic (unsubscribes id) d = sym (append_nil (kept topic d))

  listened-cons :
      (topic : Text) (c : Call H) (cs : List (Call H))
      → listened topic (c ∷ cs) ≡ listened topic (c ∷ []) ++ listened topic cs
  listened-cons topic (listens s f id t h) cs = ground arith
  listened-cons topic (unsubscribes id) cs = refl

  kept-run_calls :
      (topic : Text) (cs : List (Call H)) (d : NatsDirectMessaging H)
      → kept topic (run_calls cs d) ≡ kept topic d ++ listened topic cs
  unfolding run_calls
  kept-run_calls topic [] d = sym (append_nil (kept topic d))
  kept-run_calls topic (c ∷ cs) d =
      kept-run_calls topic cs (run_call c d)
      ∙ ap (λ hs. hs ++ listened topic cs) (kept-run_call topic c d)
      ∙ append_assoc (kept topic d) (listened topic (c ∷ [])) (listened topic cs)
      ∙ ap (λ hs. kept topic d ++ hs) (sym (listened-cons topic c cs))

  -- The handlers that are called, or the error if there are none.
  abbrev pub some_handlers : List H → Option (List H)
  some_handlers [] = none
  some_handlers (h ∷ hs) = some (h ∷ hs)

  -- What a node sends to itself on a topic reaches each handler whose `Listen` on the topic succeeded, in
  -- their order and whatever was unsubscribed since; it is an error exactly if there was none.
  pub send_to_self-run_calls :
      (topic : Text) (cs : List (Call H))
      → send_to_self topic (run_calls cs new_nats_direct_messaging)
        ≡ some_handlers (listened topic cs)
  unfolding send_to_self new_nats_direct_messaging lookup
  send_to_self-run_calls topic cs =
      ap some_handlers (kept-run_calls topic cs new_nats_direct_messaging)

-- The options that concern neither the stream nor a consumer that the broker creates.
abbrev pub IsUnused : BrokerOption → Type 0
IsUnused (with_retention_policy _) = Unit
IsUnused (with_storage_type _) = Unit
IsUnused (with_discard_policy _) = Unit
IsUnused (with_consumer_name_prefix _) = Unit
IsUnused _ = ⊥

-- The server is asked for the same stream and for the same consumers.
abbrev pub AsksTheSame : BrokerConfiguration → BrokerConfiguration → Type 0
AsksTheSame a b =
    (ensure_stream_exists a ≡ ensure_stream_exists b)
    × ((consumer_name subject : Text)
        → consumer_config a consumer_name subject ≡ consumer_config b consumer_name subject)

-- A configuration without the fields of those options.
abbrev core : BrokerConfiguration → BrokerConfiguration
core cfg = record cfg { retention = 0; storage = 0; discard = 0; consumer_name_prefix = [] }

core-apply_option :
    (o : BrokerOption) (a b : BrokerConfiguration)
    → core a ≡ core b
    → core (apply_option o a) ≡ core (apply_option o b)
unfolding apply_option
core-apply_option (with_stream_description _) a b h = ground arith
core-apply_option (with_retention_policy _) a b h = h
core-apply_option (with_storage_type _) a b h = h
core-apply_option (with_max_age _) a b h = ground arith
core-apply_option (with_discard_policy _) a b h = h
core-apply_option (with_ack_wait _) a b h = ground arith
core-apply_option (with_max_delivery_attempts _) a b h = ground arith
core-apply_option (with_consumer_name_prefix _) a b h = h
core-apply_option (with_deliver_policy _) a b h = ground arith
core-apply_option (with_backoff_durations _) a b h = ground arith

core-apply_options :
    (opts : List BrokerOption) (a b : BrokerConfiguration)
    → core a ≡ core b
    → core (apply_options opts a) ≡ core (apply_options opts b)
unfolding apply_options
core-apply_options [] a b h = h
core-apply_options (o ∷ opts) a b h =
    core-apply_options opts (apply_option o a) (apply_option o b) (core-apply_option o a b h)

core-unused :
    (o : BrokerOption) (a : BrokerConfiguration) → IsUnused o → core (apply_option o a) ≡ core a
unfolding apply_option
core-unused (with_stream_description _) a h = absurd h
core-unused (with_retention_policy _) a h = refl
core-unused (with_storage_type _) a h = refl
core-unused (with_max_age _) a h = absurd h
core-unused (with_discard_policy _) a h = refl
core-unused (with_ack_wait _) a h = absurd h
core-unused (with_max_delivery_attempts _) a h = absurd h
core-unused (with_consumer_name_prefix _) a h = refl
core-unused (with_deliver_policy _) a h = absurd h
core-unused (with_backoff_durations _) a h = absurd h

core-with :
    (opts more : List BrokerOption) (o : BrokerOption) (a : BrokerConfiguration)
    → IsUnused o
    → core (apply_options (opts ++ o ∷ more) a) ≡ core (apply_options (opts ++ more) a)
unfolding apply_options
core-with [] more o a h = core-apply_options more (apply_option o a) a (core-unused o a h)
core-with (p ∷ opts) more o a h = core-with opts more o (apply_option p a) h

asks-core : (a : BrokerConfiguration) → AsksTheSame a (core a)
unfolding ensure_stream_exists consumer_config
asks-core a = (refl, λ consumer_name subject. refl)

-- An option for the retention, the storage, the discard policy or the prefix of the consumers changes
-- nothing of what a broker asks the server to create, wherever it stands among the options.
pub new_jet_stream_broker-unused :
    (stream_name : Text) (subjects : List Text) (opts more : List BrokerOption) (o : BrokerOption)
    → IsUnused o
    → AsksTheSame
        (new_jet_stream_broker stream_name subjects (opts ++ o ∷ more))
        (new_jet_stream_broker stream_name subjects (opts ++ more))
unfolding new_jet_stream_broker
new_jet_stream_broker-unused stream_name subjects opts more o h =
    let start = default_configuration stream_name subjects in
    let a = apply_options (opts ++ o ∷ more) start in
    let b = apply_options (opts ++ more) start in
    let e = core-with opts more o start h in
    (
      (asks-core a).0 ∙ ap ensure_stream_exists e ∙ sym (asks-core b).0,
      λ n s. (asks-core a).1 n s ∙ ap (λ c. consumer_config c n s) e ∙ sym ((asks-core b).1 n s),
    )
