-- ===== src/Tests/Consumers.antt =====
-- Deliveries of signing requests to the consumer.
use mpc_go.Common.{◌≡◌, ◌∷◌, [], none, some, true, false, refl, codes, arith, pos, same}
use mpc_go.Registry.{
  Registry, new_registry, others, watch_peers_ready, get_ready_peers_include_self, ready_peers,
}
use mpc_go.SigningConsumer.{
  new_signing_consumer, ticked, proceeds, wait_for_sufficient_peers, handle_signing_event,
}
use mpc_go.RequestConsumer.{JetstreamMsg, Delivery, timed_out, reply}
use mpc_go.Messages.{SigningMessage}
use mpc_go.SigningConsumer.Laws.{
  IsHandled, is_enough, handle_signing_event-IsHandled, wait-new_signing_consumer,
}
use mpc_go.Tests.Initiators.{signing_request}

abbrev lone : Registry
lone = record {
  node_id = codes "a";
  peer_node_ids = codes "b" ∷ [];
  ready_map = [];
  ready_count = 1;
  ready = false;
  threshold = pos 2;
  identity_store = [];
  on_peer_connected = false;
  on_peer_disconnected = false;
  on_peer_reconnected = false;
}

lone_is_new : new_registry (codes "a") (codes "a" ∷ codes "b" ∷ []) (pos 2) [] ≡ some lone
unfolding new_registry others same
lone_is_new = refl

abbrev answered_late : Delivery SigningMessage
answered_late = record {
  decoded = (signing_request, none);
  inbox = codes "inbox";
  fresh_id = codes "s";
  is_subscribed = true;
  is_published = true;
  polls = timed_out ∷ timed_out ∷ reply ∷ [];
}

abbrev incoming : JetstreamMsg
incoming = record { dat = codes "j"; session_id = [] }

handle_signing_event-IsHandled_example :
    IsHandled (is_enough (watch_peers_ready lone [])) answered_late (
      handle_signing_event
        (record { threshold = pos 0; peer_registry = watch_peers_ready lone [] })
        answered_late
        incoming)
handle_signing_event-IsHandled_example =
    handle_signing_event-IsHandled (codes "a") (codes "a" ∷ codes "b" ∷ []) (pos 2) (pos 0) [] lone
      [] answered_late incoming lone_is_new (unfold watch_peers_ready ready_peers in omega arith)

wait-new_signing_consumer_example :
    wait_for_sufficient_peers
      (new_signing_consumer (watch_peers_ready lone []))
      (ticked (watch_peers_ready lone []) ∷ [])
    ≡ proceeds
wait-new_signing_consumer_example =
    wait-new_signing_consumer (codes "a") (codes "a" ∷ codes "b" ∷ []) (pos 2) [] lone [] []
      lone_is_new (unfold watch_peers_ready get_ready_peers_include_self ready_peers in omega arith)
