-- ===== src/KeygenConsumer/Laws.antt =====
-- Every delivery of a keygen request is settled once, and the wait for the peers.
use mpc_go.Common.{◌||◌, not, arith}
use mpc_go.Messages.{KeygenMessage, KeygenResponse}
use mpc_go.Registry.{Registry, are_peers_ready}
use mpc_go.RequestConsumer.{JetstreamMsg, Delivery}
use mpc_go.RequestConsumer.Settled.{is_decoded, is_served, Settles, forward-Settles}
use mpc_go.KeygenConsumer.{mpc_generate_event, handle_keygen_error, handle_keygen_event}

-- A delivery gets one acknowledgement and no refusal if it does not decode, if not all peers are ready, or
-- if a reply to it comes in time; otherwise it gets one refusal and no acknowledgement.
pub handle_keygen_event-Settles :
    (r : Registry) (d : Delivery KeygenMessage) (m : JetstreamMsg)
    → Settles
        (handle_keygen_event r d m)
        (not (is_decoded d.decoded.1) || (not (are_peers_ready r) || is_served d))
unfolding handle_keygen_event handle_keygen_error
handle_keygen_event-Settles r d m =
    ground (arith, forward-Settles KeygenMessage KeygenResponse mpc_generate_event d m)
