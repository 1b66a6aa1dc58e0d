-- ===== src/ResharingConsumer/Laws.antt =====
-- Every delivery of a resharing request is settled once.
use mpc_go.Common.{◌||◌, not, arith}
use mpc_go.Messages.{ResharingMessage, ResharingResponse}
use mpc_go.RequestConsumer.{JetstreamMsg, Delivery}
use mpc_go.RequestConsumer.Settled.{is_decoded, is_served, Settles, forward-Settles}
use mpc_go.ResharingConsumer.{mpc_resharing_event, handle_resharing_error, handle_resharing_event}

-- A delivery gets one acknowledgement and no refusal if it does not decode or if a reply to it comes in
-- time; otherwise it gets one refusal and no acknowledgement.
pub handle_resharing_event-Settles :
    (d : Delivery ResharingMessage) (m : JetstreamMsg)
    → Settles (handle_resharing_event d m) (not (is_decoded d.decoded.1) || is_served d)
unfolding handle_resharing_event handle_resharing_error
handle_resharing_event-Settles d m =
    ground (arith, forward-Settles ResharingMessage ResharingResponse mpc_resharing_event d m)
