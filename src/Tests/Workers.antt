-- ===== src/Tests/Workers.antt =====
-- A worker whose semaphore has one slot, and a delivery after `Close` has closed its channel.
use mpc_go.Common.{◌≡◌, ◌∷◌, ◌++◌, [], some, Text, false, true, codes, arith, refl}
use mpc_go.EventConsumer.{NatsMsg}
use mpc_go.EventConsumer.Workers.{
  Pool, new_pool, receives, receives_closed, takes, starts, closes, pending, Works, rests, goes,
}
use mpc_go.EventConsumer.Workers.Laws.{IsBounded, Works-IsBounded, Works-drained}

abbrev message : Text → NatsMsg
message dat = record { dat = dat; reply = []; session_id = [] }

-- The first message runs, the second waits for its slot, and the channel is closed.
abbrev busy : Pool
busy = record {
  buffer = [];
  held = some (message (codes "b"));
  slots = 1;
  running = message (codes "a") ∷ [];
  is_subscribed = true;
  is_closed = true;
  is_crashed = false;
}

gets_busy :
    Works 2 1 new_pool
      (message (codes "a") ∷ message (codes "b") ∷ [])
      (message (codes "a") ∷ [])
      busy
unfolding new_pool
gets_busy = goes (receives (message (codes "a")) refl refl refl (omega arith)) (
    goes (takes (message (codes "a")) [] refl refl refl) (
      goes (starts (message (codes "a")) refl refl (omega arith)) (
        goes (receives (message (codes "b")) refl refl refl (omega arith))
          (goes (takes (message (codes "b")) [] refl refl refl) (goes (closes refl refl) rests)))))

Works-IsBounded_example :
    (message (codes "a") ∷ message (codes "b") ∷ [] ≡ (message (codes "a") ∷ []) ++ pending busy)
    × IsBounded 2 1 busy
Works-IsBounded_example =
    Works-IsBounded 2 1 busy (message (codes "a") ∷ message (codes "b") ∷ [])
      (message (codes "a") ∷ []) gets_busy

Works-drained_example : (r : Pool) × Works 2 1 busy [] (pending busy) r × (pending r ≡ [])
Works-drained_example =
    Works-drained 2 1 busy (message (codes "a") ∷ message (codes "b") ∷ [])
      (message (codes "a") ∷ []) (omega arith) gets_busy refl

-- `Close` closes the channel before it ends the subscription, and a message that comes between panics.
late_delivery : Works 2 1 busy [] [] (record busy { is_crashed = true })
late_delivery = goes (receives_closed (message (codes "c")) refl refl refl) rests
