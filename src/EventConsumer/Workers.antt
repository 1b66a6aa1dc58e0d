-- ===== src/EventConsumer/Workers.antt =====
-- The worker of one kind of request (`startKeyGenEventWorker`, `startSigningEventWorker` and
-- `startResharingEventWorker` of pkg/eventconsumer/event.go, which differ in the channel and in the
-- handler), with the subscription that feeds its channel and with what `Close` does to both. The
-- semaphore is the number of its slots that are taken.
pub mod Laws
use mpc_go.Common.{
  ℕ, suc, ◌<◌, ◌≡◌, ◌∷◌, ◌++◌, [], List, Option, none, some, Bool, true, false, length,
}
use mpc_go.EventConsumer.{NatsMsg}

-- `held` is the message that the worker has taken and waits to start; `is_crashed` is a panic.
pub record Pool : Type 0 where
  pub buffer : List NatsMsg
  pub held : Option NatsMsg
  pub slots : ℕ
  pub running : List NatsMsg
  pub is_subscribed : Bool
  pub is_closed : Bool
  pub is_crashed : Bool

-- After `Run` has subscribed.
unfoldable pub new_pool : Pool
new_pool = record {
  buffer = [];
  held = none;
  slots = 0;
  running = [];
  is_subscribed = true;
  is_closed = false;
  is_crashed = false;
}

-- One step, with the messages that the subscription hands over and those whose handler starts. The
-- channel keeps what it has when it is closed, and the worker goes on with it; who sends into a closed
-- channel, or closes it again, panics.
pub data WorkerStep (size max : ℕ) : Pool → List NatsMsg → List NatsMsg → Pool → Type 0 where
  receives :
      {p : Pool} (m : NatsMsg)
      → p.is_crashed ≡ false
      → p.is_subscribed ≡ true
      → p.is_closed ≡ false
      → length p.buffer < size
      → WorkerStep size max p (m ∷ []) [] (record p { buffer = p.buffer ++ m ∷ [] })
  receives_closed :
      {p : Pool} (m : NatsMsg)
      → p.is_crashed ≡ false
      → p.is_subscribed ≡ true
      → p.is_closed ≡ true
      → WorkerStep size max p [] [] (record p { is_crashed = true })
  takes :
      {p : Pool} (m : NatsMsg) (rest : List NatsMsg)
      → p.is_crashed ≡ false
      → p.held ≡ none
      → p.buffer ≡ m ∷ rest
      → WorkerStep size max p [] [] (record p { buffer = rest; held = some m })
  starts :
      {p : Pool} (m : NatsMsg)
      → p.is_crashed ≡ false
      → p.held ≡ some m
      → p.slots < max
      → WorkerStep size max p []
          (m ∷ [])
          (record p { held = none; slots = suc p.slots; running = p.running ++ m ∷ [] })
  finishes :
      {p : Pool} (m : NatsMsg) (before after : List NatsMsg) (slots : ℕ)
      → p.is_crashed ≡ false
      → p.running ≡ before ++ m ∷ after
      → p.slots ≡ suc slots
      → WorkerStep size max p [] [] (record p { running = before ++ after; slots = slots })
  closes :
      {p : Pool}
      → p.is_crashed ≡ false
      → p.is_closed ≡ false
      → WorkerStep size max p [] [] (record p { is_closed = true })
  unsubscribes :
      {p : Pool}
      → p.is_crashed ≡ false
      → p.is_closed ≡ true
      → WorkerStep size max p [] [] (record p { is_subscribed = false })

-- The messages that have been handed over and have not started, in their order.
abbrev pub queue : Option NatsMsg → List NatsMsg → List NatsMsg
queue none buffer = buffer
queue (some m) buffer = m ∷ buffer

abbrev pub pending : Pool → List NatsMsg
pending p = queue p.held p.buffer

pub data Works (size max : ℕ) : Pool → List NatsMsg → List NatsMsg → Pool → Type 0 where
  rests : {p : Pool} → Works size max p [] [] p
  goes :
      {p q r : Pool} {ds es ss ts : List NatsMsg}
      → WorkerStep size max p ds ss q
      → Works size max q es ts r
      → Works size max p (ds ++ es) (ss ++ ts) r
