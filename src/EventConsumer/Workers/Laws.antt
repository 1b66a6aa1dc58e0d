-- ===== src/EventConsumer/Workers/Laws.antt =====
-- What a worker keeps: the order of the messages, none lost and none started twice, and the bounds of its
-- channel and of its semaphore; and that it gets to the end of what was handed over.
use mpc_go.Common.{
  ℕ, suc, ◌<◌, ◌≤◌, ◌≡◌, ◌∷◌, ◌++◌, [], List, Option, none, some, false, length, length-append,
  append_nil, append_assoc, arith, refl, sym, ap, ◌∙◌,
}
use mpc_go.EventConsumer.{NatsMsg}
use mpc_go.EventConsumer.Workers.{
  Pool, new_pool, queue, WorkerStep, receives, receives_closed, takes, starts, finishes, closes,
  unsubscribes, pending, Works, rests, goes,
}

-- Every goroutine holds one slot, of which there are `max`, and the channel holds at most `size` messages.
abbrev pub IsBounded : ℕ → ℕ → Pool → Type 0
IsBounded size max p = (p.slots ≡ length p.running) × (p.slots ≤ max) × (length p.buffer ≤ size)

module _ (size max : ℕ) where
  step-IsBounded :
      (p q : Pool) (ds ss : List NatsMsg)
      → WorkerStep size max p ds ss q
      → IsBounded size max p
      → IsBounded size max q
  step-IsBounded p q ds ss (receives m c s o l) h = ground (arith, length-append p.buffer (m ∷ []))
  step-IsBounded p q ds ss (receives_closed m c s o) h = h
  step-IsBounded p q ds ss (takes m rest c u b) h = ground arith
  step-IsBounded p q ds ss (starts m c u l) h = ground (arith, length-append p.running (m ∷ []))
  step-IsBounded p q ds ss (finishes m before after slots c r s) h =
      ground (arith, length-append before (m ∷ after), length-append before after)
  step-IsBounded p q ds ss (closes c o) h = h
  step-IsBounded p q ds ss (unsubscribes c o) h = h

  run_within :
      (p q : Pool) (ds ss : List NatsMsg)
      → Works size max p ds ss q
      → IsBounded size max p
      → IsBounded size max q
  run_within p q ds ss rests h = h
  run_within p r ds ss (goes {q = q} {ds = es} {ss = ts} k l) h =
      run_within q r _ _ l (step-IsBounded p q es ts k h)

  queue-append :
      (held : Option NatsMsg) (buffer ds : List NatsMsg)
      → queue held buffer ++ ds ≡ queue held (buffer ++ ds)
  queue-append none buffer ds = refl
  queue-append (some m) buffer ds = refl

  step_order :
      (p q : Pool) (ds ss : List NatsMsg)
      → WorkerStep size max p ds ss q
      → pending p ++ ds ≡ ss ++ pending q
  step_order p q ds ss (receives m c s o l) = queue-append p.held p.buffer (m ∷ [])
  step_order p q ds ss (receives_closed m c s o) = append_nil (pending p)
  step_order p q ds ss (takes m rest c u b) = ground (arith, append_nil (pending p))
  step_order p q ds ss (starts m c u l) = ground (arith, append_nil (pending p))
  step_order p q ds ss (finishes m before after slots c r s) = append_nil (pending p)
  step_order p q ds ss (closes c o) = append_nil (pending p)
  step_order p q ds ss (unsubscribes c o) = append_nil (pending p)

  run_order :
      (p q : Pool) (ds ss : List NatsMsg)
      → Works size max p ds ss q
      → pending p ++ ds ≡ ss ++ pending q
  run_order p q ds ss rests = append_nil (pending p)
  run_order p r ds ss (goes {q = q} {ds = bs} {es = es} {ss = as'} {ts = ts} k l) =
      sym (append_assoc (pending p) bs es)
      ∙ ap (λ t. t ++ es) (step_order p q bs as' k)
      ∙ append_assoc as' (pending q) es
      ∙ ap (λ t. as' ++ t) (run_order q r es ts l)
      ∙ sym (append_assoc as' ts (pending r))

  -- A worker that holds no message and has this channel to go through.
  abbrev Free : List NatsMsg → Pool → Type 0
  Free b p = (p.is_crashed ≡ false) × (p.held ≡ none) × (p.buffer ≡ b) × IsBounded size max p

  -- It gets from this state, without a message that is handed over, to one where nothing waits.
  abbrev Drains : List NatsMsg → Pool → Type 0
  Drains ss p = (q : Pool) × Works size max p [] ss q × Free [] q

  start_next :
      (m : NatsMsg) (b ss : List NatsMsg) (p : Pool)
      → p.is_crashed ≡ false
      → p.held ≡ some m
      → p.buffer ≡ b
      → IsBounded size max p
      → p.slots < max
      → ((q : Pool) → Free b q → Drains ss q)
      → Drains (m ∷ ss) p
  start_next m b ss p c u e h l next =
      let k : WorkerStep size max p [] (m ∷ [])
          (record p { held = none; slots = suc p.slots; running = p.running ++ m ∷ [] }) =
        starts m c u l in
      let (q, w, f) = next _ (c, refl, e, step-IsBounded p _ [] (m ∷ []) k h) in (q, goes k w, f)

  -- A goroutine that ends gives its slot to the message that the worker holds.
  start_held :
      (running : List NatsMsg) (m : NatsMsg) (b ss : List NatsMsg) (p : Pool)
      → p.running ≡ running
      → p.is_crashed ≡ false
      → p.held ≡ some m
      → p.buffer ≡ b
      → IsBounded size max p
      → 0 < max
      → ((q : Pool) → Free b q → Drains ss q)
      → Drains (m ∷ ss) p
  start_held [] m b ss p r c u e h z next =
      let l : p.slots < max = ground arith in start_next m b ss p c u e h l next
  start_held (n ∷ running) m b ss p r c u e h z next =
      let s : p.slots ≡ suc (length running) = ground arith in
      let k : WorkerStep size max p [] [] (record p { running = running; slots = length running }) =
        finishes n [] running (length running) c r s in
      let (q, w, f) =
        start_next m b ss _ c u e (step-IsBounded p _ [] [] k h) (ground arith) next in
      (q, goes k w, f)

  drain_buffer : (b : List NatsMsg) (p : Pool) → 0 < max → Free b p → Drains b p
  drain_buffer [] p z f = (p, rests, f)
  drain_buffer (m ∷ b) p z (c, u, e, h) =
      let k : WorkerStep size max p [] [] (record p { buffer = b; held = some m }) =
        takes m b c u e in
      let (q, w, f) =
        start_held p.running m b b _ refl c refl refl (step-IsBounded p _ [] [] k h) z
          (λ q. drain_buffer b q z) in
      (q, goes k w, f)

  drain_pool :
      (held : Option NatsMsg) (p : Pool)
      → 0 < max
      → p.held ≡ held
      → p.is_crashed ≡ false
      → IsBounded size max p
      → Drains (queue held p.buffer) p
  drain_pool none p z u c h = drain_buffer p.buffer p z (c, u, refl, h)
  drain_pool (some m) p z u c h =
      start_held p.running m p.buffer p.buffer p refl c u refl h z (λ q. drain_buffer p.buffer q z)

-- However a worker, its subscription, its handlers and `Close` interleave: the messages that were handed
-- over are those whose handler has started, in the same order, followed by those that wait, so none is
-- lost, started twice or overtaken; each handler that runs holds one slot, at most `max` run at a time,
-- and the channel holds at most `size` messages.
pub Works-IsBounded :
    (size max : ℕ) (q : Pool) (ds ss : List NatsMsg)
    → Works size max new_pool ds ss q
    → (ds ≡ ss ++ pending q) × IsBounded size max q
unfolding new_pool
Works-IsBounded size max q ds ss w =
    (run_order size max _ q ds ss w, run_within size max _ q ds ss w (ground arith))

-- If the semaphore has a slot, then from every state that is reached without a panic, be the channel
-- closed or not and all slots taken or not, the worker and its handlers can go on, with no further
-- message, to a state where the handlers of all messages that waited have started, in their order.
pub Works-drained :
    (size max : ℕ) (q : Pool) (ds ss : List NatsMsg)
    → 0 < max
    → Works size max new_pool ds ss q
    → q.is_crashed ≡ false
    → (r : Pool) × Works size max q [] (pending q) r × (pending r ≡ [])
unfolding new_pool
Works-drained size max q ds ss z w c =
    let (r, v, (_, u, e, _)) =
      drain_pool size max q.held q z refl c (run_within size max _ q ds ss w (ground arith)) in
    (r, v, ground arith)
