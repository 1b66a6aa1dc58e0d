-- ===== src/EventConsumer/Resharing/Laws.antt =====
-- How a resharing request is answered, however its goroutines interleave.
use mpc_go.Common.{ℕ, ◌+◌, ◌≡◌, List, Option, none, some, Text, Bool, true, false, arith}
use mpc_go.Messages.{ResharingMessage, ResharingResponse}
use mpc_go.EventConsumer.{NatsMsg, Effect}
use mpc_go.EventConsumer.Running.{failures, failures-append, failures-reply}
use mpc_go.EventConsumer.Keygen.Running.{Watch, watching, ended, broke, Side, fresh_side}
use mpc_go.EventConsumer.Keygen.Laws.{successes, successes-append, successes-reply}
use mpc_go.EventConsumer.Resharing.{handle_resharing_session_error}
use mpc_go.EventConsumer.Resharing.Running.{
  Stage, waiting, published, unpublished, ResharingRun, SideStep, reshares, ends, fails,
  ResharingStep, old_goes, new_goes, publishes, publish_fails, publish_context, old_context,
  new_context, ResharingRuns, rests, goes,
}

pub failures-error :
    (msg : ResharingMessage) (error context_msg : Text) (m : NatsMsg)
    → (failures (handle_resharing_session_error msg error context_msg m) ≡ 1)
      × (successes (handle_resharing_session_error msg error context_msg m) ≡ 0)
unfolding handle_resharing_session_error
failures-error msg error context_msg m = (
  omega (arith, failures-reply ResharingResponse ResharingResponse m),
  successes-reply ResharingResponse ResharingResponse m,
)

abbrev broken : Watch → ℕ
broken watching = 0
broken ended = 0
broken broke = 1

-- Whether the session of this committee failed, as a number.
abbrev pub side_broken : Option Side → ℕ
side_broken none = 0
side_broken (some s) = broken s.watch

abbrev pub unpublished_count : Stage → ℕ
unpublished_count waiting = 0
unpublished_count published = 0
unpublished_count unpublished = 1

abbrev pub published_count : Stage → Option Side → ℕ
published_count published (some _) = 1
published_count published none = 0
published_count waiting _ = 0
published_count unpublished _ = 0

abbrev failed : ResharingRun → ℕ
failed r = side_broken r.old + side_broken r.new + unpublished_count r.stage

abbrev succeeded : ResharingRun → ℕ
succeeded r = published_count r.stage r.new

abbrev pub starting : Bool → Option Side
starting true = some fresh_side
starting false = none

module _ (m : NatsMsg) (msg : ResharingMessage) where
  side_counts :
      (context_msg : Text) (s t : Side) (es : List (Effect ResharingResponse ResharingResponse))
      → SideStep m msg context_msg s es t
      → (failures es + broken s.watch ≡ broken t.watch) × (successes es ≡ 0)
  side_counts c s t es (reshares key g) = ground arith
  side_counts c s t es (ends w d) = ground arith
  side_counts c s t es (fails e w) = ground (arith, failures-error msg e c m)

  step_counts :
      (r q : ResharingRun) (es : List (Effect ResharingResponse ResharingResponse))
      → ResharingStep m msg r es q
      → (failures es + failed r ≡ failed q) × (successes es + succeeded r ≡ succeeded q)
  step_counts r q es (old_goes {s = s} {t = t} e a) =
      ground (arith, side_counts old_context s t es a)
  step_counts r q es (new_goes {s = s} {t = t} e a) =
      ground (arith, side_counts new_context s t es a)
  step_counts r q es (publishes w u v) = ground (
    arith,
    failures-reply ResharingResponse ResharingResponse m,
    successes-reply ResharingResponse ResharingResponse m,
  )
  step_counts r q es (publish_fails c e w u v x) =
      ground (arith, failures-error msg e (publish_context c) m)

  runs_counts :
      (r q : ResharingRun) (es : List (Effect ResharingResponse ResharingResponse))
      → ResharingRuns m msg r es q
      → (failures es + failed r ≡ failed q) × (successes es + succeeded r ≡ succeeded q)
  runs_counts r q es rests = (omega arith, omega arith)
  runs_counts r p es (goes {q = q} {es = fs} {fs = gs} a b) =
      let (s, t) = step_counts r q fs a in
      let (u, v) = runs_counts q p gs b in
      (omega (arith, failures-append fs gs, s, u), omega (arith, successes-append fs gs, t, v))

  -- What is published of a resharing, whichever way its goroutines interleave: one failure for each of the
  -- node's sessions that failed and one if the final result could not be published, and one success if
  -- it could be and the node is in the new committee, whether or not a session failed before.
  pub ResharingRuns-counts :
      (in_old in_new : Bool) (q : ResharingRun)
      (es : List (Effect ResharingResponse ResharingResponse))
      → ResharingRuns m msg
          (record { old = starting in_old; new = starting in_new; stage = waiting })
          es
          q
      → (failures es ≡ side_broken q.old + side_broken q.new + unpublished_count q.stage)
        × (successes es ≡ published_count q.stage q.new)
  ResharingRuns-counts in_old in_new q es runs = ground (arith, runs_counts _ q es runs)
