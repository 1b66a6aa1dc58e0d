-- ===== src/EventConsumer/Keygen/Laws.antt =====
-- However the goroutines of a key generation interleave, it is answered with success or with
-- failures and never with both.
use mpc_go.Common.{
  if◌then◌else◌, ℕ, ◌+◌, ◌≤◌, ◌<◌, ◌≡◌, ◌∷◌, ◌++◌, [], List, Text, Bool, true, false, arith, refl,
  ◌||◌, ◌⊎◌, inl, inr,
}
use mpc_go.Messages.{KeygenResponse}
use mpc_go.EventConsumer.{
  NatsMsg, Effect, enqueued, enqueued_success, replied, exited, send_reply_to_remove_msg,
}
use mpc_go.EventConsumer.Running.{failures, failures-append, failures-reply}
use mpc_go.EventConsumer.Keygen.{handle_keygen_session_error}
use mpc_go.EventConsumer.Keygen.Running.{
  Watch, watching, ended, broke, Side, KeygenRun, begun, SideStep, generates, ends, fails,
  KeygenStep, ecdsa_goes, eddsa_goes, expires, publishes, publish_fails, stops, times_out,
  publish_context, timeout_error, timeout_context, KeygenRuns, rests, goes,
}

abbrev pub successes : {R S : Type 0} → List (Effect R S) → ℕ
successes [] = 0
successes (enqueued _ _ _ ∷ es) = successes es
successes (enqueued_success _ _ _ ∷ es) = 1 + successes es
successes (replied _ _ ∷ es) = successes es
successes (exited ∷ es) = successes es

pub successes-append :
    {R S : Type 0} (es fs : List (Effect R S)) → successes (es ++ fs) ≡ successes es + successes fs
successes-append [] fs = omega arith
successes-append (enqueued _ _ _ ∷ es) fs = successes-append es fs
successes-append (enqueued_success _ _ _ ∷ es) fs = omega (arith, successes-append es fs)
successes-append (replied _ _ ∷ es) fs = successes-append es fs
successes-append (exited ∷ es) fs = successes-append es fs

pub successes-reply :
    (R S : Type 0) (m : NatsMsg) → successes {R = R} {S = S} (send_reply_to_remove_msg m) ≡ 0
unfolding send_reply_to_remove_msg
successes-reply R S m = ground arith

pub failures-error :
    (wallet_id error context_msg : Text) (m : NatsMsg)
    → failures (handle_keygen_session_error wallet_id error context_msg m) ≡ 1
unfolding handle_keygen_session_error
failures-error wallet_id error context_msg m =
    omega (arith, failures-reply KeygenResponse KeygenResponse m)

successes-error :
    (wallet_id error context_msg : Text) (m : NatsMsg)
    → successes (handle_keygen_session_error wallet_id error context_msg m) ≡ 0
unfolding handle_keygen_session_error
successes-error wallet_id error context_msg m =
    omega (arith, successes-reply KeygenResponse KeygenResponse m)

abbrev watchers : Watch → ℕ
watchers watching = 1
watchers ended = 0
watchers broke = 0

abbrev handler : KeygenRun → ℕ
handler r = if r.waiting then 1 else 0

module _ (m : NatsMsg) (wallet_id : Text) where
  side_failures :
      (context_msg : Text) (expired : Bool) (s t : Side)
      (es : List (Effect KeygenResponse KeygenResponse))
      → SideStep m wallet_id context_msg expired s es t
      → (failures es + watchers t.watch ≤ watchers s.watch) × (successes es ≡ 0)
  side_failures c x s t es (generates key g) = ground arith
  side_failures c x s t es (ends w d) = ground arith
  side_failures c x s t es (fails e w) =
      ground (arith, failures-error wallet_id e c m, successes-error wallet_id e c m)

  -- What may still be published: the failures of the two sides, and what the handler says.
  abbrev open_results : KeygenRun → ℕ
  open_results r = watchers r.ecdsa.watch + watchers r.eddsa.watch + handler r

  step_results :
      (r q : KeygenRun) (es : List (Effect KeygenResponse KeygenResponse))
      → KeygenStep m wallet_id r es q
      → (failures es + successes es + open_results q ≤ open_results r)
        × (successes es + handler q ≤ handler r)
  step_results r q es (ecdsa_goes {s = s} a) =
      ground (arith, side_failures _ r.expired r.ecdsa s es a)
  step_results r q es (eddsa_goes {s = s} a) =
      ground (arith, side_failures _ r.expired r.eddsa s es a)
  step_results r q es (expires e) = ground arith
  step_results r q es (publishes w a b) = ground (
    arith,
    failures-reply KeygenResponse KeygenResponse m,
    successes-reply KeygenResponse KeygenResponse m,
  )
  step_results r q es (publish_fails c e w a b) = ground (
    arith,
    failures-error wallet_id e (publish_context c) m,
    successes-error wallet_id e (publish_context c) m,
  )
  step_results r q es (stops w h) = ground arith
  step_results r q es (times_out w x) = ground (
    arith,
    failures-error wallet_id timeout_error timeout_context m,
    successes-error wallet_id timeout_error timeout_context m,
  )

  -- After a failure of a side nothing is published as a success.
  abbrev is_broken : Watch → Bool
  is_broken watching = false
  is_broken ended = false
  is_broken broke = true

  abbrev has_failed : KeygenRun → Bool
  has_failed r = is_broken r.ecdsa.watch || is_broken r.eddsa.watch

  side_broken :
      (context_msg : Text) (expired : Bool) (s t : Side)
      (es : List (Effect KeygenResponse KeygenResponse))
      → SideStep m wallet_id context_msg expired s es t
      → is_broken s.watch ≡ true
      → is_broken t.watch ≡ true
  side_broken c x s t es (generates key g) h = ground arith
  side_broken c x s t es (ends w d) h = ground arith
  side_broken c x s t es (fails e w) h = ground arith

  side_fails :
      (context_msg : Text) (expired : Bool) (s t : Side)
      (es : List (Effect KeygenResponse KeygenResponse))
      → SideStep m wallet_id context_msg expired s es t
      → 0 < failures es
      → is_broken t.watch ≡ true
  side_fails c x s t es (generates key g) h = ground arith
  side_fails c x s t es (ends w d) h = ground arith
  side_fails c x s t es (fails e w) h = refl

  step_failed :
      (r q : KeygenRun) (es : List (Effect KeygenResponse KeygenResponse))
      → KeygenStep m wallet_id r es q
      → has_failed r ≡ true
      → (has_failed q ≡ true) × (successes es ≡ 0)
  step_failed r q es (ecdsa_goes {s = s} a) h =
      ground
        (arith, side_failures _ r.expired r.ecdsa s es a, side_broken _ r.expired r.ecdsa s es a)
  step_failed r q es (eddsa_goes {s = s} a) h =
      ground
        (arith, side_failures _ r.expired r.eddsa s es a, side_broken _ r.expired r.eddsa s es a)
  step_failed r q es (expires e) h = ground arith
  step_failed r q es (publishes w a b) h = ground arith
  step_failed r q es (publish_fails c e w a b) h = ground arith
  step_failed r q es (stops w x) h = ground arith
  step_failed r q es (times_out w x) h =
      ground (arith, successes-error wallet_id timeout_error timeout_context m)

  -- A step that publishes a failure.
  step_fails :
      (r q : KeygenRun) (es : List (Effect KeygenResponse KeygenResponse))
      → KeygenStep m wallet_id r es q
      → 0 < failures es
      → (has_failed q ≡ true) ⊎ (q.waiting ≡ false)
  step_fails r q es (ecdsa_goes {s = s} a) h =
      ground (arith, side_fails _ r.expired r.ecdsa s es a h)
  step_fails r q es (eddsa_goes {s = s} a) h =
      ground (arith, side_fails _ r.expired r.eddsa s es a h)
  step_fails r q es (expires e) h = ground arith
  step_fails r q es (publishes w a b) h = inr refl
  step_fails r q es (publish_fails c e w a b) h = inr refl
  step_fails r q es (stops w x) h = inr refl
  step_fails r q es (times_out w x) h = inr refl

  step_succeeds :
      (r q : KeygenRun) (es : List (Effect KeygenResponse KeygenResponse))
      → KeygenStep m wallet_id r es q
      → 0 < successes es
      → open_results r ≡ 1
  step_succeeds r q es (ecdsa_goes {s = s} a) h =
      ground (arith, side_failures _ r.expired r.ecdsa s es a)
  step_succeeds r q es (eddsa_goes {s = s} a) h =
      ground (arith, side_failures _ r.expired r.eddsa s es a)
  step_succeeds r q es (expires e) h = ground arith
  step_succeeds r q es (publishes w a b) h = ground arith
  step_succeeds r q es (publish_fails c e w a b) h = ground arith
  step_succeeds r q es (stops w x) h = ground arith
  step_succeeds r q es (times_out w x) h =
      ground (arith, successes-error wallet_id timeout_error timeout_context m)

  runs_results :
      (r q : KeygenRun) (es : List (Effect KeygenResponse KeygenResponse))
      → KeygenRuns m wallet_id r es q
      → (failures es + successes es + open_results q ≤ open_results r)
        × (successes es + handler q ≤ handler r)
  runs_results r q es rests = (omega arith, omega arith)
  runs_results r p es (goes {q = q} {es = fs} {fs = gs} a b) =
      let (s, t) = step_results r q fs a in
      let (u, v) = runs_results q p gs b in
      (
        omega (arith, failures-append fs gs, successes-append fs gs, s, u),
        omega (arith, successes-append fs gs, t, v),
      )

  runs_failed :
      (r q : KeygenRun) (es : List (Effect KeygenResponse KeygenResponse))
      → KeygenRuns m wallet_id r es q
      → has_failed r ≡ true
      → successes es ≡ 0
  runs_failed r q es rests h = refl
  runs_failed r p es (goes {q = q} {es = fs} {fs = gs} a b) h =
      let (k, z) = step_failed r q fs a h in
      omega (arith, successes-append fs gs, z, runs_failed q p gs b k)

  no_success_after :
      (r q p : KeygenRun) (fs gs : List (Effect KeygenResponse KeygenResponse))
      → KeygenStep m wallet_id r fs q
      → KeygenRuns m wallet_id q gs p
      → 0 < failures fs
      → successes gs ≡ 0
  no_success_after r q p fs gs a b h = elim (step_fails r q fs a h) [
    | inl k ↦ runs_failed q p gs b k
    | inr k ↦ ground (arith, runs_results q p gs b)
  ]

  no_failure :
      (r q : KeygenRun) (es : List (Effect KeygenResponse KeygenResponse))
      → KeygenRuns m wallet_id r es q
      → 0 < successes es
      → failures es ≡ 0
  no_failure r q es rests h = refl
  no_failure r p es (goes {q = q} {es = fs} {fs = gs} a b) h =
      let (s, _) = step_results r q fs a in
      let (u, _) = runs_results q p gs b in
      ground (
        arith,
        failures-append fs gs,
        successes-append fs gs,
        s,
        u,
        step_succeeds r q fs a,
        no_success_after r q p fs gs a b,
        no_failure q p gs b,
      )

  -- A request for a key is answered with at most three failures, and if a success is published, it is
  -- the only result.
  pub KeygenRuns-exclusive :
      (q : KeygenRun) (es : List (Effect KeygenResponse KeygenResponse))
      → KeygenRuns m wallet_id begun es q
      → (failures es ≤ 3) × ((successes es ≡ 0) ⊎ ((successes es ≡ 1) × (failures es ≡ 0)))
  KeygenRuns-exclusive q es runs =
      ground (arith, runs_results begun q es runs, no_failure begun q es runs)
