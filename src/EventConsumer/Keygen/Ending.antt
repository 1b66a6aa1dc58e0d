-- ===== src/EventConsumer/Keygen/Ending.antt =====
-- When the handler of a key generation ends, however its goroutines interleave.
use mpc_go.Common.{
  ◌≡◌, ◌⊎◌, ◌&&◌, ◌||◌, ◌∙◌, List, Text, Bool, true, false, arith, refl, inl, inr, Bool-cases,
}
use mpc_go.Messages.{KeygenResponse}
use mpc_go.EventConsumer.{NatsMsg, Effect}
use mpc_go.EventConsumer.Keygen.Running.{
  Watch, watching, ended, broke, Side, KeygenRun, begun, SideStep, generates, ends, fails,
  KeygenStep, ecdsa_goes, eddsa_goes, expires, publishes, publish_fails, stops, times_out,
  KeygenRuns, rests, goes,
}

abbrev pub is_over : Watch → Bool
is_over watching = false
is_over ended = true
is_over broke = true

-- What the handler waits for: the deadline, or the ends of both waits.
abbrev pub is_due : KeygenRun → Bool
is_due r = r.expired || (is_over r.ecdsa.watch && is_over r.eddsa.watch)

module _ (m : NatsMsg) (wallet_id : Text) where
  -- How the handler stands in a state, given whether it waits and whether it is due to end. If both, it
  -- has a step of its own that ends it, whatever the sessions do; if it only waits, no step ends it.
  abbrev pub Stands : Bool → Bool → KeygenRun → Type 0
  Stands true true p =
      (es : List (Effect KeygenResponse KeygenResponse)) × ((q : KeygenRun) × KeygenStep m wallet_id
          p es q
        × (q.waiting ≡ false)
        × (q.ecdsa ≡ p.ecdsa)
        × (q.eddsa ≡ p.eddsa))
  Stands true false p =
      (es : List (Effect KeygenResponse KeygenResponse)) (q : KeygenRun)
      → KeygenStep m wallet_id p es q
      → q.waiting ≡ true
  Stands false true p = Unit
  Stands false false p = ⊥

  side_over :
      (context_msg : Text) (expired : Bool) (s t : Side)
      (es : List (Effect KeygenResponse KeygenResponse))
      → SideStep m wallet_id context_msg expired s es t
      → is_over s.watch ≡ true
      → is_over t.watch ≡ true
  side_over c x s t es (generates key g) h = h
  side_over c x s t es (ends w d) h = refl
  side_over c x s t es (fails e w) h = refl

  step_due :
      (r q : KeygenRun) (es : List (Effect KeygenResponse KeygenResponse))
      → KeygenStep m wallet_id r es q
      → is_due r ≡ true
      → is_due q ≡ true
  step_due r q es (ecdsa_goes {s = s} a) h = ground (arith, side_over _ r.expired r.ecdsa s es a)
  step_due r q es (eddsa_goes {s = s} a) h = ground (arith, side_over _ r.expired r.eddsa s es a)
  step_due r q es (expires e) h = refl
  step_due r q es (publishes w a b) h = h
  step_due r q es (publish_fails c e w a b) h = h
  step_due r q es (stops w a) h = h
  step_due r q es (times_out w x) h = h

  -- A step that ends the handler is taken when it is due.
  step_waiting :
      (r q : KeygenRun) (es : List (Effect KeygenResponse KeygenResponse))
      → KeygenStep m wallet_id r es q
      → is_due r ≡ false
      → q.waiting ≡ r.waiting
  step_waiting r q es (ecdsa_goes a) h = refl
  step_waiting r q es (eddsa_goes a) h = refl
  step_waiting r q es (expires e) h = refl
  step_waiting r q es (publishes w a b) h = absurd (ground arith)
  step_waiting r q es (publish_fails c e w a b) h = absurd (ground arith)
  step_waiting r q es (stops w a) h = absurd (ground arith)
  step_waiting r q es (times_out w x) h = absurd (ground arith)

  -- A handler that has ended was due, and stays so.
  runs_due :
      (r p : KeygenRun) (es : List (Effect KeygenResponse KeygenResponse))
      → KeygenRuns m wallet_id r es p
      → (r.waiting ≡ true) ⊎ (is_due r ≡ true)
      → (p.waiting ≡ true) ⊎ (is_due p ≡ true)
  runs_due r p es rests h = h
  runs_due r p es (goes {q = q} {es = fs} {fs = gs} k l) h =
      runs_due q p gs l (elim (Bool-cases (is_due r)) [
        | inl d ↦ inr (step_due r q fs k d)
        | inr d ↦ inl (ground (arith, step_waiting r q fs k d))
      ])

  both_over :
      (p : KeygenRun) (u v : Watch)
      → p.waiting ≡ true
      → p.ecdsa.watch ≡ u
      → p.eddsa.watch ≡ v
      → is_over u ≡ true
      → is_over v ≡ true
      → Stands true true p
  both_over p watching v w a b h k = absurd (ground arith)
  both_over p ended watching w a b h k = absurd (ground arith)
  both_over p broke watching w a b h k = absurd (ground arith)
  both_over p ended ended w a b h k = (_, (_, publishes w a b, refl, refl, refl))
  both_over p broke ended w a b h k = (_, (_, stops w (inl (a, b)), refl, refl, refl))
  both_over p ended broke w a b h k = (_, (_, stops w (inr (inl (a, b))), refl, refl, refl))
  both_over p broke broke w a b h k = (_, (_, stops w (inr (inr (a, b))), refl, refl, refl))

  stands :
      (p : KeygenRun) (waiting due : Bool)
      → p.waiting ≡ waiting
      → is_due p ≡ due
      → (p.waiting ≡ true) ⊎ (is_due p ≡ true)
      → Stands waiting due p
  stands p true true w d h = elim (Bool-cases p.expired) [
    | inl e ↦ (_, (_, times_out w e, refl, refl, refl))
    | inr e ↦ both_over p _ _ w refl refl (ground arith) (ground arith)
  ]
  stands p true false w d h = λ es q k. step_waiting p q es k d ∙ w
  stands p false true w d h = tt
  stands p false false w d h = ground arith

  -- In every state that a key generation reaches: once the deadline has passed or both waits are over, a
  -- handler that still waits can end by a step of its own, without any step of a session; before that,
  -- no step ends it, and it has not ended.
  pub KeygenRuns-Stands :
      (p : KeygenRun) (es : List (Effect KeygenResponse KeygenResponse))
      → KeygenRuns m wallet_id begun es p
      → Stands p.waiting (is_due p) p
  KeygenRuns-Stands p es runs =
      stands p p.waiting (is_due p) refl refl (runs_due begun p es runs (inl refl))
