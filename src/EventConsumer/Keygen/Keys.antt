-- ===== src/EventConsumer/Keygen/Keys.antt =====
-- The keys that a success of a key generation carries.
use mpc_go.Common.{
  ◌≡◌, ◌⊎◌, List, Text, Bool, true, false, All, All-append, arith, refl, length, ◌==◌, Bool-cases,
  inl, inr, subst,
}
use mpc_go.Messages.{KeygenResponse}
use mpc_go.EventConsumer.{
  NatsMsg, Effect, enqueued, enqueued_success, replied, exited, send_reply_to_remove_msg,
}
use mpc_go.EventConsumer.Keygen.{handle_keygen_session_error}
use mpc_go.EventConsumer.Keygen.Running.{
  watching, ended, broke, Side, KeygenRun, begun, SideStep, generates, ends, fails, KeygenStep,
  ecdsa_goes, eddsa_goes, expires, publishes, publish_fails, stops, times_out, publish_context,
  timeout_error, timeout_context, ecdsa_context, eddsa_context, KeygenRuns, rests, goes,
}

-- A success carries both keys as the sessions of this state have generated them.
abbrev pub Carries : KeygenRun → Effect KeygenResponse KeygenResponse → Type 0
Carries r (enqueued _ _ _) = Unit
Carries r (enqueued_success _ response _) =
    (response.ecdsa_pub_key ≡ r.ecdsa.pub_key)
    × (response.eddsa_pub_key ≡ r.eddsa.pub_key)
    × (r.ecdsa.generated ≡ true)
    × (r.eddsa.generated ≡ true)
Carries r (replied _ _) = Unit
Carries r exited = Unit

-- A context is cancelled by a key or by an error, and a wait ends with the session's key.
abbrev Kept : Side → Type 0
Kept s =
    ((s.cancelled ≡ false) ⊎ ((s.generated ≡ true) ⊎ (s.watch ≡ broke)))
    × ((s.watch ≡ watching)
        ⊎ ((s.watch ≡ broke) ⊎ ((s.response_key ≡ s.pub_key) × (s.generated ≡ true))))

module _ (m : NatsMsg) (wallet_id : Text) where
  side-Kept :
      (context_msg : Text) (s t : Side) (es : List (Effect KeygenResponse KeygenResponse))
      → SideStep m wallet_id context_msg false s es t
      → Kept s
      → Kept t
  side-Kept c s t es (generates key g) h = ground arith
  side-Kept c s t es (ends w d) h = ground arith
  side-Kept c s t es (fails e w) h = ground arith

  side_stays :
      (context_msg : Text) (expired : Bool) (s t : Side)
      (es : List (Effect KeygenResponse KeygenResponse))
      → SideStep m wallet_id context_msg expired s es t
      → s.generated ≡ true
      → (t.generated ≡ true) × (t.pub_key ≡ s.pub_key)
  side_stays c x s t es (generates key g) h = ground arith
  side_stays c x s t es (ends w d) h = (h, refl)
  side_stays c x s t es (fails e w) h = (h, refl)

  -- Both keys are there and stay.
  abbrev Generated : KeygenRun → Text → Text → Type 0
  Generated r a b =
      (r.ecdsa.generated ≡ true)
      × (r.eddsa.generated ≡ true)
      × (r.ecdsa.pub_key ≡ a)
      × (r.eddsa.pub_key ≡ b)

  step_stays :
      (r q : KeygenRun) (es : List (Effect KeygenResponse KeygenResponse)) (a b : Text)
      → KeygenStep m wallet_id r es q
      → Generated r a b
      → Generated q a b
  step_stays r q es a b (ecdsa_goes {s = s} k) h =
      ground (arith, side_stays _ r.expired r.ecdsa s es k h.0)
  step_stays r q es a b (eddsa_goes {s = s} k) h =
      ground (arith, side_stays _ r.expired r.eddsa s es k h.1)
  step_stays r q es a b (expires e) h = h
  step_stays r q es a b (publishes w u v) h = h
  step_stays r q es a b (publish_fails c e w u v) h = h
  step_stays r q es a b (stops w u) h = h
  step_stays r q es a b (times_out w u) h = h

  runs_stay :
      (r q : KeygenRun) (es : List (Effect KeygenResponse KeygenResponse)) (a b : Text)
      → KeygenRuns m wallet_id r es q
      → Generated r a b
      → Generated q a b
  runs_stay r q es a b rests h = h
  runs_stay r p es a b (goes {q = q} {es = fs} {fs = gs} k l) h =
      runs_stay q p gs a b l (step_stays r q fs a b k h)

  step_expired :
      (r q : KeygenRun) (es : List (Effect KeygenResponse KeygenResponse))
      → KeygenStep m wallet_id r es q
      → q.expired ≡ false
      → r.expired ≡ false
  step_expired r q es (ecdsa_goes k) h = h
  step_expired r q es (eddsa_goes k) h = h
  step_expired r q es (expires e) h = e
  step_expired r q es (publishes w u v) h = h
  step_expired r q es (publish_fails c e w u v) h = h
  step_expired r q es (stops w u) h = h
  step_expired r q es (times_out w u) h = h

  runs_expired :
      (r q : KeygenRun) (es : List (Effect KeygenResponse KeygenResponse))
      → KeygenRuns m wallet_id r es q
      → q.expired ≡ false
      → r.expired ≡ false
  runs_expired r q es rests h = h
  runs_expired r p es (goes {q = q} {es = fs} {fs = gs} k l) h =
      step_expired r q fs k (runs_expired q p gs l h)

  reply-Carries : (p : KeygenRun) → All (Carries p) (send_reply_to_remove_msg m)
  unfolding send_reply_to_remove_msg
  reply-Carries p = elim (Bool-cases (length m.reply == 0)) [
    | inl h ↦ rw h tt
    | inr h ↦ rw h (tt, tt)
  ]

  error-Carries :
      (p : KeygenRun) (error context_msg : Text)
      → All (Carries p) (handle_keygen_session_error wallet_id error context_msg m)
  unfolding handle_keygen_session_error
  error-Carries p error context_msg = (tt, reply-Carries p)

  side-Carries :
      (p : KeygenRun) (context_msg : Text) (expired : Bool) (s t : Side)
      (es : List (Effect KeygenResponse KeygenResponse))
      → SideStep m wallet_id context_msg expired s es t
      → All (Carries p) es
  side-Carries p c x s t es (generates key g) = tt
  side-Carries p c x s t es (ends w d) = tt
  side-Carries p c x s t es (fails e w) = error-Carries p e c

  step-Kept :
      (r q : KeygenRun) (es : List (Effect KeygenResponse KeygenResponse))
      → KeygenStep m wallet_id r es q
      → r.expired ≡ false
      → Kept r.ecdsa × Kept r.eddsa
      → Kept q.ecdsa × Kept q.eddsa
  step-Kept r q es (ecdsa_goes {s = s} a) e (h, k) = (
    side-Kept ecdsa_context r.ecdsa s es
        (subst (λ x. SideStep m wallet_id ecdsa_context x r.ecdsa es s) e a) h,
    k,
  )
  step-Kept r q es (eddsa_goes {s = s} a) e (h, k) = (
    h,
    side-Kept eddsa_context r.eddsa s es
        (subst (λ x. SideStep m wallet_id eddsa_context x r.eddsa es s) e a) k,
  )
  step-Kept r q es (expires e) _ h = h
  step-Kept r q es (publishes w u v) e h = h
  step-Kept r q es (publish_fails c e w u v) _ h = h
  step-Kept r q es (stops w u) e h = h
  step-Kept r q es (times_out w u) e h = h

  published_carries :
      (r p : KeygenRun)
      → Kept r.ecdsa × Kept r.eddsa
      → r.ecdsa.watch ≡ ended
      → r.eddsa.watch ≡ ended
      → (Generated r r.ecdsa.pub_key r.eddsa.pub_key → Generated p r.ecdsa.pub_key r.eddsa.pub_key)
      → (r.ecdsa.response_key ≡ p.ecdsa.pub_key)
        × (r.eddsa.response_key ≡ p.eddsa.pub_key)
        × (p.ecdsa.generated ≡ true)
        × (p.eddsa.generated ≡ true)
  published_carries r p h u v f = ground arith

  step-Carries :
      (r q p : KeygenRun) (es gs : List (Effect KeygenResponse KeygenResponse))
      → KeygenStep m wallet_id r es q
      → KeygenRuns m wallet_id q gs p
      → Kept r.ecdsa × Kept r.eddsa
      → All (Carries p) es
  step-Carries r q p es gs (ecdsa_goes {s = s} a) b h =
      side-Carries p ecdsa_context r.expired r.ecdsa s es a
  step-Carries r q p es gs (eddsa_goes {s = s} a) b h =
      side-Carries p eddsa_context r.expired r.eddsa s es a
  step-Carries r q p es gs (expires e) b h = tt
  step-Carries r q p es gs (publishes w u v) b h = (
    published_carries r p h u v (runs_stay q p gs r.ecdsa.pub_key r.eddsa.pub_key b),
    reply-Carries p,
  )
  step-Carries r q p es gs (publish_fails c e w u v) b h = error-Carries p e (publish_context c)
  step-Carries r q p es gs (stops w u) b h = tt
  step-Carries r q p es gs (times_out w u) b h = error-Carries p timeout_error timeout_context

  runs_carry :
      (r p : KeygenRun) (es : List (Effect KeygenResponse KeygenResponse))
      → KeygenRuns m wallet_id r es p
      → p.expired ≡ false
      → Kept r.ecdsa × Kept r.eddsa
      → All (Carries p) es
  runs_carry r p es rests e h = tt
  runs_carry r p es (goes {q = q} {es = fs} {fs = gs} a b) e h =
      let x = step_expired r q fs a (runs_expired q p gs b e) in
      All-append (Carries p) fs gs (step-Carries r q p fs gs a b h)
        (runs_carry q p gs b e (step-Kept r q fs a x h))

  -- As long as the deadline has not passed, a success that is published carries the two public keys that
  -- the sessions have generated.
  pub KeygenRuns-Carries :
      (q : KeygenRun) (es : List (Effect KeygenResponse KeygenResponse))
      → KeygenRuns m wallet_id begun es q
      → q.expired ≡ false
      → All (Carries q) es
  KeygenRuns-Carries q es runs e =
      runs_carry begun q es runs e ((inl refl, inl refl), (inl refl, inl refl))
