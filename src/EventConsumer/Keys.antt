-- ===== src/EventConsumer/Keys.antt =====
-- The keys by which the message system recognises a result that it has already taken.
use mpc_go.Common.{
  ◌≡◌, ◌==◌, ◌∷◌, ◌++◌, ◌∙◌, [], refl, ap, sym, Text, true, false, Bool, Lacks, cut, cut-append,
  cut-Lacks, if◌then◌else◌, length, arith,
}
use mpc_go.EventConsumer.{NatsMsg, compose_idempotent_key}

-- The base and the session of a key without its prefix.
abbrev unique_key : Text → Text → Text
unique_key base_id session_id =
    if length session_id == 0 then base_id else base_id ++ b':' ∷ session_id

abbrev parts : Text → Text → Text × Text × Bool
parts base_id [] = (base_id, [], false)
parts base_id (c ∷ s) = (base_id, c ∷ s, true)

cut-unique_key :
    (base_id session_id : Text)
    → Lacks b':' base_id
    → cut b':' (unique_key base_id session_id) ≡ parts base_id session_id
cut-unique_key base_id [] h = cut-Lacks b':' base_id h
cut-unique_key base_id (c ∷ s) h = ground (arith, cut-append b':' base_id (c ∷ s) h)

parts-injective : (a s b t : Text) → parts a s ≡ parts b t → (a ≡ b) × (s ≡ t)
parts-injective a [] b [] e = (ap (λ p. p.0) e, refl)
parts-injective a [] b (d ∷ t) e = ground arith
parts-injective a (c ∷ s) b [] e = ground arith
parts-injective a (c ∷ s) b (d ∷ t) e = ground arith

cancel : (p a b : Text) → p ++ a ≡ p ++ b → a ≡ b
cancel [] a b e = e
cancel (x ∷ p) a b e = cancel p a b (ground arith)

-- Two results of one kind have the same key only if they are for the same wallet or transaction and
-- come of requests with the same session ID, where the IDs have no colon.
pub compose_idempotent_key-injective :
    (a b : Text) (m n : NatsMsg) (prefix : Text)
    → Lacks b':' a
    → Lacks b':' b
    → compose_idempotent_key a m prefix ≡ compose_idempotent_key b n prefix
    → (a ≡ b) × (m.session_id ≡ n.session_id)
unfolding compose_idempotent_key
compose_idempotent_key-injective a b m n prefix h k e =
    parts-injective a m.session_id b n.session_id (
      sym (cut-unique_key a m.session_id h)
      ∙ ap (cut b':') (cancel prefix (unique_key a m.session_id) (unique_key b n.session_id) e)
      ∙ cut-unique_key b n.session_id k)
