-- ===== src/ErrorCode/Laws.antt =====
-- Which codes the switch of `GetErrorCodeFromError` can and cannot give.
use mpc_go.Common.{
  ◌≡◌, ◌≢◌, ◌∷◌, [], Option, none, some, Text, true, codes, has_infix, has_prefix, to_lower, arith,
}
use mpc_go.ErrorCode.{
  unmarshal_failure, session_duplicate, session_creation, contains_any, classify,
  get_error_code_from_error,
}

-- A text that has the longer pattern has its tail.
has_prefix-tail : (s p : Text) → has_prefix s (b'u' ∷ b'n' ∷ p) ≡ true → has_infix s p ≡ true
unfolding has_infix has_prefix
has_prefix-tail [] p h = ground arith
has_prefix-tail (a ∷ []) p h = ground arith
has_prefix-tail (a ∷ c ∷ []) p h = ground arith
has_prefix-tail (a ∷ c ∷ d ∷ s) p h = ground arith

has_infix-tail : (s p : Text) → has_infix s (b'u' ∷ b'n' ∷ p) ≡ true → has_infix s p ≡ true
unfolding has_infix
has_infix-tail [] p h = has_prefix-tail [] p h
has_infix-tail (a ∷ s) p h = ground (arith, has_prefix-tail (a ∷ s) p, has_infix-tail s p)

unmarshal_marshal :
    (s : Text)
    → contains_any s (codes "unmarshal" ∷ []) ≡ true
    → contains_any s (codes "marshal" ∷ []) ≡ true
unfolding contains_any to_lower
unmarshal_marshal s h = ground (arith, has_infix-tail (to_lower s) (codes "marshal"))

-- No error has the code for a failure to unmarshal, since the case for "marshal" stands before that
-- for "unmarshal".
pub get_error_code-unmarshal_failure :
    (e : Option Text) → get_error_code_from_error e ≢ unmarshal_failure
unfolding get_error_code_from_error classify
get_error_code-unmarshal_failure none h = ground arith
get_error_code-unmarshal_failure (some s) h = ground (arith, unmarshal_marshal s)

-- An error whose text has "exists" in some case is sorted at the latest as an existing key, never as a
-- duplicate session or a failure to create one.
pub classify-exists :
    (s : Text)
    → contains_any s (codes "exists" ∷ []) ≡ true
    → (classify s ≢ session_duplicate) × (classify s ≢ session_creation)
unfolding classify
classify-exists s h = (λ e. ground arith, λ e. ground arith)
